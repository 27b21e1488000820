-- ===== src/Daemon/State.antt =====
-- inc/daemon.hpp: the state of SnapshotDaemon, and what it does to the outside. A probe's schedule
-- and its part of `last_known_good_` are one `Section`. A time point equal to
-- steady_clock::time_point::min() is `none`. Threads, mutexes and the probes themselves are left out:
-- what a probe answers is an argument of the cycle.
use edge_healthd.Prelude.{ℕ, refl, Bool, false, Option, none, some, if◌then◌else◌, Str}
use edge_healthd.Prelude.Int.{pos, pos_part}
use edge_healthd.Prelude.Double.{Double}
use edge_healthd.Types.Enums.{Severity}
use edge_healthd.Types.Sections.{
  DeviceInfo, BootStatus, ServicesStatus, ResourcesStatus, TimeSyncStatus, UpdateStatus,
  JournalStatus, CrashStatus, device_info_default, boot_status_default, services_status_default,
  resources_status_default, time_sync_status_default, update_status_default, journal_status_default,
  crash_status_default,
}
use edge_healthd.Types.Snapshot.{SnapshotState, snapshot_state_default}
use edge_healthd.Config.{Config}
use edge_healthd.Probe.Result.{ProbeError}
use edge_healthd.HealthManager.{HealthManager, Signal, health_manager_initial}
use edge_healthd.Daemon.Schedule.{Section, HasFreshness, Reading}

instance abbrev pub boot_freshness : HasFreshness BootStatus
boot_freshness = record {
  freshness_of = λ x. x.freshness;
  with_freshness = λ f x. record x { freshness = f };
  of-with = λ f x. refl;
  with-with = λ f g x. refl;
}

instance abbrev pub services_freshness : HasFreshness ServicesStatus
services_freshness = record {
  freshness_of = λ x. x.freshness;
  with_freshness = λ f x. record x { freshness = f };
  of-with = λ f x. refl;
  with-with = λ f g x. refl;
}

instance abbrev pub resources_freshness : {F : Type 0} → HasFreshness (ResourcesStatus F)
resources_freshness = record {
  freshness_of = λ x. x.freshness;
  with_freshness = λ f x. record x { freshness = f };
  of-with = λ f x. refl;
  with-with = λ f g x. refl;
}

instance abbrev pub time_sync_freshness : HasFreshness TimeSyncStatus
time_sync_freshness = record {
  freshness_of = λ x. x.freshness;
  with_freshness = λ f x. record x { freshness = f };
  of-with = λ f x. refl;
  with-with = λ f g x. refl;
}

instance abbrev pub update_freshness : HasFreshness UpdateStatus
update_freshness = record {
  freshness_of = λ x. x.freshness;
  with_freshness = λ f x. record x { freshness = f };
  of-with = λ f x. refl;
  with-with = λ f g x. refl;
}

instance abbrev pub journal_freshness : HasFreshness JournalStatus
journal_freshness = record {
  freshness_of = λ x. x.freshness;
  with_freshness = λ f x. record x { freshness = f };
  of-with = λ f x. refl;
  with-with = λ f g x. refl;
}

instance abbrev pub crash_freshness : HasFreshness CrashStatus
crash_freshness = record {
  freshness_of = λ x. x.freshness;
  with_freshness = λ f x. record x { freshness = f };
  of-with = λ f x. refl;
  with-with = λ f g x. refl;
}

-- The schedules and `last_known_good_`.
pub record Sections (F : Type 0) : Type 0 where
  pub device : Section DeviceInfo
  pub boot : Section BootStatus
  pub services : Section ServicesStatus
  pub resources : Section (ResourcesStatus F)
  pub time_sync : Section TimeSyncStatus
  pub update : Section UpdateStatus
  pub journal : Section JournalStatus
  pub crash : Section CrashStatus

pub record Daemon (F : Type 0) : Type 0 where
  pub config : Config F
  pub sections : Sections F
  pub health_manager : Option HealthManager
  pub rauc_update_pending : Bool
  pub crash_ack_pending : Bool
  pub trigger_requested : Bool
  pub shutdown_requested : Bool
  pub cycle_count : ℕ
  pub current_state : SnapshotState F
  pub last_severity : Severity
  pub last_alarmed_crash_fp : Option Str
  pub current_panic_fingerprint : Option Str
  pub last_trigger_time : Option ℕ

-- What the daemon does to the outside, in order.
pub data Effect (F : Type 0) : Type 0 where
  -- the probe's name and the error
  log_probe_error : Str → ProbeError → Effect F
  -- the snapshot goes to SnapshotWriter::write
  write_snapshot : SnapshotState F → Effect F
  log_writer_error : Str → Effect F
  -- a D-Bus signal
  emit : Signal → Effect F
  -- the severity and the degraded domains, for the heartbeat log
  log_snapshot_collected : Str → Str → Effect F
  -- the STATUS of systemd
  notify_status : Str → Effect F
  -- the eventfd that breaks the wait of the main loop is written
  wake : Effect F
  -- crash_state.json is replaced by one with this acknowledged fingerprint
  write_acknowledgement : Str → Effect F

-- What the writer did: it returned, it returned an error, or the serialization threw.
pub data WriteOutcome : Type 0 where
  written : WriteOutcome
  write_failed : Str → WriteOutcome
  write_threw : Str → WriteOutcome

-- What a cycle reads from outside: the clocks, the number of cores, and what each probe would
-- answer.
pub record Inputs (F : Type 0) : Type 0 where
  pub now : ℕ
  pub generated_at : ℕ
  pub cores : ℕ
  pub device : Reading DeviceInfo
  pub boot : Reading BootStatus
  pub services : Reading ServicesStatus
  pub resources : Reading (ResourcesStatus F)
  pub time_sync : Reading TimeSyncStatus
  pub update : Reading UpdateStatus
  pub journal : Reading JournalStatus
  pub crash : Reading CrashStatus
  pub write_outcome : WriteOutcome

-- A schedule `{ interval }` of initialize(), over the default value.
abbrev pub unread : {T : Type 0} → ℕ → T → Section T
unread interval value = record {
  sched = record { interval = interval; next_run = 0; has_result = false };
  cache = value;
}

-- The state after the constructor and a successful initialize(); `dbus` is whether the system bus
-- could be reached, without which there is no health manager.
unfoldable pub initialize : {F : Type 0} → Double F → Config F → Bool → Daemon F
initialize fp c dbus =
    let zero_load = fp.of_int (pos 0) in
    let collect = pos_part c.collect_interval in
    record {
      config = c;
      sections = record {
        device = unread 0 device_info_default;
        boot = unread collect boot_status_default;
        services = unread collect services_status_default;
        resources = unread collect (resources_status_default zero_load);
        time_sync = unread (pos_part c.time_sync_interval) time_sync_status_default;
        update = unread (pos_part c.update_check_interval) update_status_default;
        journal = unread collect journal_status_default;
        crash = unread collect crash_status_default;
      };
      health_manager = if dbus then some health_manager_initial else none;
      rauc_update_pending = false;
      crash_ack_pending = false;
      trigger_requested = false;
      shutdown_requested = false;
      cycle_count = 0;
      current_state = snapshot_state_default zero_load;
      last_severity = Severity.unknown;
      last_alarmed_crash_fp = none;
      current_panic_fingerprint = none;
      last_trigger_time = none;
    }
