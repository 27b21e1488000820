-- ===== src/Types/Snapshot.antt =====
-- inc/types.hpp: the per-domain severities, the summary, the top-level state, and the list of
-- degraded domains of the heartbeat log.
pub mod Degraded
use edge_healthd.Prelude.{
  ℕ, Bool, true, false, Option, none, List, [], ◌∷◌, ◌++◌, Str, str, is_empty, if◌then◌else◌,
}
use edge_healthd.Types.Enums.{Severity, severity_to_string}
use edge_healthd.Types.Sections.{
  DeviceInfo, BootStatus, ServicesStatus, ResourcesStatus, TimeSyncStatus, UpdateStatus,
  JournalStatus, CrashStatus, device_info_default, boot_status_default, services_status_default,
  resources_status_default, time_sync_status_default, update_status_default, journal_status_default,
  crash_status_default,
}

pub record DomainSeverities : Type 0 where
  pub boot : Severity
  pub services : Severity
  pub resources : Severity
  pub time_sync : Severity
  pub update : Severity
  pub journal : Severity
  pub crash : Severity

abbrev pub domain_severities_default : DomainSeverities
domain_severities_default = record {
  boot = Severity.unknown;
  services = Severity.unknown;
  resources = Severity.unknown;
  time_sync = Severity.unknown;
  update = Severity.unknown;
  journal = Severity.unknown;
  crash = Severity.unknown;
}

-- The domains in declaration order: the seven severities that the roll-up combines.
abbrev pub domain_list : DomainSeverities → List Severity
domain_list d =
    d.boot ∷ d.services ∷ d.resources ∷ d.time_sync ∷ d.update ∷ d.journal ∷ d.crash ∷ []

-- Not actionable: healthy, or never observed.
abbrev pub is_quiet : Severity → Bool
is_quiet Severity.ok = true
is_quiet Severity.unknown = true
is_quiet _ = false

-- The loop of `degraded_domains`, with the text so far.
degraded_from : Str → List (Str × Severity) → Str
degraded_from out [] = out
degraded_from out ((name, sev) ∷ doms) =
    degraded_from
      (if is_quiet sev
        then out
        else (if is_empty out then out else out ++ str ", ")
          ++ name
          ++ str "="
          ++ severity_to_string sev)
      doms

abbrev pub named_domains : DomainSeverities → List (Str × Severity)
named_domains d =
    (str "boot", d.boot)
    ∷ (str "services", d.services)
    ∷ (str "resources", d.resources)
    ∷ (str "time_sync", d.time_sync)
    ∷ (str "update", d.update)
    ∷ (str "journal", d.journal)
    ∷ (str "crash", d.crash)
    ∷ []

unfoldable pub degraded_domains : DomainSeverities → Str
unfolding degraded_from
degraded_domains d = degraded_from [] (named_domains d)

pub record SnapshotSummary : Type 0 where
  pub severity : Severity
  pub domains : DomainSeverities
  pub reasons : List Str
  pub notes : Option Str

pub record SnapshotState (F : Type 0) : Type 0 where
  pub generated_at : ℕ
  pub cycle : ℕ
  pub device : DeviceInfo
  pub boot : BootStatus
  pub services : ServicesStatus
  pub resources : ResourcesStatus F
  pub time_sync : TimeSyncStatus
  pub update : UpdateStatus
  pub journal : JournalStatus
  pub crash : CrashStatus
  pub summary : SnapshotSummary

unfoldable pub snapshot_state_default : {F : Type 0} → F → SnapshotState F
snapshot_state_default zero_load = record {
  generated_at = 0;
  cycle = 0;
  device = device_info_default;
  boot = boot_status_default;
  services = services_status_default;
  resources = resources_status_default zero_load;
  time_sync = time_sync_status_default;
  update = update_status_default;
  journal = journal_status_default;
  crash = crash_status_default;
  summary = record {
    severity = Severity.unknown;
    domains = domain_severities_default;
    reasons = str "initial" ∷ [];
    notes = none;
  };
}
