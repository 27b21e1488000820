-- ===== src/Daemon/Cycle/Collect.antt =====
-- src/daemon.cpp: collection_cycle(), the collection of the due probes and the marking of stale
-- sections.
use edge_healthd.Prelude.{ℕ, Bool, Option, none, some, List, [], ◌∷◌, ◌++◌, Str, str}
use edge_healthd.Types.Sections.{DeviceInfo}
use edge_healthd.Probe.Result.{ProbeError}
use edge_healthd.Daemon.Schedule.{maybe_collect, mark_stale, force_due, stamp_fresh}
use edge_healthd.Daemon.State.{
  Sections, Inputs, Effect, log_probe_error, boot_freshness, services_freshness,
  resources_freshness, time_sync_freshness, update_freshness, journal_freshness, crash_freshness,
}

abbrev pub logged : {F : Type 0} → Str → Option ProbeError → List (Effect F)
logged name none = []
logged name (some e) = log_probe_error name e ∷ []

-- DeviceInfo has no freshness to stamp.
abbrev pub unstamped : ℕ → DeviceInfo → DeviceInfo
unstamped wall v = v

-- The sections after the cycle and the errors logged, in the order of collection.
unfoldable pub collect_sections :
    {F : Type 0} → Bool → Bool → Inputs F → Sections F → Sections F × List (Effect F)
collect_sections rauc_pending ack_pending i s =
    let (device, device_error) = maybe_collect unstamped i.now i.device s.device in
    let (boot, boot_error) = maybe_collect stamp_fresh i.now i.boot s.boot in
    let (services, services_error) = maybe_collect stamp_fresh i.now i.services s.services in
    let (resources, resources_error) = maybe_collect stamp_fresh i.now i.resources s.resources in
    let (time_sync, time_sync_error) = maybe_collect stamp_fresh i.now i.time_sync s.time_sync in
    let (update, update_error) =
      maybe_collect stamp_fresh i.now i.update (force_due rauc_pending i.now s.update) in
    let (journal, journal_error) = maybe_collect stamp_fresh i.now i.journal s.journal in
    let (crash, crash_error) =
      maybe_collect stamp_fresh i.now i.crash (force_due ack_pending i.now s.crash) in
    (
      record {
        device = device;
        boot = mark_stale i.now boot;
        services = mark_stale i.now services;
        resources = mark_stale i.now resources;
        time_sync = mark_stale i.now time_sync;
        update = mark_stale i.now update;
        journal = mark_stale i.now journal;
        crash = mark_stale i.now crash;
      },
      logged (str "device") device_error
          ++ (logged (str "boot") boot_error
              ++ (logged (str "services") services_error
                  ++ (logged (str "resources") resources_error
                      ++ (logged (str "time_sync") time_sync_error
                          ++ (logged (str "update") update_error
                              ++ (logged (str "journal") journal_error
                                  ++ logged (str "crash") crash_error)))))),
    )
