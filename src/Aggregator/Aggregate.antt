-- ===== src/Aggregator/Aggregate.antt =====
-- src/aggregator.cpp: aggregate(), aggregate_partial() and compute_overall(). The time that
-- system_clock::now() answers is an argument.
pub mod RollUp
use edge_healthd.Prelude.{ℕ, Bool, Option, none, some, value_or, List, [], ◌∷◌, if◌then◌else◌}
use edge_healthd.Prelude.Int.{pos}
use edge_healthd.Prelude.Double.{Double}
use edge_healthd.Types.Enums.{Severity}
use edge_healthd.Types.Sections.{
  SectionFreshness, DeviceInfo, BootStatus, ServicesStatus, ResourcesStatus, TimeSyncStatus,
  UpdateStatus, JournalStatus, CrashStatus, device_info_default, boot_status_default,
  services_status_default, resources_status_default, time_sync_status_default,
  update_status_default, journal_status_default, crash_status_default,
}
use edge_healthd.Types.Snapshot.{SnapshotState, DomainSeverities}
use edge_healthd.Config.{Config}
use edge_healthd.Aggregator.WorstOf.{worst_of}
use edge_healthd.Aggregator.Evaluate.{
  evaluate_boot, evaluate_services, evaluate_resources, evaluate_time_sync, evaluate_update,
  evaluate_journal, evaluate_crash,
}
use edge_healthd.Aggregator.Reasons.{generate_reasons}

-- `if (f.stale) sev = worst_of({sev, Severity::Stale})`.
raise_stale : SectionFreshness → Severity → Severity
raise_stale f sev = if f.stale then worst_of (sev ∷ Severity.stale ∷ []) else sev

unfoldable pub compute_overall :
    Severity → Severity → Severity → Severity → Severity → Severity → Severity → Severity
compute_overall boot services resources time_sync update journal crash =
    worst_of (boot ∷ services ∷ resources ∷ time_sync ∷ update ∷ journal ∷ crash ∷ [])

module _ {F : Type 0} (fp : Double F) (config : Config F) (cores now : ℕ) where
  -- The severity of each section, raised where the section is stale.
  unfoldable pub domain_severities :
      BootStatus
      → ServicesStatus
      → ResourcesStatus F
      → TimeSyncStatus
      → UpdateStatus
      → JournalStatus
      → CrashStatus
      → DomainSeverities
  unfolding raise_stale
  domain_severities boot services resources time_sync update journal crash = record {
    boot = raise_stale boot.freshness (evaluate_boot config.thresholds boot);
    services = raise_stale services.freshness (evaluate_services services);
    resources =
        raise_stale resources.freshness (evaluate_resources fp cores config.thresholds resources);
    time_sync = raise_stale time_sync.freshness (evaluate_time_sync time_sync);
    update = raise_stale update.freshness (evaluate_update update);
    journal = raise_stale journal.freshness (evaluate_journal journal);
    crash = raise_stale crash.freshness (evaluate_crash crash);
  }

  unfoldable pub aggregate :
      DeviceInfo
      → BootStatus
      → ServicesStatus
      → ResourcesStatus F
      → TimeSyncStatus
      → UpdateStatus
      → JournalStatus
      → CrashStatus
      → SnapshotState F
  aggregate device boot services resources time_sync update journal crash =
      let d = domain_severities boot services resources time_sync update journal crash in
      record {
        generated_at = now;
        cycle = 0;
        device = device;
        boot = boot;
        services = services;
        resources = resources;
        time_sync = time_sync;
        update = update;
        journal = journal;
        crash = crash;
        summary = record {
          severity =
              compute_overall d.boot d.services d.resources d.time_sync d.update d.journal d.crash;
          domains = d;
          reasons =
              generate_reasons fp config.thresholds boot services resources time_sync update journal
                crash;
          notes = none;
        };
      }

  unfoldable pub aggregate_partial :
      Option DeviceInfo
      → Option BootStatus
      → Option ServicesStatus
      → Option (ResourcesStatus F)
      → Option TimeSyncStatus
      → Option UpdateStatus
      → Option JournalStatus
      → Option CrashStatus
      → SnapshotState F
  aggregate_partial device boot services resources time_sync update journal crash =
      aggregate (value_or device device_info_default) (value_or boot boot_status_default)
        (value_or services services_status_default)
        (value_or resources (resources_status_default (fp.of_int (pos 0))))
        (value_or time_sync time_sync_status_default) (value_or update update_status_default)
        (value_or journal journal_status_default) (value_or crash crash_status_default)
