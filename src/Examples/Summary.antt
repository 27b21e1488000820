-- ===== src/Examples/Summary.antt =====
-- Configuration, severities, reasons and the D-Bus manager at concrete inputs.
use edge_healthd.Prelude.{
  ℕ, ◌↔◌, ◌≡◌, refl, true, false, ◌&&◌, any, none, some, List, [], ◌∷◌, ◌++◌, Memᴰ, str, str_eq,
  is_empty,
}
use edge_healthd.Prelude.Double.{milli}
use edge_healthd.Types.Enums.{Severity, severity_to_string}
use edge_healthd.Types.Sections.{
  StorageMount, ThermalSensor, MemoryUsage, device_info_default, boot_status_default,
  time_sync_status_default, update_status_default, journal_status_default,
}
use edge_healthd.Types.Snapshot.{SnapshotSummary, domain_list, degraded_domains, is_quiet}
use edge_healthd.Config.Validate.{validate}
use edge_healthd.Config.Validate.Bounds.{IsValid, validate_iff}
use edge_healthd.Aggregator.WorstOf.{rank}
use edge_healthd.Aggregator.WorstOf.Laws.{RankAtMost}
use edge_healthd.Aggregator.Evaluate.{
  evaluate_boot, evaluate_services, evaluate_resources, evaluate_time_sync, evaluate_update,
  evaluate_journal, evaluate_crash,
}
use edge_healthd.Aggregator.Aggregate.{aggregate}
use edge_healthd.Aggregator.Aggregate.RollUp.{
  staleness, aggregate_worst, degraded_domains-aggregate, aggregate_stale,
}
use edge_healthd.Aggregator.Reasons.{generate_reasons, is_failed, at_least}
use edge_healthd.Aggregator.Reasons.Codes.{has_reason, generate_reasons-codes}
use edge_healthd.HealthManager.{health_manager_initial, overall_severity}
use edge_healthd.HealthManager.Laws.{
  announcements, update_severities, update_severities-announcements,
}
use edge_healthd.Examples.Data.{config, services, panic, resources}

validate_iff_example : (validate milli config ≡ none) ↔ IsValid milli config
validate_iff_example = validate_iff milli config

abbrev memory : MemoryUsage
memory = record { mem_total_mb = 1000; mem_used_mb = 949; swap_used_mb = 0 }

abbrev mounts : List StorageMount
mounts =
    record {
      mount = str "/";
      fs = str "ext4";
      available = true;
      used_pct = some 91;
      avail_mb = none;
    }
    ∷ record {
      mount = str "/data";
      fs = str "ext4";
      available = false;
      used_pct = none;
      avail_mb = none;
    }
    ∷ []

abbrev sensors : List (ThermalSensor ℕ)
sensors = record { sensor = str "soc"; available = true; temp_c = some 90000 } ∷ []

generate_reasons-codes_example :
    let rs =
      generate_reasons milli config.thresholds boot_status_default services resources
        time_sync_status_default update_status_default journal_status_default panic in
    ((has_reason (str "kernel_panic_detected") rs ≡ true) ↔ (evaluate_crash panic ≡ Severity.crit))
    × (has_reason (str "svc_failed:" ++ str "sshd.socket") rs
        ≡ any (λ u. is_failed u.state && str_eq (str "sshd.socket") u.name) services.units)
    × (has_reason (str "disk_used_high:" ++ str "sshd.socket") rs
        ≡ any
            (λ m.
              at_least m.used_pct config.thresholds.disk_used_warn
              && str_eq (str "sshd.socket") m.mount)
            resources.storage)
generate_reasons-codes_example =
    generate_reasons-codes milli config.thresholds boot_status_default services resources
      time_sync_status_default update_status_default journal_status_default panic
      (str "sshd.socket")

abbrev summary : SnapshotSummary
summary =
    (aggregate milli config 4 1000 device_info_default boot_status_default services resources
      time_sync_status_default update_status_default journal_status_default panic).summary

aggregate_worst_example :
    RankAtMost (rank summary.severity) (domain_list summary.domains)
    × Memᴰ summary.severity (domain_list summary.domains)
aggregate_worst_example =
    aggregate_worst milli config 4 1000 device_info_default boot_status_default services resources
      time_sync_status_default update_status_default journal_status_default panic

degraded_domains-aggregate_example :
    is_empty (degraded_domains summary.domains) ≡ is_quiet summary.severity
degraded_domains-aggregate_example =
    degraded_domains-aggregate milli config 4 1000 device_info_default boot_status_default services
      resources time_sync_status_default update_status_default journal_status_default panic

aggregate_stale_example :
    let d = summary.domains in
    (d.boot
      ≡ staleness boot_status_default.freshness
          (evaluate_boot config.thresholds boot_status_default))
    × (d.services ≡ staleness services.freshness (evaluate_services services))
    × (d.resources
        ≡ staleness resources.freshness (evaluate_resources milli 4 config.thresholds resources))
    × (d.time_sync
        ≡ staleness time_sync_status_default.freshness
            (evaluate_time_sync time_sync_status_default))
    × (d.update ≡ staleness update_status_default.freshness (evaluate_update update_status_default))
    × (d.journal
        ≡ staleness journal_status_default.freshness (evaluate_journal journal_status_default))
    × (d.crash ≡ staleness panic.freshness (evaluate_crash panic))
aggregate_stale_example =
    aggregate_stale milli config 4 1000 device_info_default boot_status_default services resources
      time_sync_status_default update_status_default journal_status_default panic

abbrev severities : List Severity
severities = Severity.ok ∷ Severity.crit ∷ Severity.warn ∷ []

update_severities-announcements_example :
    (overall_severity (update_severities severities health_manager_initial).0
      ≡ severity_to_string Severity.warn)
    × ((update_severities severities health_manager_initial).1
        ≡ announcements Severity.unknown severities)
unfolding health_manager_initial severity_to_string
update_severities-announcements_example =
    update_severities-announcements severities health_manager_initial refl
