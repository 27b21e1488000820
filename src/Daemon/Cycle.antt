-- ===== src/Daemon/Cycle.antt =====
-- src/daemon.cpp: collection_cycle(). The refresh of the netlink cache and of the journal buffer,
-- which the probes read, goes with the inputs.
pub mod Collect
pub mod Alarm
pub mod Written
use edge_healthd.Prelude.{
  ℕ, ◌+◌, ◌%◌, ◌^◌, Bool, false, Option, none, some, List, [], ◌∷◌, ◌++◌, map, Str, str,
}
use edge_healthd.Prelude.Double.{Double}
use edge_healthd.Types.Enums.{Severity, severity_to_string}
use edge_healthd.Types.Snapshot.{SnapshotState, degraded_domains}
use edge_healthd.Config.{Config}
use edge_healthd.Aggregator.Aggregate.{aggregate}
use edge_healthd.HealthManager.{HealthManager, Signal, update_severity, update_recent_logs}
use edge_healthd.Daemon.State.{
  Daemon, Sections, Inputs, Effect, WriteOutcome, write_snapshot, log_writer_error, emit,
  log_snapshot_collected, notify_status, written, write_failed, write_threw,
}
use Collect.{collect_sections}
use Alarm.{crash_alarm, panic_fingerprint}

module _ {F : Type 0} where
  abbrev write_effects : SnapshotState F → WriteOutcome → List (Effect F)
  write_effects state written = write_snapshot state ∷ []
  write_effects state (write_failed message) =
      write_snapshot state ∷ log_writer_error (str "Failed to write snapshot: " ++ message) ∷ []
  write_effects state (write_threw what) =
      write_snapshot state ∷ log_writer_error (str "Snapshot serialization failed: " ++ what) ∷ []

  -- The calls of the health manager, if there is one: the manager, the latch and the signals.
  unfoldable pub publish :
      SnapshotState F
      → Severity
      → Option Str
      → Option HealthManager
      → Option HealthManager × Option Str × List Signal
  publish state prev_sev last_alarmed none = (none, last_alarmed, [])
  publish state prev_sev last_alarmed (some m) =
      let (m', signals) = update_severity state.summary.severity prev_sev m in
      let (latch, alarms) = crash_alarm state.crash last_alarmed in
      (some (update_recent_logs state.journal.recent_errors m'), latch, signals ++ alarms)

  -- The snapshot that a cycle builds from the sections.
  unfoldable pub cycle_state : Double F → Config F → Inputs F → ℕ → Sections F → SnapshotState F
  cycle_state fp config i cycle s =
      record (aggregate fp config i.cores i.generated_at s.device.cache s.boot.cache
        s.services.cache s.resources.cache s.time_sync.cache s.update.cache s.journal.cache
        s.crash.cache) { cycle = cycle }

  unfoldable pub collection_cycle : Double F → Inputs F → Daemon F → Daemon F × List (Effect F)
  unfolding publish
  collection_cycle fp i d =
      let (sections, errors) =
        collect_sections d.rauc_update_pending d.crash_ack_pending i d.sections in
      let cycle = (d.cycle_count + 1) % 2 ^ 64 in
      let state = cycle_state fp d.config i cycle sections in
      let new_sev = state.summary.severity in
      let (manager, latch, signals) =
        publish state d.last_severity d.last_alarmed_crash_fp d.health_manager in
      (
        record d {
          sections = sections;
          health_manager = manager;
          rauc_update_pending = false;
          crash_ack_pending = false;
          cycle_count = cycle;
          current_state = state;
          last_severity = new_sev;
          last_alarmed_crash_fp = latch;
          current_panic_fingerprint = panic_fingerprint state.crash;
        },
        errors
            ++ (write_effects state i.write_outcome
                ++ (map emit signals
                    ++ (log_snapshot_collected (severity_to_string new_sev)
                          (degraded_domains state.summary.domains)
                        ∷ notify_status (severity_to_string new_sev)
                        ∷ []))),
      )
