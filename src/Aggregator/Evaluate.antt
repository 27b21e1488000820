-- ===== src/Aggregator/Evaluate.antt =====
-- src/aggregator.cpp: the severity of each section against the configured thresholds.
-- `cores` is what std::thread::hardware_concurrency() answers.
pub mod Sound
use edge_healthd.Prelude.{
  ℕ, ◌*◌, ◌/◌, ◌%◌, ◌^◌, max, Bool, true, false, not, ◌||◌, Option, none, some, has_value, List, [],
  ◌∷◌, leb, ◌==◌, if◌then◌else◌,
}
use edge_healthd.Prelude.Int.{pos}
use edge_healthd.Prelude.Double.{Double}
use edge_healthd.Types.Enums.{Severity}
use edge_healthd.Types.Sections.{
  BootStatus, ServicesStatus, CpuLoad, MemoryUsage, StorageMount, ThermalSensor, ResourcesStatus,
  TimeSyncStatus, UpdateStatus, JournalStatus, CrashStatus,
}
use edge_healthd.Config.{Config, Thresholds}
use edge_healthd.Aggregator.WorstOf.{worst_of}

-- `(used * 100) / total` on uint64_t; the callers test that the total is not 0.
unfoldable pub mem_pct : MemoryUsage → ℕ
mem_pct m = (m.mem_used_mb * 100) % 2 ^ 64 / m.mem_total_mb

module _ {F : Type 0} where
  unfoldable pub evaluate_boot : Thresholds F → BootStatus → Severity
  evaluate_boot t boot =
      if leb t.boot_fail_crit boot.boot_fail_count
      then Severity.crit
      else if leb t.boot_fail_warn boot.boot_fail_count
      then Severity.warn
      else if not boot.boot_ok
      then Severity.warn
      else Severity.ok

  unfoldable pub evaluate_memory : Thresholds F → MemoryUsage → Severity
  unfolding mem_pct
  evaluate_memory t m =
      if m.mem_total_mb == 0
      then Severity.unknown
      else if leb t.mem_used_crit (mem_pct m)
      then Severity.crit
      else if leb t.mem_used_warn (mem_pct m)
      then Severity.warn
      else Severity.ok

  -- One round of the loop of `evaluate_disk`; `pct` is the reading of an available mount.
  disk_step : Thresholds F → Severity → Option ℕ → Severity
  disk_step t worst none = worst_of (worst ∷ Severity.unavailable ∷ [])
  disk_step t worst (some pct) =
      if leb t.disk_used_crit pct
      then worst_of (worst ∷ Severity.crit ∷ [])
      else if leb t.disk_used_warn pct
      then worst_of (worst ∷ Severity.warn ∷ [])
      else worst

  disk_from : Thresholds F → Severity → List StorageMount → Severity
  unfolding disk_step
  disk_from t worst [] = worst
  disk_from t worst (m ∷ ms) =
      disk_from t (disk_step t worst (if m.available then m.used_pct else none)) ms

  unfoldable pub evaluate_disk : Thresholds F → List StorageMount → Severity
  unfolding disk_from
  evaluate_disk t storage = disk_from t Severity.ok storage

unfoldable pub evaluate_services : ServicesStatus → Severity
evaluate_services services = services.overall

unfoldable pub evaluate_time_sync : TimeSyncStatus → Severity
evaluate_time_sync time_sync = time_sync.overall

unfoldable pub evaluate_update : UpdateStatus → Severity
evaluate_update update = update.overall

unfoldable pub evaluate_journal : JournalStatus → Severity
evaluate_journal journal = journal.overall

unfoldable pub evaluate_crash : CrashStatus → Severity
evaluate_crash crash =
    if crash.panic_count == 0
    then Severity.ok
    else if crash.acknowledged
    then Severity.ok
    else if crash.panic_current_boot
    then Severity.crit
    else Severity.warn

module _ {F : Type 0} (fp : Double F) where
  unfoldable pub evaluate_cpu : ℕ → Thresholds F → CpuLoad F → Severity
  evaluate_cpu cores t cpu =
      let load_pct =
        fp.mul (fp.div cpu.load1 (fp.of_int (pos (max 1 cores)))) (fp.of_int (pos 100)) in
      if fp.geb load_pct (fp.of_int (pos t.cpu_load_crit))
      then Severity.crit
      else if fp.geb load_pct (fp.of_int (pos t.cpu_load_warn))
      then Severity.warn
      else Severity.ok

  -- One round of the loop of `evaluate_thermal`, as for the disks.
  thermal_step : Thresholds F → Severity → Option F → Severity
  thermal_step t worst none = worst_of (worst ∷ Severity.unavailable ∷ [])
  thermal_step t worst (some temp) =
      if fp.geb temp t.temp_crit_c
      then worst_of (worst ∷ Severity.crit ∷ [])
      else if fp.geb temp t.temp_warn_c
      then worst_of (worst ∷ Severity.warn ∷ [])
      else worst

  thermal_from : Thresholds F → Severity → List (ThermalSensor F) → Severity
  unfolding thermal_step
  thermal_from t worst [] = worst
  thermal_from t worst (s ∷ ss) =
      thermal_from t (thermal_step t worst (if s.available then s.temp_c else none)) ss

  unfoldable pub evaluate_thermal : Thresholds F → List (ThermalSensor F) → Severity
  unfolding thermal_from
  evaluate_thermal t thermal = thermal_from t Severity.ok thermal

  unfoldable pub evaluate_resources : ℕ → Thresholds F → ResourcesStatus F → Severity
  evaluate_resources cores t r = worst_of (
      evaluate_cpu cores t r.cpu
      ∷ evaluate_memory t r.memory
      ∷ evaluate_disk t r.storage
      ∷ evaluate_thermal t r.thermal
      ∷ [])
