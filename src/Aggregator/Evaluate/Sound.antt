-- ===== src/Aggregator/Evaluate/Sound.antt =====
-- The evaluations of src/aggregator.cpp against descriptions that do not follow the code's loops
-- and divisions.
use native.Mathlib.Nat.{le-div_iff_mul-le, mod-eq_of_lt}
use edge_healthd.Prelude.{
  ℕ, ◌*◌, ◌/◌, ◌^◌, ◌≤◌, ◌<◌, ◌≡◌, refl, sym, ◌∙◌, inl, inr, Option, none, some, List, [], ◌∷◌, map,
  leb, ◌==◌, if◌then◌else◌, Bool-cases, arith,
}
use edge_healthd.Prelude.Double.{Double}
use edge_healthd.Types.Enums.{Severity}
use edge_healthd.Types.Sections.{MemoryUsage, StorageMount, ThermalSensor}
use edge_healthd.Config.{Thresholds}
use edge_healthd.Aggregator.WorstOf.{worst_of, rank}
use edge_healthd.Aggregator.WorstOf.Laws.{
  worst_of-merge, worst_of-one, worst_of-ok, rank_pos-worst_of,
}
use edge_healthd.Aggregator.Evaluate.{
  evaluate_memory, disk_step, disk_from, evaluate_disk, thermal_step, thermal_from,
  evaluate_thermal,
}

pub leb-div : (c u k : ℕ) → 0 < k → leb c (u / k) ≡ leb (c * k) u
leb-div c u k h = elim (Bool-cases (leb (c * k) u)) [
  | inl e ↦ ground (arith, le-div_iff_mul-le {k = k} {x = c} {y = u} h)
  | inr e ↦ ground (arith, le-div_iff_mul-le {k = k} {x = c} {y = u} h)
]

module _ {F : Type 0} where
  -- Memory is judged by the exact ratio used / total, with no rounding: if the product with 100
  -- fits 64 bits, the severity is crit from `crit` percent of the total on, warn from `warn` percent
  -- on, else ok, and unknown where the total is 0.
  pub evaluate_memory_exact :
      (t : Thresholds F) (m : MemoryUsage)
      → m.mem_used_mb * 100 < 2 ^ 64
      → evaluate_memory t m ≡ (
          if m.mem_total_mb == 0
          then Severity.unknown
          else if leb (t.mem_used_crit * m.mem_total_mb) (m.mem_used_mb * 100)
          then Severity.crit
          else if leb (t.mem_used_warn * m.mem_total_mb) (m.mem_used_mb * 100)
          then Severity.warn
          else Severity.ok)
  unfolding evaluate_memory
  evaluate_memory_exact t m h = elim (Bool-cases (m.mem_total_mb == 0)) [
    | inl e ↦ rw (e, evaluate_memory)
    | inr e ↦ rw (mod-eq_of_lt h) (
        rw (
          leb-div t.mem_used_crit (m.mem_used_mb * 100) m.mem_total_mb (ground arith),
          leb-div t.mem_used_warn (m.mem_used_mb * 100) m.mem_total_mb (ground arith),
        ))
  ]

  -- The severity of one reading on its own.
  pub reading_severity : Thresholds F → Option ℕ → Severity
  reading_severity t none = Severity.unavailable
  reading_severity t (some pct) =
      if leb t.disk_used_crit pct
      then Severity.crit
      else if leb t.disk_used_warn pct
      then Severity.warn
      else Severity.ok

  abbrev pub mount_severity : Thresholds F → StorageMount → Severity
  mount_severity t m = reading_severity t (if m.available then m.used_pct else none)

  disk_step_lem :
      (t : Thresholds F) (w : Severity) (r : Option ℕ)
      → 1 ≤ rank w
      → disk_step t w r ≡ worst_of (w ∷ reading_severity t r ∷ [])
  unfolding disk_step reading_severity
  disk_step_lem t w none h = refl
  disk_step_lem t w (some pct) h = ground (arith, worst_of-ok w h)

  disk_from_lem :
      (t : Thresholds F) (w : Severity) (ms : List StorageMount)
      → 1 ≤ rank w
      → disk_from t w ms ≡ worst_of (w ∷ map (mount_severity t) ms)
  unfolding disk_from
  disk_from_lem t w [] h = sym (worst_of-one w)
  disk_from_lem t w (m ∷ ms) h =
      rw (disk_step_lem t w (if m.available then m.used_pct else none) h) (
        disk_from_lem t (worst_of (w ∷ mount_severity t m ∷ [])) ms (rank_pos-worst_of w _ h)
        ∙ worst_of-merge w (mount_severity t m) (map (mount_severity t) ms))

  -- The severity of the disks is the worst, by rank, of the severities of the single mounts and ok:
  -- a mount that cannot be read counts as unavailable, a readable one by its own percentage.
  pub evaluate_disk-worst_of :
      (t : Thresholds F) (ms : List StorageMount)
      → evaluate_disk t ms ≡ worst_of (Severity.ok ∷ map (mount_severity t) ms)
  unfolding evaluate_disk rank
  evaluate_disk-worst_of t ms = disk_from_lem t Severity.ok ms (omega arith)

module _ {F : Type 0} (fp : Double F) where
  pub temp_severity : Thresholds F → Option F → Severity
  temp_severity t none = Severity.unavailable
  temp_severity t (some temp) =
      if fp.geb temp t.temp_crit_c
      then Severity.crit
      else if fp.geb temp t.temp_warn_c
      then Severity.warn
      else Severity.ok

  abbrev pub sensor_severity : Thresholds F → ThermalSensor F → Severity
  sensor_severity t s = temp_severity t (if s.available then s.temp_c else none)

  thermal_step_lem :
      (t : Thresholds F) (w : Severity) (r : Option F)
      → 1 ≤ rank w
      → thermal_step fp t w r ≡ worst_of (w ∷ temp_severity t r ∷ [])
  unfolding thermal_step temp_severity
  thermal_step_lem t w none h = refl
  thermal_step_lem t w (some temp) h = ground (arith, worst_of-ok w h)

  thermal_from_lem :
      (t : Thresholds F) (w : Severity) (ss : List (ThermalSensor F))
      → 1 ≤ rank w
      → thermal_from fp t w ss ≡ worst_of (w ∷ map (sensor_severity t) ss)
  unfolding thermal_from
  thermal_from_lem t w [] h = sym (worst_of-one w)
  thermal_from_lem t w (s ∷ ss) h =
      rw (thermal_step_lem t w (if s.available then s.temp_c else none) h) (
        thermal_from_lem t (worst_of (w ∷ sensor_severity t s ∷ [])) ss (rank_pos-worst_of w _ h)
        ∙ worst_of-merge w (sensor_severity t s) (map (sensor_severity t) ss))

  -- The severity of the sensors is the worst, by rank, of ok and the severities of the single
  -- sensors: an unreadable sensor counts as unavailable, a readable one by its own temperature.
  pub evaluate_thermal-worst_of :
      (t : Thresholds F) (ss : List (ThermalSensor F))
      → evaluate_thermal fp t ss ≡ worst_of (Severity.ok ∷ map (sensor_severity t) ss)
  unfolding evaluate_thermal rank
  evaluate_thermal-worst_of t ss = thermal_from_lem t Severity.ok ss (omega arith)
