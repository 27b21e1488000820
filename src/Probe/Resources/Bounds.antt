-- ===== src/Probe/Resources/Bounds.antt =====
-- Bounds on what ResourcesProbe reports of memory and storage.
use edge_healthd.Prelude.{
  ℕ, ◌+◌, ◌-◌, ◌*◌, ◌/◌, ◌%◌, ◌^◌, ◌≤◌, ◌<◌, ◌≡◌, refl, ap, true, Option, none, some, List, Str,
  ltb, arith,
}
use edge_healthd.Prelude.Int.{ℤ}
use edge_healthd.Types.Sections.{MemoryUsage}
use edge_healthd.Aggregator.Evaluate.Sound.{leb-div}
use edge_healthd.Probe.Result.{ProbeResult, value, failure}
use edge_healthd.Probe.Resources.{
  Kilobytes, read_meminfo, sysinfo_kilobytes, usage_of, SysInfo, collect_memory, StatVfs,
  storage_mount,
}

-- The memory used is not more than there is.
abbrev pub IsWithin : MemoryUsage → Type 0
IsWithin m = m.mem_used_mb ≤ m.mem_total_mb

sub-div : (a b : ℕ) → (a - b) / 1024 ≤ a / 1024
sub-div a b = omega arith

usage_of-IsWithin : (kb : Kilobytes) → IsWithin (usage_of kb)
unfolding usage_of Kilobytes
usage_of-IsWithin (total, available, swap_total, swap_free) =
    ground (arith, sub-div total available)

abbrev pub SucceedsWithin : ProbeResult MemoryUsage → Type 0
SucceedsWithin (value m) = IsWithin m
SucceedsWithin (failure e) = Unit

collect_memory-IsWithin_lem :
    (kb : Option Kilobytes) (m : Option (List (Option (Str × ℕ)))) (s : Option SysInfo) (code : ℤ)
    → read_meminfo m ≡ kb
    → SucceedsWithin (collect_memory m s code)
unfolding collect_memory
collect_memory-IsWithin_lem (some kb) m s code h = rw (h, SucceedsWithin) (usage_of-IsWithin kb)
collect_memory-IsWithin_lem none m (some si) code h =
    rw (h, SucceedsWithin) (usage_of-IsWithin (sysinfo_kilobytes si))
collect_memory-IsWithin_lem none m none code h = rw (h, SucceedsWithin) tt

-- Whatever /proc/meminfo and sysinfo answer, a reading of the memory never has more used than there
-- is in total.
pub collect_memory-IsWithin :
    (m : Option (List (Option (Str × ℕ)))) (s : Option SysInfo) (code : ℤ)
    → SucceedsWithin (collect_memory m s code)
collect_memory-IsWithin m s code = collect_memory-IsWithin_lem (read_meminfo m) m s code refl

percent_le : (u t : ℕ) → 0 < t → u ≤ 100 * t → u / t ≤ 100
percent_le u t h b = ground (arith, leb-div 101 u t h)

percent_lem :
    (t f : ℕ)
    → 0 < t
    → t * 100 < 2 ^ 64
    → f ≤ t
    → ((t % 2 ^ 64 + 2 ^ 64 - f % 2 ^ 64) % 2 ^ 64 * 100 % 2 ^ 64 / (t % 2 ^ 64) % 2 ^ 8
        ≡ (t - f) * 100 / t)
      × ((t - f) * 100 / t ≤ 100)
percent_lem t f p small le =
    let et : t % 2 ^ 64 ≡ t = omega arith in
    let ef : f % 2 ^ 64 ≡ f = omega arith in
    let eu : (t + 2 ^ 64 - f) % 2 ^ 64 ≡ t - f = omega arith in
    let eh : (t - f) * 100 % 2 ^ 64 ≡ (t - f) * 100 = omega arith in
    let bound : (t - f) * 100 / t ≤ 100 = percent_le ((t - f) * 100) t p (omega arith) in
    let e8 : (t - f) * 100 / t % 2 ^ 8 ≡ (t - f) * 100 / t = omega arith in
    (rw (et, ef, eu, eh) e8, bound)

-- A mount with capacity, of less than 2^64 / 100 bytes and with no more free blocks than blocks, is
-- reported as available with the exact percentage in use, rounded down, which is at most 100.
pub storage_mount-percent :
    (path : Str) (fs : Option Str) (st : StatVfs)
    → 0 < st.f_blocks * st.f_frsize
    → st.f_blocks * st.f_frsize * 100 < 2 ^ 64
    → st.f_bfree * st.f_frsize ≤ st.f_blocks * st.f_frsize
    → let pct =
        (st.f_blocks * st.f_frsize - st.f_bfree * st.f_frsize)
        * 100
        / (st.f_blocks * st.f_frsize) in
      let m = storage_mount (record { path = path; stat = some st; fs = fs }) in
      (m.available ≡ true) × (m.used_pct ≡ some pct) × (pct ≤ 100)
unfolding storage_mount
storage_mount-percent path fs st p small le =
    let t = st.f_blocks * st.f_frsize in
    let (exact, bound) = percent_lem t (st.f_bfree * st.f_frsize) p small le in
    let capacity : ltb 0 (t % 2 ^ 64) ≡ true = ground arith in
    (rw capacity refl, rw capacity (ap (λ x. some x) exact), bound)
