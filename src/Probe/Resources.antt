-- ===== src/Probe/Resources.antt =====
-- src/probes.cpp: the memory and the storage of ResourcesProbe, over what the kernel answers. A line of
-- /proc/meminfo is its key and number, where both can be extracted. The names of file systems, which
-- depend on constants of the kernel's headers, are part of the answer. uint64_t wraps at 2 ^ 64.
pub mod Bounds
use edge_healthd.Prelude.{
  ℕ, ◌+◌, ◌-◌, ◌*◌, ◌/◌, ◌%◌, ◌^◌, Bool, true, false, not, ◌&&◌, Option, none, some, value_or,
  has_value, List, [], ◌∷◌, ◌++◌, Str, str, str_eq, ltb, leb, ◌==◌, if◌then◌else◌,
}
use edge_healthd.Prelude.Int.{ℤ}
use edge_healthd.Types.Sections.{MemoryUsage, StorageMount}
use edge_healthd.Probe.Result.{ProbeResult, value, failure, make_error}

-- A field is none where its `has_` flag is false, and then counts 0.
pub record MemInfoStats : Type 0 where
  pub mem_total : Option ℕ
  pub mem_available : Option ℕ
  pub mem_free : Option ℕ
  pub buffers : Option ℕ
  pub cached : Option ℕ
  pub sreclaimable : Option ℕ
  pub shmem : Option ℕ
  pub swap_total : Option ℕ
  pub swap_free : Option ℕ

abbrev no_stats : MemInfoStats
no_stats = record {
  mem_total = none;
  mem_available = none;
  mem_free = none;
  buffers = none;
  cached = none;
  sreclaimable = none;
  shmem = none;
  swap_total = none;
  swap_free = none;
}

-- One line of the file.
meminfo_line : Str → ℕ → MemInfoStats → MemInfoStats
meminfo_line key v s =
    if str_eq key (str "MemTotal:")
    then record s { mem_total = some v }
    else if str_eq key (str "MemAvailable:")
    then record s { mem_available = some v }
    else if str_eq key (str "MemFree:")
    then record s { mem_free = some v }
    else if str_eq key (str "Buffers:")
    then record s { buffers = some v }
    else if str_eq key (str "Cached:")
    then record s { cached = some v }
    else if str_eq key (str "SReclaimable:")
    then record s { sreclaimable = some v }
    else if str_eq key (str "Shmem:")
    then record s { shmem = some v }
    else if str_eq key (str "SwapTotal:")
    then record s { swap_total = some v }
    else if str_eq key (str "SwapFree:")
    then record s { swap_free = some v }
    else s

meminfo_lines : List (Option (Str × ℕ)) → MemInfoStats → MemInfoStats
unfolding meminfo_line
meminfo_lines [] s = s
meminfo_lines (none ∷ ls) s = meminfo_lines ls s
meminfo_lines (some (key, v) ∷ ls) s = meminfo_lines ls (meminfo_line key v s)

-- The estimate for kernels that do not say what is available.
available_of : MemInfoStats → Option ℕ
available_of s =
    if not (has_value s.mem_available)
      && (has_value s.mem_free
          && (has_value s.buffers
              && (has_value s.cached && (has_value s.sreclaimable && has_value s.shmem))))
    then (let sum =
          (value_or s.mem_free 0
            + value_or s.buffers 0
            + value_or s.cached 0
            + value_or s.sreclaimable 0)
          % 2 ^ 64 in
        some (sum - value_or s.shmem 0))
    else s.mem_available

-- Total, available, total swap and free swap, in kB.
pub Kilobytes : Type 0
Kilobytes = ℕ × ℕ × ℕ × ℕ

read_meminfo : Option (List (Option (Str × ℕ))) → Option Kilobytes
unfolding meminfo_lines available_of Kilobytes
read_meminfo none = none
read_meminfo (some ls) =
    let s = meminfo_lines ls no_stats in
    elim s.mem_total [
      | none ↦ none
      | some total ↦ elim (available_of s) [
        | none ↦ none
        | some available ↦ some (total, available, value_or s.swap_total 0, value_or s.swap_free 0)
      ]
    ]

-- The answer of sysinfo(2).
pub record SysInfo : Type 0 where
  pub totalram : ℕ
  pub freeram : ℕ
  pub bufferram : ℕ
  pub totalswap : ℕ
  pub freeswap : ℕ
  pub mem_unit : ℕ

sysinfo_kilobytes : SysInfo → Kilobytes
unfolding Kilobytes
sysinfo_kilobytes si =
    let unit = if si.mem_unit == 0 then 1 else si.mem_unit in
    (
      si.totalram * unit % 2 ^ 64 / 1024,
      (si.freeram + si.bufferram) % 2 ^ 64 * unit % 2 ^ 64 / 1024,
      si.totalswap * unit % 2 ^ 64 / 1024,
      si.freeswap * unit % 2 ^ 64 / 1024,
    )

usage_of : Kilobytes → MemoryUsage
unfolding Kilobytes
usage_of (total, available, swap_total, swap_free) = record {
  mem_total_mb = total / 1024;
  mem_used_mb = if leb available total then (total - available) / 1024 else 0;
  swap_used_mb = if leb swap_free swap_total then (swap_total - swap_free) / 1024 else 0;
}

-- With the lines of /proc/meminfo and the answer of sysinfo, each if it can be had, and the error
-- code for when neither can.
unfoldable pub collect_memory :
    Option (List (Option (Str × ℕ))) → Option SysInfo → ℤ → ProbeResult MemoryUsage
unfolding read_meminfo sysinfo_kilobytes usage_of meminfo_lines available_of meminfo_line Kilobytes
collect_memory meminfo sysinfo code = elim (read_meminfo meminfo) [
  | some kb ↦ value (usage_of kb)
  | none ↦ elim sysinfo [
    | some si ↦ value (usage_of (sysinfo_kilobytes si))
    | none ↦ failure (
        make_error (str "resources") (str "Failed to read memory via /proc/meminfo and sysinfo()")
          code)
  ]
]

-- The answer of statvfs(2).
pub record StatVfs : Type 0 where
  pub f_blocks : ℕ
  pub f_bfree : ℕ
  pub f_bavail : ℕ
  pub f_frsize : ℕ

-- A monitored path, the answer of statvfs, and the name of its file system, if statfs succeeds.
pub record MountReading : Type 0 where
  pub path : Str
  pub stat : Option StatVfs
  pub fs : Option Str

pub storage_mount : MountReading → StorageMount
storage_mount r = elim r.stat [
  | none ↦ record {
    mount = r.path;
    fs = value_or r.fs [];
    available = false;
    used_pct = none;
    avail_mb = none;
  }
  | some st ↦
      let total = st.f_blocks * st.f_frsize % 2 ^ 64 in
      let free = st.f_bfree * st.f_frsize % 2 ^ 64 in
      let avail = st.f_bavail * st.f_frsize % 2 ^ 64 in
      let used = (total + 2 ^ 64 - free) % 2 ^ 64 in
      if ltb 0 total
      then record {
        mount = r.path;
        fs = value_or r.fs [];
        available = true;
        used_pct = some (used * 100 % 2 ^ 64 / total % 2 ^ 8);
        avail_mb = some (avail / 1048576);
      }
      else record {
        mount = r.path;
        fs = value_or r.fs [];
        available = false;
        used_pct = none;
        avail_mb = none;
      }
]

pub collect_storage : List MountReading → List StorageMount
unfolding storage_mount
collect_storage [] = []
collect_storage (r ∷ rs) = storage_mount r ∷ collect_storage rs
