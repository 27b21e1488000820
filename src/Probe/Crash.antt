-- ===== src/Probe/Crash.antt =====
-- src/probes.cpp: CrashProbe, with the classification and the fingerprint of pstore artifacts. The
-- directory is a list of entries with what the file system answers for each; the start of the boot
-- and the fingerprint that crash_state.json gives, if any, are arguments. Times are nanoseconds.
pub mod Reached
pub mod Alike
pub mod Judged
use Prim.Native.Nat.{bit_xor}
use edge_healthd.Prelude.{
  ℕ, zero, suc, ◌+◌, ◌-◌, ◌*◌, ◌/◌, ◌%◌, ◌^◌, Bool, true, false, not, ◌&&◌, ◌||◌, Option, none,
  some, value_or, List, [], ◌∷◌, ◌++◌, length, any, Str, str, to_string, starts_with, str_eq,
  opt_str_eq, ltb, leb, if◌then◌else◌,
}
use edge_healthd.Types.Sections.{CrashArtifact, CrashStatus, crash_status_default}

-- What is_regular_file() answers; on a failure the error code stays set.
pub data FileKind : Type 0 where
  regular not_regular check_failed : FileKind

-- The time of a file, and what the two clocks read at its conversion, all counted from an origin
-- before them; the system's clock counts from 1970.
pub record FileTime : Type 0 where
  pub written : ℕ
  pub file_now : ℕ
  pub system_now : ℕ

-- `tp - file_clock::now() + system_clock::now()`; files are written after 1970.
unfoldable pub file_time_to_system_clock : FileTime → ℕ
file_time_to_system_clock t = t.system_now + t.written - t.file_now

abbrev pub converted : Option FileTime → Option ℕ
converted none = none
converted (some t) = some (file_time_to_system_clock t)

pub record DirEntry : Type 0 where
  pub name : Str
  pub kind : FileKind
  -- nothing where the file system gives an error
  pub size : Option ℕ
  pub mtime : Option FileTime

abbrev pub is_panic_artifact_name : Str → Bool
is_panic_artifact_name name = starts_with (str "dmesg-") name || starts_with (str "dump-") name

abbrev pub artifact_of : DirEntry → CrashArtifact
artifact_of e = record {
  name = e.name;
  size_bytes = value_or e.size 0;
  mtime = converted e.mtime;
  kind = if is_panic_artifact_name e.name then str "panic" else str "informational";
}

-- One entry, before what the rest of the directory gives; after a failed check the next step leaves
-- the loop.
abbrev pub scan_entry : FileKind → CrashArtifact → List CrashArtifact → List CrashArtifact
scan_entry regular a rest = a ∷ rest
scan_entry not_regular a rest = rest
scan_entry check_failed a rest = []

-- The loop over the directory.
unfoldable pub scan : List DirEntry → List CrashArtifact
scan [] = []
scan (e ∷ es) = scan_entry e.kind (artifact_of e) (scan es)

-- `a < b` on `std::string`.
str_lt : Str → Str → Bool
str_lt s [] = false
str_lt [] (y ∷ ys) = true
str_lt (x ∷ xs) (y ∷ ys) =
    let rest = str_lt xs ys in if ltb x y then true else not (ltb y x) && rest

insert_by_name : CrashArtifact → List CrashArtifact → List CrashArtifact
insert_by_name a [] = a ∷ []
insert_by_name a (b ∷ bs) =
    let rest = insert_by_name a bs in if str_lt b.name a.name then b ∷ rest else a ∷ b ∷ bs

-- std::sort by name; the names of a directory differ, so there is one result.
unfoldable pub sort_by_name : List CrashArtifact → List CrashArtifact
unfolding insert_by_name str_lt
sort_by_name [] = []
sort_by_name (a ∷ xs) = insert_by_name a (sort_by_name xs)

abbrev pub is_panic : CrashArtifact → Bool
is_panic a = str_eq a.kind (str "panic")

unfoldable pub panics : List CrashArtifact → List CrashArtifact
panics [] = []
panics (a ∷ xs) = let rest = panics xs in if is_panic a then a ∷ rest else rest

abbrev seconds_text : Option ℕ → Str
seconds_text none = []
seconds_text (some t) = to_string (t / 1000000000)

fingerprint_line : CrashArtifact → Str
fingerprint_line a = a.name ++ str ":" ++ to_string a.size_bytes ++ str ":" ++ seconds_text a.mtime

-- FNV-1a.
hash_bytes : ℕ → Str → ℕ
hash_bytes hash [] = hash
hash_bytes hash (c ∷ cs) = hash_bytes (bit_xor hash c * 1099511628211 % 2 ^ 64) cs

hash_lines : ℕ → List CrashArtifact → ℕ
unfolding hash_bytes fingerprint_line
hash_lines hash [] = hash
hash_lines hash (a ∷ xs) = hash_lines (hash_bytes hash (fingerprint_line a)) xs

abbrev hex_digit : ℕ → ℕ
hex_digit d = if ltb d 10 then 48 + d else 87 + d

-- The last `n` hexadecimal digits, before `acc`.
hex_digits : ℕ → ℕ → Str → Str
hex_digits zero value acc = acc
hex_digits (suc n) value acc = hex_digits n (value / 16) (hex_digit (value % 16) ∷ acc)

unfoldable pub compute_fingerprint : List CrashArtifact → Str
unfolding hash_lines hex_digits hash_bytes fingerprint_line
compute_fingerprint xs = hex_digits 16 (hash_lines 14695981039346656037 xs) []

-- std::max_element by the time, a missing one as 0: the first of the latest.
latest_from : CrashArtifact → List CrashArtifact → CrashArtifact
latest_from a [] = a
latest_from a (b ∷ bs) =
    let later = latest_from b bs in
    let kept = latest_from a bs in
    if ltb (value_or a.mtime 0) (value_or b.mtime 0) then later else kept

abbrev pub is_current : ℕ → Option ℕ → Bool
is_current boot_start none = true
is_current boot_start (some t) = leb boot_start t

-- collect() from the sorted artifacts on.
judge : ℕ → Option Str → List CrashArtifact → List CrashArtifact → CrashStatus → CrashStatus
judge boot_start acknowledged_fp xs [] status = status
judge boot_start acknowledged_fp xs (p ∷ ps) status = record status {
  source = some (str "pstore");
  last_panic_at = (latest_from p ps).mtime;
  panic_current_boot = any (λ a. is_current boot_start a.mtime) (p ∷ ps);
  fingerprint = some (compute_fingerprint (p ∷ ps));
  acknowledged = opt_str_eq acknowledged_fp (some (compute_fingerprint (p ∷ ps)));
}

abbrev has_any : List CrashArtifact → Bool
has_any [] = false
has_any (a ∷ xs) = true

-- `entries` is none where the directory does not exist or cannot be read.
unfoldable pub collect : ℕ → Option (List DirEntry) → Option Str → CrashStatus
unfolding judge latest_from
collect boot_start entries acknowledged_fp =
    let artifacts = sort_by_name (scan (value_or entries [])) in
    judge boot_start acknowledged_fp artifacts (panics artifacts) (record crash_status_default {
      present = has_any artifacts;
      artifact_count = length artifacts % 2 ^ 32;
      artifacts = artifacts;
      panic_count = length (panics artifacts) % 2 ^ 32;
    })
