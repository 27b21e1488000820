-- ===== src/Probe/Device.antt =====
-- src/probes.cpp: DeviceProbe, over the lines of the files that it reads and what uname() and
-- gethostname() answer, none where a call fails or a file cannot be opened.
pub mod Named
use edge_healthd.Prelude.{
  ℕ, Bool, true, false, not, ◌&&◌, ◌||◌, ◌==◌, Option, none, some, List, [], ◌∷◌, ◌++◌, Str, str,
  str_eq, is_empty, reverse, leb, if◌then◌else◌,
}
use edge_healthd.Types.Sections.{OsInfo, DeviceInfo, os_info_default, device_info_default}
use edge_healthd.Config.{Config}
use edge_healthd.Probe.Result.{ProbeResult, value}

pub record Uname : Type 0 where
  pub machine : Str
  pub release : Str

-- The files' lines: all of os-release, the first of the others.
pub record DeviceFiles : Type 0 where
  pub os_release : Option (List Str)
  pub serial_number : Option Str
  pub machine_id : Option Str
  pub hostname : Option Str
  pub gethostname : Option Str
  pub uname : Option Uname

-- A line at its first '='.
abbrev pub split_key : Str → Option (Str × Str)
split_key [] = none
split_key (c ∷ cs) =
    let rest = split_key cs in
    if c == 61 then some ([], cs) else elim rest [ none ↦ none | some (k, v) ↦ some (c ∷ k, v) ]

-- The value without its last quote, where it ends in one.
abbrev pub before_quote : Str → Option Str
before_quote [] = none
before_quote (c ∷ []) = if c == 34 then some [] else none
before_quote (c ∷ d ∷ ds) = elim (before_quote (d ∷ ds)) [ none ↦ none | some s ↦ some (c ∷ s) ]

abbrev or_value : Str → Option Str → Str
or_value s none = s
or_value s (some t) = t

-- Quotes on both sides are removed; a single one is not.
abbrev pub unquoted : Str → Str
unquoted [] = []
unquoted (c ∷ cs) = if c == 34 then or_value (c ∷ cs) (before_quote cs) else c ∷ cs

abbrev pub with_key : Str → Str → OsInfo → OsInfo
with_key key v os =
    if str_eq key (str "ID")
    then record os { distro = v }
    else if str_eq key (str "VERSION_ID")
    then record os { version = v }
    else if str_eq key (str "BUILD_ID")
    then record os { build_id = v }
    else os

abbrev pub with_line : Str → OsInfo → OsInfo
with_line line os = elim (split_key line) [ none ↦ os | some (k, v) ↦ with_key k (unquoted v) os ]

abbrev pub with_lines : List Str → OsInfo → OsInfo
with_lines [] os = os
with_lines (l ∷ ls) os = with_lines ls (with_line l os)

abbrev pub with_release : Option Uname → OsInfo → OsInfo
with_release none os = os
with_release (some u) os = record os { kernel = u.release }

-- Without the file, uname() is not asked.
unfoldable pub read_os_release : DeviceFiles → OsInfo
read_os_release files = elim files.os_release [
  | none ↦ os_info_default
  | some lines ↦ with_release files.uname (with_lines lines os_info_default)
]

-- std::isspace.
abbrev pub is_space : ℕ → Bool
is_space c = c == 32 || (leb 9 c && leb c 13)

-- std::remove_if of null and white space.
abbrev pub stripped : Str → Str
stripped [] = []
stripped (c ∷ cs) = let rest = stripped cs in if c == 0 || is_space c then rest else c ∷ rest

abbrev skip_spaces : Str → Str
skip_spaces [] = []
skip_spaces (c ∷ cs) = let rest = skip_spaces cs in if is_space c then rest else c ∷ cs

-- `while (!id.empty() && std::isspace(id.back())) id.pop_back()`.
abbrev pub trimmed : Str → Str
trimmed s = reverse (skip_spaces (reverse s))

abbrev pub or_unknown : Str → Str
or_unknown [] = str "unknown"
or_unknown (c ∷ cs) = c ∷ cs

abbrev pub from_machine_id : Option Str → Str
from_machine_id none = str "unknown"
from_machine_id (some line) = or_unknown (trimmed line)

-- The serial number, where it is not empty.
abbrev pub or_machine_id : Str → Option Str → Str
or_machine_id [] machine_id = from_machine_id machine_id
or_machine_id (c ∷ cs) machine_id = c ∷ cs

unfoldable pub read_machine_id : DeviceFiles → Str
read_machine_id files = elim files.serial_number [
  | none ↦ from_machine_id files.machine_id
  | some line ↦ or_machine_id (stripped line) files.machine_id
]

unfoldable pub read_hostname : DeviceFiles → Str
read_hostname files = elim files.gethostname [
  | some name ↦ name
  | none ↦ elim files.hostname [ none ↦ str "unknown" | some line ↦ line ]
]

abbrev pub configured_or : Str → Str → Str
configured_or [] detected = detected
configured_or (c ∷ cs) detected = c ∷ cs

-- uname(): the architecture, and the release where no kernel is known.
abbrev pub with_uname : Option Uname → DeviceInfo → DeviceInfo
with_uname none info = info
with_uname (some u) info = record info {
  arch = u.machine;
  os = if is_empty info.os.kernel then record (info.os) { kernel = u.release } else info.os;
}

unfoldable pub collect : {F : Type 0} → Config F → DeviceFiles → ProbeResult DeviceInfo
unfolding read_os_release read_machine_id read_hostname
collect cfg files = value (
    with_uname files.uname (record device_info_default {
      device_id = configured_or cfg.device_id (read_machine_id files);
      platform = cfg.platform;
      hostname = read_hostname files;
      os = read_os_release files;
    }))
