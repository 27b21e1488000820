-- ===== src/Probe/Boot.antt =====
-- src/probes.cpp: BootProbe with its persistent state, boot_state.json. Printing and parsing JSON is
-- nlohmann::json, a parameter: what it finds for each key. A file is its text, if there is one; a
-- write either replaces it or leaves it. Clocks, the boot id and the outcome of writing are
-- arguments; the wall clock is taken to be past the uptime.
pub mod Streak
use edge_healthd.Prelude.{
  ℕ, ◌+◌, ◌-◌, ◌*◌, ◌%◌, ◌^◌, ◌≡◌, Bool, true, false, not, ◌&&◌, Option, none, some, List, [], Str,
  str_eq, is_empty, ◌==◌, if◌then◌else◌,
}
use edge_healthd.Types.Sections.{BootStatus, boot_status_default}

pub record BootState : Type 0 where
  pub last_boot_id : Str
  pub consecutive_failures : ℕ
  pub last_boot_ok : Bool

abbrev pub boot_state_default : BootState
boot_state_default = record { last_boot_id = []; consecutive_failures = 0; last_boot_ok = true }

-- A key of a parsed object: it is not there, its value is of another type (so that `get` throws), or
-- it is there.
pub data Field (T : Type 0) : Type 0 where
  absent : Field T
  invalid : Field T
  present : T → Field T

pub record BootFields : Type 0 where
  pub last_boot_id : Field Str
  pub consecutive_failures : Field ℕ
  pub last_boot_ok : Field Bool

-- What nlohmann::json does with the file: `parse` gives nothing where it throws, and finds in what
-- `dump` has printed what was put in.
pub record BootJson : Type 0 where
  pub dump : BootState → Str
  pub parse : Str → Option BootFields
  pub parse-dump :
      (s : BootState)
      → parse (dump s)
        ≡ some (record {
          last_boot_id = present s.last_boot_id;
          consecutive_failures = present s.consecutive_failures;
          last_boot_ok = present s.last_boot_ok;
        })

-- The reading of `last_boot_ok`, after the other two keys.
load_last_boot_ok : Field Bool → BootState → BootState
load_last_boot_ok absent s = record s { last_boot_ok = s.consecutive_failures == 0 }
load_last_boot_ok invalid s = s
load_last_boot_ok (present ok) s = record s { last_boot_ok = ok }

load_failures : BootFields → BootState → BootState
load_failures f s = elim f.consecutive_failures [
  | absent ↦ load_last_boot_ok f.last_boot_ok s
  | invalid ↦ s
  | present n ↦ load_last_boot_ok f.last_boot_ok (record s { consecutive_failures = n })
]

load_fields : BootFields → BootState
load_fields f = elim f.last_boot_id [
  | absent ↦ load_failures f boot_state_default
  | invalid ↦ boot_state_default
  | present boot_id ↦ load_failures f (record boot_state_default { last_boot_id = boot_id })
]

load_parsed : Option BootFields → BootState
load_parsed none = boot_state_default
load_parsed (some f) = load_fields f

module _ (json : BootJson) where
  load_boot_state : Option Str → BootState
  load_boot_state none = boot_state_default
  load_boot_state (some text) = load_parsed (json.parse text)

  -- The file after the call; `saved` is whether it could be replaced.
  save_boot_state : Bool → BootState → Option Str → Option Str
  save_boot_state saved s file = if saved then some (json.dump s) else file

  -- The state that collect() goes on with, and whether it is a new boot's.
  enter_boot : Str → BootState → BootState × Bool
  enter_boot boot_id s =
      if not (str_eq s.last_boot_id boot_id)
      then (
        record {
          last_boot_id = boot_id;
          consecutive_failures =
              if not (is_empty s.last_boot_id) && not s.last_boot_ok
              then (s.consecutive_failures + 1) % 2 ^ 32
              else s.consecutive_failures;
          last_boot_ok = false;
        },
        true,
      )
      else (s, false)

  pub collect : Str → ℕ → ℕ → Bool → Option Str → BootStatus × Option Str
  unfolding load_boot_state save_boot_state enter_boot
  collect boot_id now uptime saved file =
      let (s, is_new) = enter_boot boot_id (load_boot_state file) in
      (
        record boot_status_default {
          boot_id = boot_id;
          uptime = uptime;
          last_boot_at = now - uptime * 1000000000;
          boot_fail_count = s.consecutive_failures;
          boot_ok = s.consecutive_failures == 0;
        },
        if is_new then save_boot_state saved s file else file,
      )

  pub mark_boot_success : Str → Bool → Option Str → Option Str
  unfolding save_boot_state
  mark_boot_success boot_id saved file =
      save_boot_state saved
        (record { last_boot_id = boot_id; consecutive_failures = 0; last_boot_ok = true }) file
