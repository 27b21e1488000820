-- ===== src/Journal/Filter.antt =====
-- inc/journal.hpp and src/journal.cpp: JournalEntry and filter_journal_entries(). The wall-clock time
-- in microseconds is an argument; the cutoff of the window is computed modulo 2 ^ 64.
pub mod Lines
use edge_healthd.Prelude.{
  ℕ, ◌+◌, ◌-◌, ◌*◌, ◌%◌, ◌^◌, Bool, true, false, not, ◌&&◌, ◌||◌, Option, none, some, List, [], ◌∷◌,
  ◌++◌, length, take, Str, str_eq, is_empty, ltb, leb, ◌==◌, if◌then◌else◌,
}
use edge_healthd.Prelude.Int.{ℤ, ltb_ℤ}
use edge_healthd.Config.{Config}

pub record JournalEntry : Type 0 where
  pub realtime_usec : ℕ
  pub priority : ℤ
  pub message : Str
  pub unit : Str
  pub unit_hint : Str
  pub syslog_id : Str

unfoldable pub matches_unit : JournalEntry → Str → Bool
matches_unit e name = str_eq e.unit name || str_eq e.unit_hint name || str_eq e.syslog_id name

-- The start of a window of `w` seconds.
abbrev pub cutoff : ℕ → ℕ → ℕ
cutoff now w = (now + 2 ^ 64 - w * 1000000 % 2 ^ 64) % 2 ^ 64

-- Whether an entry is not before the window, if there is one above 0.
abbrev pub is_recent : ℕ → Option ℕ → ℕ → Bool
is_recent now none realtime = true
is_recent now (some w) realtime = w == 0 || leb (cutoff now w) realtime

abbrev pub has_priority : Option ℤ → ℤ → Bool
has_priority none p = true
has_priority (some limit) p = not (ltb_ℤ limit p)

-- `while (!msg.empty() && (msg.back() == '\n' || msg.back() == '\r')) msg.pop_back()`.
trim_newlines : Str → Str
trim_newlines [] = []
trim_newlines (x ∷ xs) =
    let rest = trim_newlines xs in if is_empty rest && (x == 10 || x == 13) then [] else x ∷ rest

-- The line of an entry: trimmed, then cut to 512 bytes.
line_of : JournalEntry → Str
unfolding trim_newlines
line_of e = take 512 (trim_newlines e.message)

abbrev pub line_limit : ℕ → ℕ
line_limit n = if n == 0 then 20 else n

module _ {F : Type 0} (cfg : Config F) (now : ℕ) where
  abbrev pub is_admitted : JournalEntry → Bool
  is_admitted e =
      is_recent now cfg.log_excerpt_window_sec e.realtime_usec
      && has_priority cfg.log_excerpt_min_priority e.priority

  abbrev push_line : List Str → Str → List Str
  push_line out line = if is_empty line then out else out ++ (line ∷ [])

  -- The loop, with the lines so far.
  filter_from : List Str → List JournalEntry → List Str
  unfolding line_of
  filter_from out [] = out
  filter_from out (e ∷ es) =
      let pushed = push_line out (line_of e) in
      let skipping = filter_from out es in
      let rest = filter_from pushed es in
      if not (is_admitted e)
      then skipping
      else if leb (line_limit cfg.log_excerpt_max_lines) (length pushed)
      then pushed
      else rest

  pub filter_journal_entries : List JournalEntry → List Str
  unfolding filter_from
  filter_journal_entries entries = filter_from [] entries
