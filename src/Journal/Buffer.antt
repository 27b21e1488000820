-- ===== src/Journal/Buffer.antt =====
-- src/journal_reader.cpp: the operations on the buffer (namespace journal_detail) and the queries of
-- JournalReader and JournalProbe over it. A buffer is chronological, the oldest entry first. now_usec()
-- is an argument.
pub mod Queries
use edge_healthd.Prelude.{
  ℕ, ◌+◌, ◌-◌, ◌%◌, ◌^◌, Bool, true, false, not, ◌&&◌, Option, none, some, value_or, List, [], ◌∷◌,
  length, drop, reverse, any, Str, leb, ◌==◌, if◌then◌else◌,
}
use edge_healthd.Prelude.Int.{ℤ, pos, ltb_ℤ}
use edge_healthd.Types.Enums.{Severity}
use edge_healthd.Types.Sections.{JournalStatus, journal_status_default}
use edge_healthd.Config.{Config}
use edge_healthd.Probe.Result.{ProbeResult, value}
use edge_healthd.Journal.Filter.{JournalEntry, matches_unit, is_recent, filter_journal_entries}

abbrev pub filter {ℓ} : {A : Type ℓ} → (A → Bool) → List A → List A
filter p [] = []
filter p (x ∷ xs) = let rest = filter p xs in if p x then x ∷ rest else rest

-- `p <= limit` on priorities.
abbrev pub is_at_most : ℤ → ℤ → Bool
is_at_most limit p = not (ltb_ℤ limit p)

module _ {F : Type 0} (cfg : Config F) where
  abbrev pub error_priority : ℤ
  error_priority = value_or cfg.log_excerpt_min_priority (pos 3)

  abbrev pub buffer_cap : ℕ
  buffer_cap = if cfg.journal_buffer_max_entries == 0 then 1000 else cfg.journal_buffer_max_entries

  -- `while (buffer.size() > cap) buffer.pop_front()`.
  evict_to : ℕ → List JournalEntry → List JournalEntry
  evict_to cap [] = []
  evict_to cap (e ∷ es) =
      let rest = evict_to cap es in if leb (length (e ∷ es)) cap then e ∷ es else rest

  unfoldable pub evict : List JournalEntry → List JournalEntry
  unfolding evict_to
  evict buffer = evict_to buffer_cap buffer

  abbrev pub in_window : ℕ → JournalEntry → Bool
  in_window now e = is_recent now cfg.log_excerpt_window_sec e.realtime_usec

  count_from : ℕ → ℕ → List JournalEntry → ℕ
  count_from now n [] = n
  count_from now n (e ∷ es) =
      count_from now
        (if is_at_most error_priority e.priority && in_window now e then (n + 1) % 2 ^ 32 else n) es

  unfoldable pub error_count : ℕ → List JournalEntry → ℕ
  unfolding count_from
  error_count now buffer = count_from now 0 buffer

  -- The loop of overall_severity(), with the flag `warn`; the result is (crit, warn).
  severity_flags : ℕ → Bool → List JournalEntry → Bool × Bool
  severity_flags now warn [] = (false, warn)
  severity_flags now warn (e ∷ es) =
      let skipped = severity_flags now warn es in
      let warned = severity_flags now true es in
      if not (in_window now e)
      then skipped
      else if is_at_most (pos 2) e.priority
      then (true, warn)
      else if is_at_most (pos 3) e.priority
      then warned
      else skipped

  unfoldable pub overall_severity : ℕ → List JournalEntry → Severity
  unfolding severity_flags
  overall_severity now buffer =
      let (crit, warn) = severity_flags now false buffer in
      if crit then Severity.crit else if warn then Severity.warn else Severity.ok

  unfoldable pub recent_errors : ℕ → List JournalEntry → List Str
  recent_errors now buffer =
      filter_journal_entries cfg now
        (filter (λ e. is_at_most error_priority e.priority) (reverse buffer))

  unfoldable pub excerpt_for_unit : ℕ → List JournalEntry → Str → List Str
  excerpt_for_unit now buffer unit =
      filter_journal_entries cfg now (filter (λ e. matches_unit e unit) (reverse buffer))

  -- JournalProbe::collect(), with the buffer of the reader, if the probe has one.
  unfoldable pub collect : ℕ → Option (List JournalEntry) → ProbeResult JournalStatus
  collect now none = value (record journal_status_default { overall = Severity.ok })
  collect now (some buffer) = value (record journal_status_default {
    overall = overall_severity now buffer;
    error_count = error_count now buffer;
    recent_errors = recent_errors now buffer;
  })
