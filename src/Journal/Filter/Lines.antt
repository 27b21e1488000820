-- ===== src/Journal/Filter/Lines.antt =====
-- What lines filter_journal_entries() returns.
use edge_healthd.Prelude.{ℕ, List, [], ◌∷◌, ◌++◌, Str, if◌then◌else◌}
use edge_healthd.Config.{Config}
use edge_healthd.Journal.Filter.{JournalEntry, is_admitted, line_of, push_line}

module _ {F : Type 0} (cfg : Config F) (now : ℕ) where
  -- The lines of all entries that are admitted and have some text, in their order.
  pub all_lines : List JournalEntry → List Str
  all_lines [] = []
  all_lines (e ∷ es) =
      if is_admitted cfg now e
      then push_line cfg now [] (line_of e) ++ all_lines es
      else all_lines es
