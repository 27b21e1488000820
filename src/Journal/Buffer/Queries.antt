-- ===== src/Journal/Buffer/Queries.antt =====
-- What the journal's queries say of the buffer.
use edge_healthd.Prelude.{
  ℕ, zero, suc, ◌+◌, ◌-◌, ◌%◌, ◌^◌, ◌<◌, ◌≡◌, refl, sym, ◌∙◌, Bool, true, false, ◌&&◌, ◌||◌, List,
  [], ◌∷◌, length, drop, any, leb, if◌then◌else◌, inl, inr, Bool-cases, arith,
}
use edge_healthd.Prelude.Int.{ℤ, pos, negsuc}
use edge_healthd.Types.Enums.{Severity}
use edge_healthd.Config.{Config}
use edge_healthd.Journal.Filter.{JournalEntry}
use edge_healthd.Journal.Buffer.{
  filter, is_at_most, buffer_cap, evict_to, evict, in_window, error_priority, count_from,
  error_count, severity_flags, overall_severity,
}

drop_nil : (n : ℕ) → drop {A = JournalEntry} n [] ≡ []
drop_nil zero = refl
drop_nil (suc n) = refl

sub_zero : (n cap : ℕ) → leb n cap ≡ true → n - cap ≡ 0
sub_zero n cap h = ground arith

sub_suc : (n cap : ℕ) → leb (suc n) cap ≡ false → suc n - cap ≡ suc (n - cap)
sub_suc n cap h = ground arith

is_at_most_step : (p : ℤ) → is_at_most (pos 2) p ≡ true → is_at_most (pos 3) p ≡ true
is_at_most_step (pos n) h = ground arith
is_at_most_step (negsuc n) h = ground arith

small : (n k : ℕ) → n + k < 2 ^ 32 → n % 2 ^ 32 ≡ n
small n k h = omega arith

module _ {F : Type 0} (cfg : Config F) where
  evict_to-drop :
      (cap : ℕ) (es : List JournalEntry) → evict_to cfg cap es ≡ drop (length es - cap) es
  unfolding evict_to
  evict_to-drop cap [] = sym (drop_nil (0 - cap))
  evict_to-drop cap (e ∷ es) = elim (Bool-cases (leb (suc (length es)) cap)) [
    | inl h ↦ rw (h, sub_zero (suc (length es)) cap h)
    | inr h ↦ rw (h, sub_suc (length es) cap h) (evict_to-drop cap es)
  ]

  -- Eviction keeps the last entries, as many as the cap (1000 where none is configured).
  pub evict-drop : (es : List JournalEntry) → evict cfg es ≡ drop (length es - buffer_cap cfg) es
  unfolding evict
  evict-drop es = evict_to-drop (buffer_cap cfg) es

  abbrev pub has_entry : ℕ → ℤ → List JournalEntry → Bool
  has_entry now limit = any (λ e. in_window cfg now e && is_at_most limit e.priority)

  severity_flags_crit :
      (now : ℕ) (warn : Bool) (es : List JournalEntry)
      → (severity_flags cfg now warn es).0 ≡ has_entry now (pos 2) es
  unfolding severity_flags
  severity_flags_crit now warn [] = refl
  severity_flags_crit now warn (e ∷ es) =
      ground (arith, severity_flags_crit now warn es, severity_flags_crit now true es)

  severity_flags_warn :
      (now : ℕ) (warn : Bool) (es : List JournalEntry)
      → has_entry now (pos 2) es ≡ false
      → (severity_flags cfg now warn es).1 ≡ (warn || has_entry now (pos 3) es)
  unfolding severity_flags
  severity_flags_warn now warn [] h = ground arith
  severity_flags_warn now warn (e ∷ es) h = ground (
    arith,
    severity_flags_warn now warn es,
    severity_flags_warn now true es,
    is_at_most_step e.priority,
  )

  -- The journal is critical exactly if the window has an entry of priority 2 or below, else a warning
  -- exactly if it has one of priority 3 or below, wherever in the buffer it stands.
  pub overall_severity-has_entry :
      (now : ℕ) (es : List JournalEntry)
      → overall_severity cfg now es ≡ (
          if has_entry now (pos 2) es
          then Severity.crit
          else if has_entry now (pos 3) es
          then Severity.warn
          else Severity.ok)
  unfolding overall_severity
  overall_severity-has_entry now es =
      ground (arith, severity_flags_crit now false es, severity_flags_warn now false es)

  count_from_lem :
      (now n : ℕ) (es : List JournalEntry)
      → n + length es < 2 ^ 32
      → count_from cfg now n es
        ≡ n
          + length
              (filter (λ e. is_at_most (error_priority cfg) e.priority && in_window cfg now e) es)
  unfolding count_from
  count_from_lem now n [] h = ground arith
  count_from_lem now n (e ∷ es) h =
      elim (Bool-cases (is_at_most (error_priority cfg) e.priority && in_window cfg now e)) [
        | inl c ↦
            rw (c, small (n + 1) (length es) (omega arith))
              (count_from_lem now (n + 1) es (omega arith) ∙ omega arith)
        | inr c ↦ rw c (count_from_lem now n es (omega arith))
      ]

  -- The error count is the number of entries in the window at the error priority or below, for a
  -- buffer of less than 2^32 entries.
  pub error_count-filter :
      (now : ℕ) (es : List JournalEntry)
      → length es < 2 ^ 32
      → error_count cfg now es
        ≡ length
            (filter (λ e. is_at_most (error_priority cfg) e.priority && in_window cfg now e) es)
  unfolding error_count
  error_count-filter now es h = count_from_lem now 0 es (omega arith) ∙ ground arith
