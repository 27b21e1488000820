-- ===== src/Journal/Reader/Recent.antt =====
-- The buffer of the reader, against the whole journal.
use mathlib.Core.List.{append_assoc, append-nil}
use edge_healthd.Prelude.{
  ℕ, zero, suc, ◌-◌, ◌*◌, ◌≤◌, ◌<◌, ◌≡◌, refl, sym, ap, ◌∙◌, true, false, List, [], ◌∷◌, ◌++◌,
  length, take, drop, take-append-drop, length-drop, ltb, if◌then◌else◌, arith, Bool-cases, inl,
  inr,
}
use edge_healthd.Config.{Config}
use edge_healthd.Journal.Filter.{JournalEntry}
use edge_healthd.Journal.Buffer.{buffer_cap}
use edge_healthd.Journal.Buffer.Queries.{evict-drop}
use edge_healthd.Journal.Reader.{
  current, Moved, to_entry, at_end, failed, SdJournal, Reader, pop_beyond, is_entry, read_forward,
  read_from, rebuild_from_tail, evicted, primed, open_locally, open_and_prime, drain, drained,
  ingest,
}

-- The entries of the whole journal: up to the cursor, and after it.
pub record View (J : Type 0) : Type 0 where
  pub seen : J → List JournalEntry
  pub rest : J → List JournalEntry

-- What sd-journal documents of its cursor.
pub record IsJournal {J : Type 0} (sd : SdJournal J) (view : View J) : Type 0 where
  pub waited : (j : J) → view.seen (sd.wait j).0 ≡ view.seen j
  pub advanced :
      (j : J)
      → (sd.next j).1 ≡ to_entry
      → (view.rest j ≡ current sd (sd.next j).0 ∷ view.rest (sd.next j).0)
        × (view.seen (sd.next j).0 ≡ view.seen j ++ (current sd (sd.next j).0 ∷ []))
  pub stayed : (j : J) → is_entry (sd.next j).1 ≡ false → view.seen (sd.next j).0 ≡ view.seen j
  pub ended : (j : J) → (sd.next j).1 ≡ at_end → view.rest j ≡ []
  -- the cursor is on an entry
  pub skipped :
      (n : ℕ) (j : J)
      → (sd.previous_skip n j).1 ≡ to_entry
      → (before : List JournalEntry) × (view.seen (sd.previous_skip n j).0
          ≡ before ++ (current sd (sd.previous_skip n j).0 ∷ []))

-- The last entries, without a gap.
abbrev pub IsSuffix : List JournalEntry → List JournalEntry → Type 0
IsSuffix seen buffer = (dropped : List JournalEntry) × (seen ≡ dropped ++ buffer)

suffix-snoc :
    (seen seen' buffer : List JournalEntry) (e : JournalEntry)
    → IsSuffix seen buffer
    → seen' ≡ seen ++ (e ∷ [])
    → IsSuffix seen' (buffer ++ (e ∷ []))
suffix-snoc seen seen' buffer e (dropped, p) q = (
  dropped,
  q ∙ (ap (λ (t : List JournalEntry). t ++ (e ∷ [])) p ∙ append_assoc dropped buffer (e ∷ [])),
)

suffix-drop :
    (n : ℕ) (seen buffer : List JournalEntry) → IsSuffix seen buffer → IsSuffix seen (drop n buffer)
suffix-drop n seen buffer (dropped, p) = (
  dropped ++ take n buffer,
  p
      ∙ (ap (λ (t : List JournalEntry). dropped ++ t) (sym (take-append-drop n buffer))
          ∙ sym (append_assoc dropped (take n buffer) (drop n buffer))),
)

suffix-pop_beyond :
    (n : ℕ) (seen buffer : List JournalEntry)
    → IsSuffix seen buffer
    → IsSuffix seen (pop_beyond n buffer)
suffix-pop_beyond n seen buffer h = elim (Bool-cases (ltb n (length buffer))) [
  | inl e ↦ rw e (suffix-drop 1 seen buffer h)
  | inr e ↦ rw e h
]

module _ {F J : Type 0} (cfg : Config F) (sd : SdJournal J) (view : View J)
    (law : IsJournal sd view) (in_time : (j : J) → sd.is_late j ≡ false) where
  -- While the handle is open, the buffer is the last entries up to the cursor, without a gap, and not
  -- more than the cap.
  abbrev pub IsWindow : Reader J → Type 0
  IsWindow r =
      r.is_open ≡ true
      → IsSuffix (view.seen r.journal) r.buffer × (length r.buffer ≤ buffer_cap cfg)

  abbrev IsRead : J × List JournalEntry → Type 0
  IsRead (j, buffer) = IsSuffix (view.seen j) buffer

  advance-IsRead :
      (m : Moved) (j : J) (buffer : List JournalEntry) (fuel : ℕ)
      → (sd.next j).1 ≡ m
      → IsSuffix (view.seen j) buffer
      → length (view.rest j) < suc fuel
      → ((before : List JournalEntry)
          → view.seen (sd.next j).0 ≡ before ++ (current sd (sd.next j).0 ∷ [])
          → IsSuffix before buffer
          → length (view.rest (sd.next j).0) < fuel
          → IsRead (read_forward cfg sd fuel (sd.next j).0 buffer))
      → IsRead (
          if is_entry m
          then read_forward cfg sd fuel (sd.next j).0 buffer
          else ((sd.next j).0, buffer))
  advance-IsRead to_entry j buffer fuel e h b ih =
      ih (view.seen j) (law.advanced j e).1 h (omega (arith, b, ap length (law.advanced j e).0))
  advance-IsRead at_end j buffer fuel e (d, p) b ih = (d, law.stayed j (ap is_entry e) ∙ p)
  advance-IsRead failed j buffer fuel e (d, p) b ih = (d, law.stayed j (ap is_entry e) ∙ p)

  read_forward-IsRead :
      (fuel : ℕ) (j : J) (before buffer : List JournalEntry)
      → view.seen j ≡ before ++ (current sd j ∷ [])
      → IsSuffix before buffer
      → length (view.rest j) < fuel
      → IsRead (read_forward cfg sd fuel j buffer)
  unfolding read_forward
  read_forward-IsRead zero j before buffer s h b = absurd (omega (arith, b))
  read_forward-IsRead (suc fuel) j before buffer s h b =
      let buffer' = pop_beyond (buffer_cap cfg) (buffer ++ (current sd j ∷ [])) in
      rw (in_time j) (
        advance-IsRead (sd.next j).1 j buffer' fuel refl
          (suffix-pop_beyond (buffer_cap cfg) (view.seen j) (buffer ++ (current sd j ∷ []))
            (suffix-snoc before (view.seen j) buffer (current sd j) h s))
          b (λ before' s' h' b'. read_forward-IsRead fuel (sd.next j).0 before' buffer' s' h' b'))

  evicted-IsWindow :
      (r : Reader J) → IsSuffix (view.seen r.journal) r.buffer → IsWindow (evicted cfg sd r)
  evicted-IsWindow r h o = rw (evict-drop cfg r.buffer) (
    suffix-drop (length r.buffer - buffer_cap cfg) (view.seen r.journal) r.buffer h,
    omega (arith, length-drop {0} (length r.buffer - buffer_cap cfg) r.buffer),
  )

  drain_step-IsRead :
      (m : Moved) (budget : ℕ) (j : J) (buffer : List JournalEntry)
      → (sd.next j).1 ≡ m
      → IsSuffix (view.seen j) buffer
      → (IsSuffix (view.seen (sd.next j).0) (buffer ++ (current sd (sd.next j).0 ∷ []))
          → IsRead
              (drain cfg sd budget (sd.next j).0 (buffer ++ (current sd (sd.next j).0 ∷ []))).0)
      → IsRead
          (if is_entry m
            then drain cfg sd budget (sd.next j).0 (buffer ++ (current sd (sd.next j).0 ∷ []))
            else (((sd.next j).0, buffer), m)).0
  drain_step-IsRead to_entry budget j buffer e h ih = ih (
      suffix-snoc (view.seen j) (view.seen (sd.next j).0) buffer (current sd (sd.next j).0) h
        (law.advanced j e).1)
  drain_step-IsRead at_end budget j buffer e (d, p) ih = (d, law.stayed j (ap is_entry e) ∙ p)
  drain_step-IsRead failed budget j buffer e (d, p) ih = (d, law.stayed j (ap is_entry e) ∙ p)

  drain-IsRead :
      (budget : ℕ) (j : J) (buffer : List JournalEntry)
      → IsSuffix (view.seen j) buffer
      → IsRead (drain cfg sd budget j buffer).0
  unfolding drain
  drain-IsRead zero j buffer h = h
  drain-IsRead (suc budget) j buffer h =
      drain_step-IsRead (sd.next j).1 budget j buffer refl h
        (drain-IsRead budget (sd.next j).0 (buffer ++ (current sd (sd.next j).0 ∷ [])))

  module _ (fuel : ℕ) (short : (j : J) → length (view.rest j) < fuel) where
    read_from-IsRead :
        (j : J) (m : Moved)
        → (m ≡ to_entry
            → (before : List JournalEntry) × (view.seen j ≡ before ++ (current sd j ∷ [])))
        → IsRead (read_from cfg sd fuel j m)
    read_from-IsRead j to_entry h =
        read_forward-IsRead fuel j (h refl).0 [] (h refl).1
          ((h refl).0, sym (append-nil (h refl).0)) (short j)
    read_from-IsRead j at_end h = (view.seen j, sym (append-nil (view.seen j)))
    read_from-IsRead j failed h = (view.seen j, sym (append-nil (view.seen j)))

    rebuilt-IsSuffix :
        (r : Reader J)
        → r.is_open ≡ true
        → IsSuffix
            (view.seen (rebuild_from_tail cfg sd fuel r).journal)
            (rebuild_from_tail cfg sd fuel r).buffer
    unfolding rebuild_from_tail
    rebuilt-IsSuffix r o =
        let j = (sd.seek_tail r.journal).0 in
        let back = sd.previous_skip (buffer_cap cfg) j in
        elim (Bool-cases (sd.seek_tail r.journal).1) [
          | inl e ↦ simp (o, e) (read_from-IsRead back.0 back.1 (law.skipped (buffer_cap cfg) j))
          | inr e ↦ simp (o, e) (view.seen j, sym (append-nil (view.seen j)))
        ]

    -- rebuild_from_tail() keeps the handle.
    rebuilt-is_open : (r : Reader J) → (rebuild_from_tail cfg sd fuel r).is_open ≡ r.is_open
    unfolding rebuild_from_tail
    rebuilt-is_open r = ground arith

    primed-IsWindow : (r : Reader J) (j : J) → IsWindow (primed cfg sd fuel r j)
    primed-IsWindow r j =
        let opened : Reader J = record r { is_open = true; journal = j } in
        evicted-IsWindow (rebuild_from_tail cfg sd fuel opened) (rebuilt-IsSuffix opened refl)

    open_locally-IsWindow : (r : Reader J) (j : J) → IsWindow (open_locally cfg sd fuel r j).0
    open_locally-IsWindow r j = elim (Bool-cases (sd.open_local j).1) [
      | inl e ↦ rw e (primed-IsWindow r (sd.open_local j).0)
      | inr e ↦ rw e (λ o. absurd (ground (arith, o)))
    ]

    pub open_and_prime-IsWindow : (r : Reader J) → IsWindow (open_and_prime cfg sd fuel r).0
    unfolding open_and_prime
    open_and_prime-IsWindow r = elim (Bool-cases (sd.open_system r.journal).1) [
      | inl e ↦ rw e (primed-IsWindow r (sd.open_system r.journal).0)
      | inr e ↦ rw e (open_locally-IsWindow r (sd.open_system r.journal).0)
    ]

    drained-IsWindow :
        (r : Reader J) (d : (J × List JournalEntry) × Moved)
        → r.is_open ≡ true
        → IsRead d.0
        → IsWindow (drained cfg sd fuel r d)
    drained-IsWindow r ((j, buffer), failed) o h = λ c. absurd (ground (arith, c))
    drained-IsWindow r ((j, buffer), at_end) o h =
        evicted-IsWindow (record r { journal = j; buffer = buffer }) h
    drained-IsWindow r ((j, buffer), to_entry) o h =
        let behind : Reader J = record r { journal = j; buffer = buffer } in
        evicted-IsWindow (rebuild_from_tail cfg sd fuel behind) (rebuilt-IsSuffix behind o)

    -- ingest() keeps the buffer a window on the journal, whatever the calls answer: while the handle
    -- is open, the buffer is the last entries up to the cursor, without a gap, and not more than the
    -- cap. No scan reaches its deadline, and the fuel is above the number of entries in the journal.
    pub ingest-IsWindow :
        (r : Reader J)
        → IsWindow r
        → (ingest cfg sd fuel r).is_open ≡ true
        → IsSuffix (view.seen (ingest cfg sd fuel r).journal) (ingest cfg sd fuel r).buffer
          × (length (ingest cfg sd fuel r).buffer ≤ buffer_cap cfg)
    unfolding ingest
    ingest-IsWindow r h = elim (Bool-cases r.is_open) [
      | inl o ↦ elim (Bool-cases (sd.wait r.journal).1) [
        | inl e ↦
            simp (o, e)
              (drained-IsWindow r (drain cfg sd (2 * buffer_cap cfg) (sd.wait r.journal).0 r.buffer)
                o
                (drain-IsRead (2 * buffer_cap cfg) (sd.wait r.journal).0 r.buffer
                  ((h o).0.0, law.waited r.journal ∙ (h o).0.1)))
        | inr e ↦ simp (o, e) (λ c. absurd (ground (arith, c)))
      ]
      | inr o ↦ simp o (open_and_prime-IsWindow r)
    ]
