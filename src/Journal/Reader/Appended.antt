-- ===== src/Journal/Reader/Appended.antt =====
-- What ingest() takes from the journal.
use mathlib.Core.List.{append_assoc, append-nil}
use edge_healthd.Prelude.{
  ℕ, zero, suc, ◌-◌, ◌*◌, drop, ◌<◌, ◌≡◌, refl, sym, ap, ◌∙◌, true, false, List, [], ◌∷◌, ◌++◌,
  length, if◌then◌else◌, arith,
}
use edge_healthd.Config.{Config}
use edge_healthd.Journal.Filter.{JournalEntry}
use edge_healthd.Journal.Buffer.{buffer_cap, evict}
use edge_healthd.Journal.Buffer.Queries.{evict-drop}
use edge_healthd.Journal.Reader.{
  current, Moved, to_entry, at_end, failed, SdJournal, Reader, is_entry, drain, drained, ingest,
}
use edge_healthd.Journal.Reader.Recent.{View, IsJournal}

module _ {F J : Type 0} (cfg : Config F) (sd : SdJournal J) (view : View J)
    (law : IsJournal sd view)
    (readable : (j : J) → is_entry (sd.next j).1 ≡ false → (sd.next j).1 ≡ at_end) where
  -- Everything was read.
  abbrev IsDrained : List JournalEntry → (J × List JournalEntry) × Moved → Type 0
  IsDrained wanted d = (d.1 ≡ at_end) × (d.0.1 ≡ wanted)

  drain_step-IsDrained :
      (m : Moved) (budget : ℕ) (j : J) (buffer : List JournalEntry)
      → (sd.next j).1 ≡ m
      → length (view.rest j) < suc budget
      → (length (view.rest (sd.next j).0) < budget
          → IsDrained
              ((buffer ++ (current sd (sd.next j).0 ∷ [])) ++ view.rest (sd.next j).0)
              (drain cfg sd budget (sd.next j).0 (buffer ++ (current sd (sd.next j).0 ∷ []))))
      → IsDrained (buffer ++ view.rest j) (
          if is_entry m
          then drain cfg sd budget (sd.next j).0 (buffer ++ (current sd (sd.next j).0 ∷ []))
          else (((sd.next j).0, buffer), m))
  drain_step-IsDrained to_entry budget j buffer e b ih =
      let (a, r) = ih (omega (arith, b, ap length (law.advanced j e).0)) in
      (
        a,
        r
            ∙ (append_assoc buffer (current sd (sd.next j).0 ∷ []) (view.rest (sd.next j).0)
                ∙ ap (λ (t : List JournalEntry). buffer ++ t) (sym (law.advanced j e).0)),
      )
  drain_step-IsDrained at_end budget j buffer e b ih = (
    refl,
    sym (append-nil buffer) ∙ ap (λ (t : List JournalEntry). buffer ++ t) (sym (law.ended j e)),
  )
  drain_step-IsDrained failed budget j buffer e b ih =
      absurd (ground (arith, e, readable j (ap is_entry e)))

  drain-IsDrained :
      (budget : ℕ) (j : J) (buffer : List JournalEntry)
      → length (view.rest j) < budget
      → IsDrained (buffer ++ view.rest j) (drain cfg sd budget j buffer)
  unfolding drain
  drain-IsDrained zero j buffer b = absurd (omega (arith, b))
  drain-IsDrained (suc budget) j buffer b =
      drain_step-IsDrained (sd.next j).1 budget j buffer refl b
        (drain-IsDrained budget (sd.next j).0 (buffer ++ (current sd (sd.next j).0 ∷ [])))

  drained-buffer :
      (fuel : ℕ) (r : Reader J) (wanted : List JournalEntry) (d : (J × List JournalEntry) × Moved)
      → IsDrained wanted d
      → (drained cfg sd fuel r d).buffer ≡ evict cfg wanted
  drained-buffer fuel r wanted ((j, buffer), failed) (a, e) = absurd (ground (arith, a))
  drained-buffer fuel r wanted ((j, buffer), at_end) (a, e) = ap (evict cfg) e
  drained-buffer fuel r wanted ((j, buffer), to_entry) (a, e) = absurd (ground (arith, a))

  -- No entry is missed and none is read twice: where the handle is open, the wait succeeds, reading
  -- does not fail and fewer entries were appended than twice the cap, ingest() appends exactly the
  -- entries after the cursor, in order, and of all these the last ones are kept, as many as the cap.
  pub ingest-appended :
      (fuel : ℕ) (r : Reader J)
      → r.is_open ≡ true
      → (sd.wait r.journal).1 ≡ true
      → length (view.rest (sd.wait r.journal).0) < 2 * buffer_cap cfg
      → let all = r.buffer ++ view.rest (sd.wait r.journal).0 in
        (ingest cfg sd fuel r).buffer ≡ drop (length all - buffer_cap cfg) all
  unfolding ingest
  ingest-appended fuel r o e b =
      simp (o, e)
        (drained-buffer fuel r (r.buffer ++ view.rest (sd.wait r.journal).0)
          (drain cfg sd (2 * buffer_cap cfg) (sd.wait r.journal).0 r.buffer)
          (drain-IsDrained (2 * buffer_cap cfg) (sd.wait r.journal).0 r.buffer b))
      ∙ evict-drop cfg (r.buffer ++ view.rest (sd.wait r.journal).0)
