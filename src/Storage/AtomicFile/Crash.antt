-- ===== src/Storage/AtomicFile/Crash.antt =====
-- atomic_write_file(): what a reader, or a restart after a power cut, finds under the target's name.
use mathlib.Core.List.{append_assoc, append-nil}
use mathlib.Core.Path.{subst}
use edge_healthd.Prelude.{
  ℕ, zero, suc, ◌≡◌, ◌≢◌, arith, sym, ap, ◌∙◌, ◌⊎◌, inl, inr, refl, Option, none, some, [], ◌∷◌,
  ◌++◌, Str, take, drop, take-append-drop,
}
use edge_healthd.Storage.FileSystem.{
  FileSystem, Wrote, wrote, interrupted, failed, IsUnseen, IsPosix,
}
use edge_healthd.Storage.Outcome.{
  Program, Holds, Triple, operation, return, ◌>>=◌, >>=-Triple, operation-Triple, check-Triple,
}
use edge_healthd.Storage.AtomicFile.{
  AtomicFileResult, fail, close_and_fail, continue_writing, write_loop, sync_dir, finish,
  written_or_failed, quietly, atomic_write_file,
}

module _ {S : Type 0} (fs : FileSystem S) (posix : IsPosix fs) (s₀ : S) (content : Str) where
  -- The target has the new contents; after a power cut it may still be the old file.
  abbrev pub IsReplaced : S → Type 0
  IsReplaced s =
      (fs.target s ≡ some content)
      × ((x : Option Str) → fs.survives s x → fs.survives s₀ x ⊎ (x ≡ some content))

  -- The old file, or the whole new one.
  abbrev pub IsSafe : S → Type 0
  IsSafe s = IsUnseen fs s₀ s ⊎ IsReplaced s

  -- The file system has refused to remove the temporary file, as the last operation.
  abbrev pub HasRefused : S → Type 0
  HasRefused s = (t : S) × ((s ≡ (fs.remove_temp t).0) × ((fs.remove_temp t).1 ≢ none))

  -- What a result says: without an error, only the new file is found, after a power cut too; with
  -- one, the temporary file is gone, or is the one that was there and could not be opened, or its
  -- removal was refused.
  abbrev pub Promise : AtomicFileResult → S → Type 0
  Promise none s =
      (fs.target s ≡ some content) × ((x : Option Str) → fs.survives s x → x ≡ some content)
  Promise (some e) s = IsSafe s × ((fs.temp s ≡ none) ⊎ (fs.temp s ≡ fs.temp s₀) ⊎ HasRefused s)

  -- `rest` is still to be written.
  abbrev IsWriting : Str → S → Type 0
  IsWriting rest s = IsUnseen fs s₀ s × (c : Str) × (fs.temp s ≡ some c) × (c ++ rest ≡ content)

  unseen-trans : (s s' : S) → IsUnseen fs s₀ s → IsUnseen fs s s' → IsUnseen fs s₀ s'
  unseen-trans s s' a b = record {
    target = b.target ∙ a.target;
    survives = λ x p. a.survives x (b.survives x p);
  }

  IsReplaced-unseen : (s s' : S) → IsReplaced s → IsUnseen fs s s' → IsReplaced s'
  IsReplaced-unseen s s' (t, v) b = (b.target ∙ t, λ x p. v x (b.survives x p))

  IsSafe-unseen : (s s' : S) → IsSafe s → IsUnseen fs s s' → IsSafe s'
  IsSafe-unseen s s' (inl a) b = inl (unseen-trans s s' a b)
  IsSafe-unseen s s' (inr a) b = inr (IsReplaced-unseen s s' a b)

  removed_or_refused :
      (s : S) (e : Option ℕ)
      → (fs.remove_temp s).1 ≡ e
      → (fs.temp (fs.remove_temp s).0 ≡ none)
        ⊎ (fs.temp (fs.remove_temp s).0 ≡ fs.temp s₀)
        ⊎ HasRefused (fs.remove_temp s).0
  removed_or_refused s none r = inl (posix.removed s r)
  removed_or_refused s (some e) r = inr (inr (s, (refl, λ n. absurd (ground (arith, n, r)))))

  fail-Promise :
      (message : Str) (code : ℕ) → Triple IsSafe (IsUnseen fs s₀) (fail fs message code) Promise
  fail-Promise message code zero s u = inl u
  fail-Promise message code (suc budget) s u = (
    inl (unseen-trans s (fs.remove_temp s).0 u (posix.remove_unseen s)),
    removed_or_refused s (fs.remove_temp s).1 refl,
  )

  close_and_fail-Promise :
      (message : Str) (code : ℕ)
      → Triple IsSafe (IsUnseen fs s₀) (close_and_fail fs message code) Promise
  close_and_fail-Promise message code =
      >>=-Triple IsSafe (IsUnseen fs s₀) (λ a. IsUnseen fs s₀) Promise (operation fs.close_temp)
        (λ a. fail fs message code)
        (operation-Triple IsSafe (IsUnseen fs s₀) (λ a. IsUnseen fs s₀) fs.close_temp (λ s u. inl u)
          (λ s u. unseen-trans s (fs.close_temp s).0 u (posix.close_unseen s)))
        (λ a. fail-Promise message code)

  -- After the loop.
  abbrev HasWritten : Option ℕ → S → Type 0
  HasWritten none = IsWriting []
  HasWritten (some e) = IsUnseen fs s₀

  append-take-drop : (c p : Str) (n : ℕ) → (c ++ take n p) ++ drop n p ≡ c ++ p
  append-take-drop c p n =
      append_assoc c (take n p) (drop n p) ∙ ap (λ (t : Str). c ++ t) (take-append-drop n p)

  -- After one write().
  abbrev HasTaken : Str → Wrote → S → Type 0
  HasTaken rest (wrote n) = IsWriting (drop n rest)
  HasTaken rest interrupted = IsWriting rest
  HasTaken rest (failed e) = IsUnseen fs s₀

  write-HasTaken :
      (rest : Str) (s : S)
      → IsWriting rest s
      → (w : Wrote) → (fs.write rest s).1 ≡ w
      → HasTaken rest w (fs.write rest s).0
  write-HasTaken rest s (u, c, t, e) (wrote n) q = (
    unseen-trans s (fs.write rest s).0 u (posix.write_unseen rest s),
    c ++ take n rest,
    (posix.written rest c s n t q).1,
    append-take-drop c rest n ∙ e,
  )
  write-HasTaken rest s (u, c, t, e) interrupted q = (
    unseen-trans s (fs.write rest s).0 u (posix.write_unseen rest s),
    c,
    posix.unwritten rest s q ∙ t,
    e,
  )
  write-HasTaken rest s p (failed e) q =
      unseen-trans s (fs.write rest s).0 p.0 (posix.write_unseen rest s)

  continue_writing-HasWritten :
      (loop : Str → Program S (Option ℕ)) (rest : Str)
      → ((p : Str) → Triple IsSafe (IsWriting p) (loop p) HasWritten)
      → (w : Wrote) → Triple IsSafe (HasTaken rest w) (continue_writing fs loop rest w) HasWritten
  continue_writing-HasWritten loop rest h (wrote n) = h (drop n rest)
  continue_writing-HasWritten loop rest h interrupted = h rest
  continue_writing-HasWritten loop rest h (failed e) = λ budget s u. u

  write_loop-HasWritten :
      (fuel : ℕ) (rest : Str) → Triple IsSafe (IsWriting rest) (write_loop fs fuel rest) HasWritten
  unfolding write_loop
  write_loop-HasWritten fuel [] budget s p = p
  write_loop-HasWritten zero (c ∷ cs) budget s p = inl p.0
  write_loop-HasWritten (suc fuel) (c ∷ cs) budget s p =
      >>=-Triple IsSafe (IsWriting (c ∷ cs)) (HasTaken (c ∷ cs)) HasWritten
        (operation (fs.write (c ∷ cs))) (continue_writing fs (write_loop fs fuel) (c ∷ cs))
        (operation-Triple IsSafe (IsWriting (c ∷ cs)) (HasTaken (c ∷ cs)) (fs.write (c ∷ cs))
          (λ t q. inl q.0) (λ t q. write-HasTaken (c ∷ cs) t q (fs.write (c ∷ cs) t).1 refl))
        (continue_writing-HasWritten (write_loop fs fuel) (c ∷ cs) (write_loop-HasWritten fuel))
        budget s p

  -- The temporary file holds the contents, on the disk.
  abbrev IsComplete : S → Type 0
  IsComplete s = IsUnseen fs s₀ s × (fs.temp s ≡ some content) × fs.is_synced s

  abbrev IsRenamed : S → Type 0
  IsRenamed s = IsReplaced s × (fs.temp s ≡ none)

  abbrev IsRenamedSynced : S → Type 0
  IsRenamedSynced s = IsRenamed s × fs.is_target_synced s

  rename-IsRenamed :
      (s : S) → IsComplete s → (fs.rename s).1 ≡ none → IsRenamedSynced (fs.rename s).0
  rename-IsRenamed s (u, t, y) r =
      let (gone, new, synced, old) = posix.renamed s content r t y in
      (
        ((new, λ x p. elim (old x p) [ inl a ↦ inl (u.survives x a) | inr e ↦ inr e ]), gone),
        synced,
      )

  open_dir-IsRenamed : (s : S) → IsRenamed s → IsRenamed (fs.open_dir s).0
  open_dir-IsRenamed s p = (
    IsReplaced-unseen s (fs.open_dir s).0 p.0 (posix.open_dir_unseen s),
    posix.open_dir_temp s ∙ p.1,
  )

  quietly-Promise :
      (during before : S → Type 0) (r : AtomicFileResult)
      → ((s : S) → before s → during s)
      → ((s : S) → before s → Promise r (fs.close_dir s))
      → Triple during before (quietly fs fs.close_dir >>= λ _. return r) Promise
  quietly-Promise _ _ r d h zero s p = d s p
  quietly-Promise _ _ r d h (suc budget) s p = h s p

  sync_dir-Promise : (parent : Str) → Triple IsSafe IsRenamedSynced (sync_dir fs parent) Promise
  unfolding sync_dir
  sync_dir-Promise parent =
      check-Triple IsSafe IsRenamedSynced IsRenamed IsRenamedSynced Promise fs.open_dir _ _
        (λ s p. inr p.0.0) (λ s p e q. open_dir-IsRenamed s p.0)
        (λ s p q. (open_dir-IsRenamed s p.0, posix.open_dir_synced s p.1))
        (λ e budget s p. (inr p.0, inl p.1))
        (check-Triple IsSafe IsRenamedSynced IsRenamed (λ s. Promise none s) Promise fs.fsync_dir _
          _ (λ s p. inr p.0.0)
          (λ s p e q. (
            IsReplaced-unseen s (fs.fsync_dir s).0 p.0.0 (posix.fsync_dir_unseen s),
            posix.fsync_dir_temp s ∙ p.0.1,
          ))
          (λ s p q.
            let new = (posix.fsync_dir_unseen s).target ∙ p.0.0.0 in
            (new, λ x v. posix.dir_synced s p.1 q x v ∙ new))
          (λ e.
            quietly-Promise IsSafe IsRenamed _ (λ s p. inr p.0)
              (λ s p. (
                inr (IsReplaced-unseen s (fs.close_dir s) p.0 (posix.close_dir_unseen s)),
                inl (posix.close_dir_temp s ∙ p.1),
              )))
          (quietly-Promise IsSafe (Promise none) none (λ s p. inr (p.0, λ x v. inr (p.1 x v)))
            (λ s p. (
              (posix.close_dir_unseen s).target ∙ p.0,
              λ x v. p.1 x ((posix.close_dir_unseen s).survives x v),
            ))))

  finish-Promise :
      (target parent tmp : Str) → Triple IsSafe (IsWriting []) (finish fs target parent tmp) Promise
  unfolding finish
  finish-Promise target parent tmp =
      check-Triple IsSafe (IsWriting []) (IsUnseen fs s₀) IsComplete Promise fs.fsync_temp _ _
        (λ s p. inl p.0) (λ s p e q. unseen-trans s (fs.fsync_temp s).0 p.0 (posix.fsync_unseen s))
        (λ s p q. (
          unseen-trans s (fs.fsync_temp s).0 p.0 (posix.fsync_unseen s),
          posix.fsync_temp s ∙ (p.2 ∙ ap (λ (t : Str). some t) (sym (append-nil p.1) ∙ p.3)),
          posix.synced s q,
        ))
        (λ e. close_and_fail-Promise _ e)
        (check-Triple IsSafe IsComplete (IsUnseen fs s₀) IsComplete Promise fs.close_temp _ _
          (λ s p. inl p.0)
          (λ s p e q. unseen-trans s (fs.close_temp s).0 p.0 (posix.close_unseen s))
          (λ s p q. (
            unseen-trans s (fs.close_temp s).0 p.0 (posix.close_unseen s),
            posix.close_temp s ∙ p.1,
            posix.close_synced s p.2,
          ))
          (λ e. fail-Promise _ e)
          (check-Triple IsSafe IsComplete (IsUnseen fs s₀) IsRenamedSynced Promise fs.rename _ _
            (λ s p. inl p.0)
            (λ s p e q. unseen-trans s (fs.rename s).0 p.0 (posix.rename_failed s e q))
            rename-IsRenamed (λ e. fail-Promise _ e) (sync_dir-Promise parent)))

  written_or_failed-Promise :
      (target parent tmp : Str) (e : Option ℕ)
      → Triple IsSafe (HasWritten e) (written_or_failed fs target parent tmp e) Promise
  written_or_failed-Promise target parent tmp none = finish-Promise target parent tmp
  written_or_failed-Promise target parent tmp (some e) = close_and_fail-Promise _ e

  atomic_write_file-Promise :
      (fuel pid : ℕ) (target parent : Str)
      → Triple IsSafe (λ s. s ≡ s₀) (atomic_write_file fs fuel pid target parent content) Promise
  unfolding atomic_write_file
  atomic_write_file-Promise fuel pid target parent =
      check-Triple IsSafe (λ s. s ≡ s₀) (λ s. IsUnseen fs s₀ s × (fs.temp s ≡ fs.temp s₀))
        (IsWriting content) Promise fs.open_temp _ _
        (λ s e.
          inl (record {
            target = ap fs.target e;
            survives = λ x v. subst (λ t. fs.survives t x) e v;
          }))
        (λ s p e q. (
          subst (λ t. IsUnseen fs t (fs.open_temp s).0) p (posix.open_unseen s),
          posix.unopened s e q ∙ ap fs.temp p,
        ))
        (λ s p q. (
          subst (λ t. IsUnseen fs t (fs.open_temp s).0) p (posix.open_unseen s),
          [],
          posix.opened s q,
          refl,
        ))
        (λ e budget s p. (inl p.0, inr (inl p.1)))
        (>>=-Triple IsSafe (IsWriting content) HasWritten Promise (write_loop fs fuel content) _
          (write_loop-HasWritten fuel content) (written_or_failed-Promise target _ _))

  -- Wherever the power goes out, and whatever fails: a reader finds the old contents or the whole
  -- new ones under the target's name, and a power cut leaves what it could leave before or the whole
  -- new file. A result without an error says that only the new contents are found, after a power cut
  -- too; a result with an error leaves no temporary file but one that was there and could not be
  -- opened, or one that the file system refuses to remove.
  pub atomic_write_file-IsSafe :
      (fuel pid budget : ℕ) (target parent : Str)
      → Holds IsSafe Promise (atomic_write_file fs fuel pid target parent content budget s₀)
  atomic_write_file-IsSafe fuel pid budget target parent =
      atomic_write_file-Promise fuel pid target parent budget s₀ refl
