-- ===== src/Storage/AtomicFile/Terminates.antt =====
-- atomic_write_file(): it returns, where writing comes to nothing only finitely often.
use edge_healthd.Prelude.{
  ℕ, zero, suc, ◌+◌, ◌≤◌, ◌<◌, ◌≡◌, refl, none, some, Option, [], ◌∷◌, Str, length, drop,
  length-drop, arith,
}
use edge_healthd.Storage.FileSystem.{FileSystem, Wrote, wrote, interrupted, failed, IsPatient}
use edge_healthd.Storage.Outcome.{
  Program, Returns, operation, return, ◌>>=◌, otherwise, continue-Returns, check-Returns,
}
use edge_healthd.Storage.AtomicFile.{
  AtomicFileResult, failure, quietly, close_and_fail, continue_writing, write_loop, sync_dir,
  finish, written_or_failed, atomic_write_file,
}

module _ {S : Type 0} (fs : FileSystem S) (patient : IsPatient fs) where
  quietly-Returns :
      (r : AtomicFileResult) (f : S → S) (k : ℕ) (s : S) (budget : ℕ)
      → k + 1 ≤ budget
      → Returns k ((quietly fs f >>= λ _. return r) budget s)
  quietly-Returns r f k s zero b = absurd (omega (arith, b))
  quietly-Returns r f k s (suc budget) b = omega (arith, b)

  operation-Returns :
      {A : Type 0} (r : AtomicFileResult) (f : S → S × A) (k : ℕ) (s : S) (budget : ℕ)
      → k + 1 ≤ budget
      → Returns k ((operation f >>= λ _. return r) budget s)
  operation-Returns r f k s zero b = absurd (omega (arith, b))
  operation-Returns r f k s (suc budget) b = omega (arith, b)

  close_and_fail-Returns :
      (message : Str) (code : ℕ) (s : S) (budget : ℕ)
      → 2 ≤ budget
      → Returns 0 (close_and_fail fs message code budget s)
  close_and_fail-Returns message code s zero b = absurd (omega (arith, b))
  close_and_fail-Returns message code s (suc budget) b =
      operation-Returns (failure message code) fs.remove_temp 0 (fs.close_temp s).0 budget
        (omega (arith, b))

  finish-Returns :
      (target parent tmp : Str) (s : S) (budget : ℕ)
      → 6 ≤ budget
      → Returns 0 (finish fs target parent tmp budget s)
  unfolding finish sync_dir
  finish-Returns target parent tmp s budget b =
      check-Returns 5 0 fs.fsync_temp _ _ s budget b
        (λ e s budget b. close_and_fail-Returns _ e s budget (omega (arith, b)))
        (λ s budget b.
          check-Returns 4 0 fs.close_temp _ _ s budget b
            (λ e s budget b. operation-Returns _ fs.remove_temp 0 s budget (omega (arith, b)))
            (λ s budget b.
              check-Returns 3 0 fs.rename _ _ s budget b
                (λ e s budget b. operation-Returns _ fs.remove_temp 0 s budget (omega (arith, b)))
                (λ s budget b.
                  check-Returns 2 0 fs.open_dir _ _ s budget b (λ e s budget b. omega arith)
                    (λ s budget b.
                      check-Returns 1 0 fs.fsync_dir _ _ s budget b
                        (λ e s budget b. quietly-Returns _ fs.close_dir 0 s budget b)
                        (λ s budget b. quietly-Returns none fs.close_dir 0 s budget b)))))

  -- How much is left to write, and how often writing may still come to nothing.
  abbrev burden : Str → S → ℕ
  burden rest s = length rest + fs.patience s

  write-burden :
      (fuel : ℕ) (c : ℕ) (cs : Str) (s : S) (w : Wrote) (loop : Str → Program S (Option ℕ))
      (k budget : ℕ)
      → (fs.write (c ∷ cs) s).1 ≡ w
      → burden (c ∷ cs) s < suc fuel
      → fuel + k ≤ budget
      → ((p : Str) (t : S) → burden p t < fuel → Returns k (loop p budget t))
      → Returns k (continue_writing fs loop (c ∷ cs) w budget (fs.write (c ∷ cs) s).0)
  write-burden fuel c cs s (wrote zero) loop k budget e h b g =
      g (c ∷ cs) (fs.write (c ∷ cs) s).0 (omega (arith, h, patient.wrote_nothing (c ∷ cs) s e))
  write-burden fuel c cs s (wrote (suc n)) loop k budget e h b g =
      g (drop n cs) (fs.write (c ∷ cs) s).0
        (omega (arith, h, length-drop n cs, patient.progress (c ∷ cs) s (suc n) e))
  write-burden fuel c cs s interrupted loop k budget e h b g =
      g (c ∷ cs) (fs.write (c ∷ cs) s).0 (omega (arith, h, patient.was_interrupted (c ∷ cs) s e))
  write-burden fuel c cs s (failed code) loop k budget e h b g = omega (arith, b)

  write_loop-Returns :
      (fuel : ℕ) (rest : Str) (k budget : ℕ) (s : S)
      → burden rest s < fuel
      → fuel + k ≤ budget
      → Returns k (write_loop fs fuel rest budget s)
  unfolding write_loop
  write_loop-Returns fuel [] k budget s h b = omega (arith, b)
  write_loop-Returns zero (c ∷ cs) k budget s h b = absurd (omega (arith, h))
  write_loop-Returns (suc fuel) (c ∷ cs) k zero s h b = absurd (omega (arith, b))
  write_loop-Returns (suc fuel) (c ∷ cs) k (suc budget) s h b =
      write-burden fuel c cs s (fs.write (c ∷ cs) s).1 (write_loop fs fuel) k budget refl h
        (omega (arith, b)) (λ p t q. write_loop-Returns fuel p k budget t q (omega (arith, b)))

  written_or_failed-Returns :
      (target parent tmp : Str) (e : Option ℕ) (s : S) (budget : ℕ)
      → 6 ≤ budget
      → Returns 0 (written_or_failed fs target parent tmp e budget s)
  written_or_failed-Returns target parent tmp none s budget b =
      finish-Returns target parent tmp s budget b
  written_or_failed-Returns target parent tmp (some e) s budget b =
      close_and_fail-Returns _ e s budget (omega (arith, b))

  opened-Returns :
      (e : Option ℕ) (handler : ℕ → Program S AtomicFileResult) (next : Program S AtomicFileResult)
      (budget : ℕ) (s : S)
      → ((code : ℕ) → 6 ≤ budget → Returns 0 (handler code budget s))
      → (6 ≤ budget → Returns 0 (next budget s))
      → 6 ≤ budget
      → Returns 0 (otherwise e handler next budget s)
  opened-Returns none handler next budget s h n b = n b
  opened-Returns (some e) handler next budget s h n b = h e b

  -- Where writing comes to nothing only finitely often and the power stays on, the function returns:
  -- fuel for every byte and every idle write, and seven operations besides the writes, are enough.
  pub atomic_write_file-Returns :
      (fuel pid budget : ℕ) (target parent content : Str) (s : S)
      → length content + fs.patience (fs.open_temp s).0 < fuel
      → fuel + 7 ≤ budget
      → Returns 0 (atomic_write_file fs fuel pid target parent content budget s)
  unfolding atomic_write_file
  atomic_write_file-Returns fuel pid zero target parent content s h b = absurd (omega (arith, b))
  atomic_write_file-Returns fuel pid (suc budget) target parent content s h b =
      opened-Returns (fs.open_temp s).1 _ _ budget (fs.open_temp s).0 (λ e c. omega (arith, c))
        (λ c.
          continue-Returns 6 0 (write_loop fs fuel content budget (fs.open_temp s).0) _
            (write_loop-Returns fuel content 6 budget (fs.open_temp s).0 h (omega (arith, b)))
            (λ e t c. written_or_failed-Returns target _ _ e t c))
        (omega (arith, b))
