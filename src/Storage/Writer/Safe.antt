-- ===== src/Storage/Writer/Safe.antt =====
-- SnapshotWriter::write() keeps what atomic_write_file() promises, also where the directory fails.
use edge_healthd.Prelude.{ℕ, zero, suc, ◌≡◌, refl, ◌∙◌, inl, inr, Option, none, some, Str}
use edge_healthd.Storage.FileSystem.{FileSystem, IsUnseen, IsPosix}
use edge_healthd.Storage.Outcome.{Outcome, done, cut, looping, Holds, continue, return, otherwise}
use edge_healthd.Storage.AtomicFile.{AtomicFileResult, atomic_write_file}
use edge_healthd.Storage.AtomicFile.Crash.{IsSafe, Promise, atomic_write_file-IsSafe}
use edge_healthd.Storage.Writer.{WriterResult, of_file, write_atomic, write}

module _ {S : Type 0} (fs : FileSystem S) (posix : IsPosix fs)
    (create_directories : S → S × Option ℕ)
    (unseen : (s : S) → IsUnseen fs s (create_directories s).0) (s₀ : S) (content : Str) where
  -- What the writer's result says of the files.
  abbrev pub Reported : WriterResult → S → Type 0
  Reported none s =
      (fs.target s ≡ some content) × ((x : Option Str) → fs.survives s x → x ≡ some content)
  Reported (some e) s = IsSafe fs posix s₀ content s

  -- A file that is safe after unseen steps was safe before them.
  IsSafe-before :
      (s₁ s : S) → IsUnseen fs s₀ s₁ → IsSafe fs posix s₁ content s → IsSafe fs posix s₀ content s
  IsSafe-before s₁ s u (inl v) =
      inl (record { target = v.target ∙ u.target; survives = λ x p. u.survives x (v.survives x p) })
  IsSafe-before s₁ s u (inr (t, v)) =
      inr (t, λ x p. elim (v x p) [ inl a ↦ inl (u.survives x a) | inr e ↦ inr e ])

  file-Reported :
      (s₁ : S) (u : IsUnseen fs s₀ s₁) (r : AtomicFileResult) (s : S)
      → Promise fs posix s₁ content r s
      → Reported (of_file r) s
  file-Reported s₁ u none s p = p
  file-Reported s₁ u (some e) s p = IsSafe-before s₁ s u p.0

  Holds-before :
      (s₁ : S) (u : IsUnseen fs s₀ s₁) (o : Outcome S AtomicFileResult)
      → Holds (IsSafe fs posix s₁ content) (Promise fs posix s₁ content) o
      → Holds (IsSafe fs posix s₀ content) Reported (continue o (λ r. return (of_file r)))
  Holds-before s₁ u (done r s budget) h = file-Reported s₁ u r s h
  Holds-before s₁ u (cut s) h = IsSafe-before s₁ s u h
  Holds-before s₁ u (looping s) h = IsSafe-before s₁ s u h

  created-Reported :
      (e : Option ℕ) (fuel pid budget : ℕ) (target parent message : Str) (s₁ : S)
      → IsUnseen fs s₀ s₁
      → Holds (IsSafe fs posix s₀ content) Reported (
          otherwise e
            (λ code. return (some (record { message = message; code = code })))
            (write_atomic fs create_directories fuel pid target parent content)
            budget
            s₁)
  unfolding write_atomic
  created-Reported none fuel pid budget target parent message s₁ u =
      Holds-before s₁ u (atomic_write_file fs fuel pid target parent content budget s₁)
        (atomic_write_file-IsSafe fs posix s₁ content fuel pid budget target parent)
  created-Reported (some e) fuel pid budget target parent message s₁ u = inl u

  -- Wherever the power goes out, and whatever fails, the directories included: a reader finds the
  -- old snapshot or the whole new one; where the writer reports success, only the new one is found,
  -- after a power cut too.
  pub write-IsSafe :
      (fuel pid budget : ℕ) (target parent : Str)
      → Holds
          (IsSafe fs posix s₀ content)
          Reported
          (write fs create_directories fuel pid target parent content budget s₀)
  unfolding write
  write-IsSafe fuel pid zero target parent = inl (record { target = refl; survives = λ x p. p })
  write-IsSafe fuel pid (suc budget) target parent =
      created-Reported (create_directories s₀).1 fuel pid budget target parent _
        (create_directories s₀).0 (unseen s₀)
