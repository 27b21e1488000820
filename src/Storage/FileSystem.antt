-- ===== src/Storage/FileSystem.antt =====
-- The file operations of POSIX that src/atomic_file.cpp uses, on the temporary file, the target and
-- their directory: a parameter with the behaviour that their documentation states. An operation
-- answers with the number of the error, if there is one.
use edge_healthd.Prelude.{ℕ, ◌≤◌, ◌<◌, ◌≡◌, ◌++◌, ◌⊎◌, Option, none, some, [], Str, length, take}

-- What write(2) answers: how many bytes it took, EINTR, or another error.
pub data Wrote : Type 0 where
  wrote : ℕ → Wrote
  interrupted : Wrote
  failed : ℕ → Wrote

pub record FileSystem (S : Type 0) : Type 1 where
  pub open_temp : S → S × Option ℕ
  pub write : Str → S → S × Wrote
  pub fsync_temp : S → S × Option ℕ
  pub close_temp : S → S × Option ℕ
  pub rename : S → S × Option ℕ
  pub remove_temp : S → S × Option ℕ
  pub open_dir : S → S × Option ℕ
  pub fsync_dir : S → S × Option ℕ
  pub close_dir : S → S
  -- the contents of the temporary file, and whether they are on the disk
  pub temp : S → Option Str
  pub is_synced : S → Type 0
  -- whether the contents of the file under the target's name are on the disk
  pub is_target_synced : S → Type 0
  -- what a reader finds under the target's name
  pub target : S → Option Str
  -- what may be found there after a power cut
  pub survives : S → Option Str → Type 0
  -- how often writing can still come to nothing
  pub patience : S → ℕ

-- An operation that is not seen under the target's name.
pub record IsUnseen {S : Type 0} (fs : FileSystem S) (s s' : S) : Type 0 where
  pub target : fs.target s' ≡ fs.target s
  pub survives : (x : Option Str) → fs.survives s' x → fs.survives s x

pub record IsPosix {S : Type 0} (fs : FileSystem S) : Type 0 where
  -- O_CREAT | O_TRUNC: an empty file
  pub open_unseen : (s : S) → IsUnseen fs s (fs.open_temp s).0
  pub unopened :
      (s : S) (e : ℕ) → (fs.open_temp s).1 ≡ some e → fs.temp (fs.open_temp s).0 ≡ fs.temp s
  pub opened : (s : S) → (fs.open_temp s).1 ≡ none → fs.temp (fs.open_temp s).0 ≡ some []
  -- the bytes taken are the first ones, and they are appended
  pub write_unseen : (p : Str) (s : S) → IsUnseen fs s (fs.write p s).0
  pub written :
      (p c : Str) (s : S) (n : ℕ)
      → fs.temp s ≡ some c
      → (fs.write p s).1 ≡ wrote n
      → (n ≤ length p) × (fs.temp (fs.write p s).0 ≡ some (c ++ take n p))
  pub unwritten :
      (p : Str) (s : S) → (fs.write p s).1 ≡ interrupted → fs.temp (fs.write p s).0 ≡ fs.temp s
  -- fsync returns once the contents are on the disk
  pub fsync_unseen : (s : S) → IsUnseen fs s (fs.fsync_temp s).0
  pub fsync_temp : (s : S) → fs.temp (fs.fsync_temp s).0 ≡ fs.temp s
  pub synced : (s : S) → (fs.fsync_temp s).1 ≡ none → fs.is_synced (fs.fsync_temp s).0
  pub close_unseen : (s : S) → IsUnseen fs s (fs.close_temp s).0
  pub close_temp : (s : S) → fs.temp (fs.close_temp s).0 ≡ fs.temp s
  pub close_synced : (s : S) → fs.is_synced s → fs.is_synced (fs.close_temp s).0
  -- rename replaces the target at once or not at all; until the directory is on the disk, a power
  -- cut may leave the old or the new file, whose contents are those on the disk
  pub rename_failed : (s : S) (e : ℕ) → (fs.rename s).1 ≡ some e → IsUnseen fs s (fs.rename s).0
  pub renamed :
      (s : S) (c : Str)
      → (fs.rename s).1 ≡ none
      → fs.temp s ≡ some c
      → fs.is_synced s
      → (fs.temp (fs.rename s).0 ≡ none)
        × (fs.target (fs.rename s).0 ≡ some c)
        × fs.is_target_synced (fs.rename s).0
        × ((x : Option Str) → fs.survives (fs.rename s).0 x → fs.survives s x ⊎ (x ≡ some c))
  pub remove_unseen : (s : S) → IsUnseen fs s (fs.remove_temp s).0
  pub removed : (s : S) → (fs.remove_temp s).1 ≡ none → fs.temp (fs.remove_temp s).0 ≡ none
  pub open_dir_temp : (s : S) → fs.temp (fs.open_dir s).0 ≡ fs.temp s
  pub fsync_dir_temp : (s : S) → fs.temp (fs.fsync_dir s).0 ≡ fs.temp s
  pub close_dir_temp : (s : S) → fs.temp (fs.close_dir s) ≡ fs.temp s
  pub open_dir_synced : (s : S) → fs.is_target_synced s → fs.is_target_synced (fs.open_dir s).0
  pub open_dir_unseen : (s : S) → IsUnseen fs s (fs.open_dir s).0
  pub fsync_dir_unseen : (s : S) → IsUnseen fs s (fs.fsync_dir s).0
  -- fsync of the directory puts the entry of the target on the disk; where the contents of the file
  -- are there too, nothing else is left to be found
  pub dir_synced :
      (s : S)
      → fs.is_target_synced s
      → (fs.fsync_dir s).1 ≡ none
      → (x : Option Str) → fs.survives (fs.fsync_dir s).0 x
      → x ≡ fs.target (fs.fsync_dir s).0
  pub close_dir_unseen : (s : S) → IsUnseen fs s (fs.close_dir s)

-- The kernel does not interrupt writing, or take nothing, for ever.
pub record IsPatient {S : Type 0} (fs : FileSystem S) : Type 0 where
  pub progress :
      (p : Str) (s : S) (n : ℕ)
      → (fs.write p s).1 ≡ wrote n
      → fs.patience (fs.write p s).0 ≤ fs.patience s
  pub wrote_nothing :
      (p : Str) (s : S) → (fs.write p s).1 ≡ wrote 0 → fs.patience (fs.write p s).0 < fs.patience s
  pub was_interrupted :
      (p : Str) (s : S)
      → (fs.write p s).1 ≡ interrupted
      → fs.patience (fs.write p s).0 < fs.patience s
