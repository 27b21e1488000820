-- ===== src/Examples/Disk.antt =====
-- A disk that takes one byte at a time, and the snapshot that is written to it.
use edge_healthd.Prelude.{
  ℕ, ◌≤◌, ◌<◌, ◌≡◌, refl, ap, ◌∙◌, ◌⊎◌, inl, inr, Option, none, some, [], ◌∷◌, ◌++◌, Str, str,
  length, take, arith,
}
use edge_healthd.Storage.FileSystem.{
  FileSystem, Wrote, wrote, interrupted, failed, IsUnseen, IsPosix, IsPatient,
}
use edge_healthd.Storage.Outcome.{Holds, Returns}
use edge_healthd.Storage.AtomicFile.{atomic_write_file}
use edge_healthd.Storage.AtomicFile.Crash.{IsSafe, Promise, atomic_write_file-IsSafe}
use edge_healthd.Storage.AtomicFile.Terminates.{atomic_write_file-Returns}
use edge_healthd.Storage.Writer.{write}
use edge_healthd.Storage.Writer.Safe.{Reported, write-IsSafe}

-- The temporary file, the target, and what is on the disk under its name.
record Disk : Type 0 where
  temp : Option Str
  target : Option Str
  durable : Option Str

abbrev append : Option Str → ℕ → Option Str
append none c = none
append (some t) c = some (t ++ (c ∷ []))

abbrev write_byte : Str → Disk → Disk × Wrote
write_byte [] d = (d, failed 22)
write_byte (c ∷ cs) d = (record d { temp = append d.temp c }, wrote 1)

-- Renaming without a temporary file fails.
abbrev rename_to : Option Str → Disk → Disk × Option ℕ
rename_to none d = (d, some 2)
rename_to (some t) d = (record { temp = none; target = some t; durable = d.durable }, none)

abbrev disk_system : FileSystem Disk
disk_system = record {
  open_temp = λ d. (record d { temp = some [] }, none);
  write = write_byte;
  fsync_temp = λ d. (d, none);
  close_temp = λ d. (d, none);
  rename = λ d. rename_to d.temp d;
  remove_temp = λ d. (record d { temp = none }, none);
  open_dir = λ d. (d, none);
  fsync_dir = λ d. (record d { durable = d.target }, none);
  close_dir = λ d. d;
  temp = λ d. d.temp;
  is_synced = λ d. Unit;
  is_target_synced = λ d. Unit;
  target = λ d. d.target;
  survives = λ d x. (x ≡ d.durable) ⊎ (x ≡ d.target);
  patience = λ d. 0;
}

unseen_self : (d : Disk) → IsUnseen disk_system d d
unseen_self d = record { target = refl; survives = λ x p. p }

unseen_write : (p : Str) (d : Disk) → IsUnseen disk_system d (write_byte p d).0
unseen_write [] d = unseen_self d
unseen_write (c ∷ cs) d = record { target = refl; survives = λ x p. p }

written_byte :
    (p c : Str) (d : Disk) (n : ℕ)
    → d.temp ≡ some c
    → (write_byte p d).1 ≡ wrote n
    → (n ≤ length p) × ((write_byte p d).0.temp ≡ some (c ++ take n p))
written_byte [] c d n e w = absurd (ground (arith, w))
written_byte (b ∷ bs) c d n e w =
    let one : ◌≡◌ {A = ℕ} 1 n = ground (arith, w) in
    (
      omega (arith, one),
      ap (λ (t : Option Str). append t b) e ∙ ap (λ (k : ℕ). some (c ++ take k (b ∷ bs))) one,
    )

unwritten_byte :
    (p : Str) (d : Disk) → (write_byte p d).1 ≡ interrupted → (write_byte p d).0.temp ≡ d.temp
unwritten_byte [] d w = refl
unwritten_byte (b ∷ bs) d w = absurd (ground (arith, w))

rename_fails :
    (t : Option Str) (d : Disk) (e : ℕ)
    → (rename_to t d).1 ≡ some e
    → IsUnseen disk_system d (rename_to t d).0
rename_fails none d e r = unseen_self d
rename_fails (some t) d e r = absurd (ground (arith, r))

renames :
    (t : Option Str) (d : Disk) (c : Str)
    → (rename_to t d).1 ≡ none
    → t ≡ some c
    → ((rename_to t d).0.temp ≡ none)
      × ((rename_to t d).0.target ≡ some c)
      × Unit {0}
      × ((x : Option Str)
          → (x ≡ (rename_to t d).0.durable) ⊎ (x ≡ (rename_to t d).0.target)
          → ((x ≡ d.durable) ⊎ (x ≡ d.target)) ⊎ (x ≡ some c))
renames none d c r e = absurd (ground (arith, r))
renames (some t) d c r e =
    (refl, e, tt, λ x p. elim p [ inl a ↦ inl (inl a) | inr b ↦ inr (b ∙ e) ])

disk-IsPosix : IsPosix disk_system
disk-IsPosix = record {
  open_unseen = λ d. record { target = refl; survives = λ x p. p };
  unopened = λ d e r. absurd (ground (arith, r));
  opened = λ d r. refl;
  write_unseen = unseen_write;
  written = written_byte;
  unwritten = unwritten_byte;
  fsync_unseen = unseen_self;
  fsync_temp = λ d. refl;
  synced = λ d r. tt;
  close_unseen = unseen_self;
  close_temp = λ d. refl;
  close_synced = λ d r. tt;
  rename_failed = λ d e r. rename_fails d.temp d e r;
  renamed = λ d c r e y. renames d.temp d c r e;
  remove_unseen = λ d. record { target = refl; survives = λ x p. p };
  removed = λ d r. refl;
  open_dir_temp = λ d. refl;
  fsync_dir_temp = λ d. refl;
  close_dir_temp = λ d. refl;
  open_dir_synced = λ d y. tt;
  open_dir_unseen = unseen_self;
  fsync_dir_unseen =
      λ d. record { target = refl; survives = λ x p. elim p [ inl a ↦ inr a | inr b ↦ inr b ] };
  dir_synced = λ d y r x p. elim p [ inl a ↦ a | inr b ↦ b ];
  close_dir_unseen = unseen_self;
}

no_idle_write : (p : Str) (d : Disk) → (write_byte p d).1 ≡ wrote 0 → 0 < 0
no_idle_write [] d w = absurd (ground (arith, w))
no_idle_write (c ∷ cs) d w = absurd (ground (arith, w))

no_interrupt : (p : Str) (d : Disk) → (write_byte p d).1 ≡ interrupted → 0 < 0
no_interrupt [] d w = absurd (ground (arith, w))
no_interrupt (c ∷ cs) d w = absurd (ground (arith, w))

disk-IsPatient : IsPatient disk_system
disk-IsPatient = record {
  progress = λ p d n w. omega arith;
  wrote_nothing = no_idle_write;
  was_interrupted = no_interrupt;
}

abbrev old_disk : Disk
old_disk = record { temp = none; target = some (str "{}"); durable = some (str "{}") }

abbrev snapshot_file : Str
snapshot_file = str "/run/health/state.json"

abbrev new_text : Str
new_text = str "{\"cycle\":1}"

-- The power goes out after the fourth operation.
atomic_write_file-IsSafe_example :
    Holds
      (IsSafe disk_system disk-IsPosix old_disk new_text)
      (Promise disk_system disk-IsPosix old_disk new_text)
      (atomic_write_file disk_system 20 7 snapshot_file (str "/run/health") new_text 4 old_disk)
atomic_write_file-IsSafe_example =
    atomic_write_file-IsSafe disk_system disk-IsPosix old_disk new_text 20 7 4 snapshot_file
      (str "/run/health")

atomic_write_file-Returns_example :
    Returns 0
      (atomic_write_file disk_system 20 7 snapshot_file (str "/run/health") new_text 27 old_disk)
unfolding str
atomic_write_file-Returns_example =
    atomic_write_file-Returns disk_system disk-IsPatient 20 7 27 snapshot_file (str "/run/health")
      new_text old_disk (omega arith) (omega arith)

abbrev directory_exists : Disk → Disk × Option ℕ
directory_exists d = (d, none)

write-IsSafe_example :
    Holds
      (IsSafe disk_system disk-IsPosix old_disk new_text)
      (Reported disk_system disk-IsPosix directory_exists unseen_self old_disk new_text)
      (write disk_system directory_exists 20 7 snapshot_file
        (str "/run/health")
        new_text
        30
        old_disk)
write-IsSafe_example =
    write-IsSafe disk_system disk-IsPosix directory_exists unseen_self old_disk new_text 20 7 30
      snapshot_file (str "/run/health")
