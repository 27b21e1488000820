-- ===== src/Probe/Crash/Reached.antt =====
-- Which entries of the directory CrashProbe finds to be panics of this boot.
use edge_healthd.Prelude.{
  ℕ, ◌≤◌, ◌↔◌, ◌≡◌, ◌≢◌, refl, sym, ◌∙◌, ap, Bool, true, false, ◌&&◌, ◌||◌, ◌⊎◌, inl, inr, Option,
  none, some, List, [], ◌∷◌, ◌++◌, All, any, str, str_eq, starts_with, Bool-cases, arith,
}
use mathlib.Core.Path.{subst}
use edge_healthd.Types.Sections.{CrashArtifact}
use edge_healthd.Probe.Crash.{
  FileKind, regular, not_regular, check_failed, FileTime, file_time_to_system_clock, converted,
  DirEntry, is_panic_artifact_name, artifact_of, scan_entry, scan, is_panic, is_current,
}

-- A time that is not before the start of the boot, or is not known.
abbrev pub IsSince : ℕ → Option FileTime → Type 0
IsSince boot_start none = Unit
IsSince boot_start (some t) = boot_start ≤ file_time_to_system_clock t

-- A regular file with the name of a kernel fault, of this boot or of unknown time.
abbrev pub IsFault : ℕ → DirEntry → Type 0
IsFault boot_start e =
    (e.kind ≡ regular)
    × ((starts_with (str "dmesg-") e.name ≡ true) ⊎ (starts_with (str "dump-") e.name ≡ true))
    × IsSince boot_start e.mtime

abbrev pub IsChecked : DirEntry → Type 0
IsChecked e = e.kind ≢ check_failed

-- There is a fault, and no entry before it on which the check fails.
abbrev pub HasFault : ℕ → List DirEntry → Type 0
HasFault boot_start es =
    (before : List DirEntry) × (e : DirEntry) × (after : List DirEntry) × (es
      ≡ before ++ (e ∷ after))
    × All IsChecked before
    × IsFault boot_start e

abbrev pub is_current_panic : ℕ → CrashArtifact → Bool
is_current_panic boot_start a = is_panic a && is_current boot_start a.mtime

is_panic-artifact_of : (e : DirEntry) → is_panic (artifact_of e) ≡ is_panic_artifact_name e.name
unfolding str_eq str
is_panic-artifact_of e = elim (Bool-cases (is_panic_artifact_name e.name)) [
  | inl h ↦ rw h refl
  | inr h ↦ rw h refl
]

is_current_iff :
    (boot_start : ℕ) (t : Option FileTime)
    → (is_current boot_start (converted t) ≡ true) ↔ IsSince boot_start t
is_current_iff boot_start none = ground arith
is_current_iff boot_start (some t) = ground arith

and_iff :
    {P Q : Type 0} (a b : Bool) → (a ≡ true) ↔ P → (b ≡ true) ↔ Q → ((a && b) ≡ true) ↔ (P × Q)
and_iff true b p q = ground arith
and_iff false b p q = ground arith

or_iff : (a b : Bool) → ((a || b) ≡ true) ↔ ((a ≡ true) ⊎ (b ≡ true))
or_iff a b = ground arith

is_current_panic_iff :
    (boot_start : ℕ) (e : DirEntry)
    → (is_current_panic boot_start (artifact_of e) ≡ true) ↔ (
        ((starts_with (str "dmesg-") e.name ≡ true) ⊎ (starts_with (str "dump-") e.name ≡ true))
        × IsSince boot_start e.mtime)
is_current_panic_iff boot_start e =
    and_iff _ _ (rw (is_panic-artifact_of e) (or_iff _ _)) (is_current_iff boot_start e.mtime)

HasFault-later :
    (boot_start : ℕ) (e : DirEntry) (es : List DirEntry)
    → IsChecked e
    → HasFault boot_start es
    → HasFault boot_start (e ∷ es)
HasFault-later boot_start e es c (before, f, after, q, cs, h) =
    (e ∷ before, f, after, ap (λ t. e ∷ t) q, (c, cs), h)

scan_entry-HasFault :
    (boot_start : ℕ) (e : DirEntry) (es : List DirEntry) (k : FileKind)
    → e.kind ≡ k
    → (any (is_current_panic boot_start) (scan es) ≡ true → HasFault boot_start es)
    → any (is_current_panic boot_start) (scan_entry k (artifact_of e) (scan es)) ≡ true
    → HasFault boot_start (e ∷ es)
scan_entry-HasFault boot_start e es regular q ih h =
    elim (Bool-cases (is_current_panic boot_start (artifact_of e))) [
      | inl p ↦
          let (n, t) = (is_current_panic_iff boot_start e).0 p in ([], e, es, refl, tt, (q, n, t))
      | inr p ↦
          HasFault-later boot_start e es (λ w. absurd (ground (arith, q, w)))
            (ih (ground (arith, p, h)))
    ]
scan_entry-HasFault boot_start e es not_regular q ih h =
    HasFault-later boot_start e es (λ w. absurd (ground (arith, q, w))) (ih h)
scan_entry-HasFault boot_start e es check_failed q ih h = absurd (ground (arith, h))

scan-HasFault :
    (boot_start : ℕ) (es : List DirEntry)
    → any (is_current_panic boot_start) (scan es) ≡ true
    → HasFault boot_start es
unfolding scan
scan-HasFault boot_start [] h = absurd (ground (arith, h))
scan-HasFault boot_start (e ∷ es) h =
    scan_entry-HasFault boot_start e es e.kind refl (scan-HasFault boot_start es) h

scan_entry-any :
    (boot_start : ℕ) (e : DirEntry) (es : List DirEntry) (k : FileKind)
    → e.kind ≡ k
    → IsChecked e
    → any (is_current_panic boot_start) (scan es) ≡ true
    → any (is_current_panic boot_start) (scan_entry k (artifact_of e) (scan es)) ≡ true
scan_entry-any boot_start e es regular q c h = ground (arith, h)
scan_entry-any boot_start e es not_regular q c h = h
scan_entry-any boot_start e es check_failed q c h = absurd (c q)

fault-any :
    (boot_start : ℕ) (before : List DirEntry) (e : DirEntry) (after : List DirEntry)
    → All IsChecked before
    → IsFault boot_start e
    → any (is_current_panic boot_start) (scan (before ++ (e ∷ after))) ≡ true
unfolding scan
fault-any boot_start [] e after c (q, n, t) =
    let p = (is_current_panic_iff boot_start e).1 (n, t) in
    subst
      (λ k. any (is_current_panic boot_start) (scan_entry k (artifact_of e) (scan after)) ≡ true)
      (sym q) (ground (arith, p))
fault-any boot_start (b ∷ bs) e after (c, cs) f =
    scan_entry-any boot_start b (bs ++ (e ∷ after)) b.kind refl c
      (fault-any boot_start bs e after cs f)

pub scan_iff :
    (boot_start : ℕ) (es : List DirEntry)
    → (any (is_current_panic boot_start) (scan es) ≡ true) ↔ HasFault boot_start es
scan_iff boot_start es = (
  scan-HasFault boot_start es,
  λ (before, e, after, q, c, f).
      ap (λ t. any (is_current_panic boot_start) (scan t)) q
      ∙ fault-any boot_start before e after c f,
)
