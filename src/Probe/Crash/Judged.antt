-- ===== src/Probe/Crash/Judged.antt =====
-- How the aggregator judges what CrashProbe collects.
use edge_healthd.Prelude.{
  ℕ, suc, ◌^◌, ◌≤◌, ◌<◌, ◌↔◌, ◌≡◌, refl, ◌∙◌, ap, Bool, true, false, ◌&&◌, ◌||◌, Option, some, List,
  [], ◌∷◌, length, any, Str, opt_str_eq, inl, inr, Bool-cases, arith,
}
use edge_healthd.Types.Enums.{Severity}
use edge_healthd.Types.Sections.{CrashArtifact, CrashStatus}
use edge_healthd.Aggregator.Evaluate.{evaluate_crash}
use edge_healthd.Probe.Crash.Reached.{HasFault, is_current_panic, scan_iff}
use edge_healthd.Probe.Crash.{
  DirEntry, scan, str_lt, insert_by_name, sort_by_name, is_panic, panics, is_current, judge,
  collect,
}

or_swap : (a b c : Bool) → (a || (b || c)) ≡ (b || (a || c))
or_swap a b c = ground arith

any-insert_by_name :
    (p : CrashArtifact → Bool) (a : CrashArtifact) (xs : List CrashArtifact)
    → any p (insert_by_name a xs) ≡ (p a || any p xs)
unfolding insert_by_name
any-insert_by_name p a [] = refl
any-insert_by_name p a (b ∷ bs) = elim (Bool-cases (str_lt b.name a.name)) [
  | inl h ↦ rw (h, any-insert_by_name p a bs) (or_swap (p b) (p a) (any p bs))
  | inr h ↦ rw h refl
]

any-sort_by_name :
    (p : CrashArtifact → Bool) (xs : List CrashArtifact) → any p (sort_by_name xs) ≡ any p xs
unfolding sort_by_name
any-sort_by_name p [] = refl
any-sort_by_name p (a ∷ xs) =
    any-insert_by_name p a (sort_by_name xs) ∙ ap (λ b. p a || b) (any-sort_by_name p xs)

any-panics :
    (p : CrashArtifact → Bool) (xs : List CrashArtifact)
    → any p (panics xs) ≡ any (λ a. is_panic a && p a) xs
unfolding panics
any-panics p [] = refl
any-panics p (a ∷ xs) = elim (Bool-cases (is_panic a)) [
  | inl h ↦ rw h (ap (λ b. p a || b) (any-panics p xs))
  | inr h ↦ rw h (any-panics p xs)
]

evaluate_judged :
    (boot_start : ℕ) (ack : Option Str) (xs ps : List CrashArtifact) (status : CrashStatus)
    → status.panic_count ≡ length ps
    → (evaluate_crash (judge boot_start ack xs ps status) ≡ Severity.crit) ↔ (
        (any (λ a. is_current boot_start a.mtime) ps ≡ true)
        × (opt_str_eq ack (judge boot_start ack xs ps status).fingerprint ≡ false))
unfolding evaluate_crash judge
evaluate_judged boot_start ack xs [] status h = ground arith
evaluate_judged boot_start ack xs (p ∷ ps) status h = ground arith

length-scan : (es : List DirEntry) → length (scan es) ≤ length es
unfolding scan
length-scan [] = omega arith
length-scan (e ∷ es) = ground (arith, length-scan es)

length-insert_by_name :
    (a : CrashArtifact) (xs : List CrashArtifact) → length (insert_by_name a xs) ≡ suc (length xs)
unfolding insert_by_name
length-insert_by_name a [] = refl
length-insert_by_name a (b ∷ bs) = elim (Bool-cases (str_lt b.name a.name)) [
  | inl h ↦ rw h (ap suc (length-insert_by_name a bs))
  | inr h ↦ rw h refl
]

length-sort_by_name : (xs : List CrashArtifact) → length (sort_by_name xs) ≡ length xs
unfolding sort_by_name
length-sort_by_name [] = refl
length-sort_by_name (a ∷ xs) =
    length-insert_by_name a (sort_by_name xs) ∙ ap suc (length-sort_by_name xs)

length-panics : (xs : List CrashArtifact) → length (panics xs) ≤ length xs
unfolding panics
length-panics [] = omega arith
length-panics (a ∷ xs) = ground (arith, length-panics xs)

-- The panic artifacts of a directory, in the order of their names.
abbrev pub panics_in : List DirEntry → List CrashArtifact
panics_in es = panics (sort_by_name (scan es))

length-panics_in : (es : List DirEntry) → length (panics_in es) ≤ length es
length-panics_in es =
    omega
      (arith, length-panics (sort_by_name (scan es)), length-sort_by_name (scan es), length-scan es)

any-panics_in :
    (boot_start : ℕ) (es : List DirEntry)
    → any (λ a. is_current boot_start a.mtime) (panics_in es)
      ≡ any (is_current_panic boot_start) (scan es)
any-panics_in boot_start es =
    any-panics (λ a. is_current boot_start a.mtime) (sort_by_name (scan es))
    ∙ any-sort_by_name (is_current_panic boot_start) (scan es)

and_left : {P Q R S : Type 0} → P ↔ (Q × R) → Q ↔ S → P ↔ (S × R)
and_left (f, g) (h, k) = (λ p. (h (f p).0, (f p).1), λ s. g (k s.0, s.1))

-- The crash domain is critical, before staleness, exactly if the directory has a regular file with
-- the name of a kernel fault, of this boot or of unknown time, before which no check of an entry
-- fails, and the fingerprint that the probe reports is not the acknowledged one. The directory has
-- fewer than 2^32 entries.
pub evaluate_crash-collect :
    (boot_start : ℕ) (es : List DirEntry) (ack : Option Str)
    → length es < 2 ^ 32
    → (evaluate_crash (collect boot_start (some es) ack) ≡ Severity.crit) ↔ (
        HasFault boot_start es
        × (opt_str_eq ack (collect boot_start (some es) ack).fingerprint ≡ false))
unfolding collect
evaluate_crash-collect boot_start es ack h =
    and_left
      (rw (← any-panics_in boot_start es) (
        evaluate_judged boot_start ack (sort_by_name (scan es)) (panics_in es) _
          (omega (arith, length-panics_in es))))
      (scan_iff boot_start es)
