-- ===== src/Probe/Crash/Alike.antt =====
-- Directories whose files have the same fingerprint, though their times were converted at other
-- readings of the clocks.
use edge_healthd.Prelude.{
  ℕ, ◌/◌, ◌≡◌, refl, sym, ◌∙◌, ap, Option, none, some, List, [], ◌∷◌, ◌++◌, Str, str, str_eq,
  to_string, value_or, Bool-cases, inl, inr, if◌then◌else◌,
}
use mathlib.Core.Path.{subst}
use edge_healthd.Types.Sections.{CrashArtifact}
use edge_healthd.Probe.Crash.{
  FileKind, regular, not_regular, check_failed, converted, DirEntry, is_panic_artifact_name,
  artifact_of, scan_entry, scan, str_lt, insert_by_name, sort_by_name, is_panic, panics,
  seconds_text, fingerprint_line, hash_bytes, hash_lines, hex_digits, compute_fingerprint,
}

abbrev pub Pointwise : {A : Type 0} → (A → A → Type 0) → List A → List A → Type 0
Pointwise R [] [] = Unit
Pointwise R [] (y ∷ ys) = ⊥
Pointwise R (x ∷ xs) [] = ⊥
Pointwise R (x ∷ xs) (y ∷ ys) = R x y × Pointwise R xs ys

-- Two times in the same second.
abbrev pub SameSecond : Option ℕ → Option ℕ → Type 0
SameSecond none none = Unit
SameSecond none (some u) = ⊥
SameSecond (some t) none = ⊥
SameSecond (some t) (some u) = t / 1000000000 ≡ u / 1000000000

-- The same file: its time, converted, may differ within a second.
abbrev pub SameFile : DirEntry → DirEntry → Type 0
SameFile e f =
    (e.name ≡ f.name)
    × (e.kind ≡ f.kind)
    × (e.size ≡ f.size)
    × SameSecond (converted e.mtime) (converted f.mtime)

abbrev pub SameArtifact : CrashArtifact → CrashArtifact → Type 0
SameArtifact a b =
    (a.name ≡ b.name)
    × (a.kind ≡ b.kind)
    × (a.size_bytes ≡ b.size_bytes)
    × SameSecond a.mtime b.mtime

abbrev pub SameArtifacts : List CrashArtifact → List CrashArtifact → Type 0
SameArtifacts = Pointwise SameArtifact

artifact_of-Same : (e f : DirEntry) → SameFile e f → SameArtifact (artifact_of e) (artifact_of f)
artifact_of-Same e f (n, k, s, t) = (
  n,
  ap (λ (x : Str). if is_panic_artifact_name x then str "panic" else str "informational") n,
  ap (λ (x : Option ℕ). value_or x 0) s,
  t,
)

scan_entry-Same :
    (k : FileKind) (a b : CrashArtifact) (xs ys : List CrashArtifact)
    → SameArtifact a b
    → SameArtifacts xs ys
    → SameArtifacts (scan_entry k a xs) (scan_entry k b ys)
scan_entry-Same regular a b xs ys h r = (h, r)
scan_entry-Same not_regular a b xs ys h r = r
scan_entry-Same check_failed a b xs ys h r = tt

scan-Same : (es fs : List DirEntry) → Pointwise SameFile es fs → SameArtifacts (scan es) (scan fs)
unfolding scan
scan-Same [] [] h = tt
scan-Same [] (f ∷ fs) h = absurd h
scan-Same (e ∷ es) [] h = absurd h
scan-Same (e ∷ es) (f ∷ fs) (h, r) =
    subst
      (λ k.
        SameArtifacts (scan_entry e.kind (artifact_of e) (scan es))
          (scan_entry k (artifact_of f) (scan fs)))
      h.1
      (scan_entry-Same e.kind (artifact_of e) (artifact_of f) (scan es) (scan fs)
        (artifact_of-Same e f h) (scan-Same es fs r))

insert_by_name-Same :
    (a b : CrashArtifact) (xs ys : List CrashArtifact)
    → SameArtifact a b
    → SameArtifacts xs ys
    → SameArtifacts (insert_by_name a xs) (insert_by_name b ys)
unfolding insert_by_name
insert_by_name-Same a b [] [] h r = (h, tt)
insert_by_name-Same a b [] (y ∷ ys) h r = absurd r
insert_by_name-Same a b (x ∷ xs) [] h r = absurd r
insert_by_name-Same a b (x ∷ xs) (y ∷ ys) h (q, r) =
    let same : str_lt y.name b.name ≡ str_lt x.name a.name = λ i. str_lt (sym q.0 i) (sym h.0 i) in
    elim (Bool-cases (str_lt x.name a.name)) [
      | inl e ↦ rw (e, same ∙ e) (q, insert_by_name-Same a b xs ys h r)
      | inr e ↦ rw (e, same ∙ e) (h, (q, r))
    ]

sort_by_name-Same :
    (xs ys : List CrashArtifact)
    → SameArtifacts xs ys
    → SameArtifacts (sort_by_name xs) (sort_by_name ys)
unfolding sort_by_name
sort_by_name-Same [] [] h = tt
sort_by_name-Same [] (y ∷ ys) h = absurd h
sort_by_name-Same (x ∷ xs) [] h = absurd h
sort_by_name-Same (x ∷ xs) (y ∷ ys) (h, r) =
    insert_by_name-Same x y (sort_by_name xs) (sort_by_name ys) h (sort_by_name-Same xs ys r)

panics-Same :
    (xs ys : List CrashArtifact) → SameArtifacts xs ys → SameArtifacts (panics xs) (panics ys)
unfolding panics
panics-Same [] [] h = tt
panics-Same [] (y ∷ ys) h = absurd h
panics-Same (x ∷ xs) [] h = absurd h
panics-Same (x ∷ xs) (y ∷ ys) (h, r) =
    let same : is_panic y ≡ is_panic x = ap (λ k. str_eq k (str "panic")) (sym h.1) in
    elim (Bool-cases (is_panic x)) [
      | inl e ↦ rw (e, same ∙ e) (h, panics-Same xs ys r)
      | inr e ↦ rw (e, same ∙ e) (panics-Same xs ys r)
    ]

seconds_text-Same : (t u : Option ℕ) → SameSecond t u → seconds_text t ≡ seconds_text u
seconds_text-Same none none h = refl
seconds_text-Same none (some u) h = absurd h
seconds_text-Same (some t) none h = absurd h
seconds_text-Same (some t) (some u) h = ap to_string h

fingerprint_line-Same :
    (a b : CrashArtifact) → SameArtifact a b → fingerprint_line a ≡ fingerprint_line b
unfolding fingerprint_line
fingerprint_line-Same a b (n, k, s, t) =
    λ i. n i ++ str ":" ++ to_string (s i) ++ str ":" ++ seconds_text-Same a.mtime b.mtime t i

hash_lines-Same :
    (hash : ℕ) (xs ys : List CrashArtifact)
    → SameArtifacts xs ys
    → hash_lines hash xs ≡ hash_lines hash ys
unfolding hash_lines
hash_lines-Same hash [] [] h = refl
hash_lines-Same hash [] (y ∷ ys) h = absurd h
hash_lines-Same hash (x ∷ xs) [] h = absurd h
hash_lines-Same hash (x ∷ xs) (y ∷ ys) (h, r) =
    ap (λ l. hash_lines (hash_bytes hash l) xs) (fingerprint_line-Same x y h)
    ∙ hash_lines-Same (hash_bytes hash (fingerprint_line y)) xs ys r

pub compute_fingerprint-Same :
    (xs ys : List CrashArtifact)
    → SameArtifacts xs ys
    → compute_fingerprint xs ≡ compute_fingerprint ys
unfolding compute_fingerprint
compute_fingerprint-Same xs ys h =
    ap (λ n. hex_digits 16 n []) (hash_lines-Same 14695981039346656037 xs ys h)

-- The panic artifacts of the same files.
pub panics-scan-Same :
    (es fs : List DirEntry)
    → Pointwise SameFile es fs
    → SameArtifacts (panics (sort_by_name (scan es))) (panics (sort_by_name (scan fs)))
panics-scan-Same es fs h =
    panics-Same (sort_by_name (scan es)) (sort_by_name (scan fs))
      (sort_by_name-Same (scan es) (scan fs) (scan-Same es fs h))
