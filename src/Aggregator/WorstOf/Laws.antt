-- ===== src/Aggregator/WorstOf/Laws.antt =====
-- worst_of() is the maximum of its arguments by rank, whatever their order.
use mathlib.Core.List.{Permᴰ}
use mathlib.Core.List.Perm
use mathlib.Core.Logic.{∥∥₁_elim}
use native.Mathlib.Bridge.{le_prop}
use edge_healthd.Prelude.{
  ℕ, ◌≤◌, ◌≡◌, refl, ◌↔◌, ◌⊎◌, inl, inr, List, [], ◌∷◌, ◌++◌, Perm, Memᴰ, All, arith, Bool-cases,
  ltb,
}
use edge_healthd.Prelude.Int.{pos}
use edge_healthd.Types.Enums.{Severity}
use edge_healthd.Aggregator.WorstOf.{rank, worst_from, worst_of}

pub rank-injective : (a b : Severity) → rank a ≡ rank b → a ≡ b
unfolding rank
rank-injective a b h = ground arith

abbrev pub RankAtMost : ℕ → List Severity → Type 0
RankAtMost b = All (λ s. rank s ≤ b)

worst_from-le :
    (b : ℕ) (w : Severity) (ss : List Severity)
    → (rank (worst_from (pos (rank w)) w ss) ≤ b) ↔ ((rank w ≤ b) × RankAtMost b ss)
unfolding worst_from
worst_from-le b w [] = (λ h. (h, tt), λ h. h.0)
worst_from-le b w (s ∷ ss) = elim (Bool-cases (ltb (rank w) (rank s))) [
  | inl e ↦ rw e (ground (arith, worst_from-le b s ss))
  | inr e ↦ rw e (ground (arith, worst_from-le b w ss))
]

-- The rank of the result is the least bound of the ranks.
pub worst_of-le : (b : ℕ) (ss : List Severity) → (rank (worst_of ss) ≤ b) ↔ RankAtMost b ss
unfolding worst_of
worst_of-le b [] = ground arith
worst_of-le b (s ∷ ss) = worst_from-le b s ss

worst_from-mem :
    (w : Severity) (ss : List Severity)
    → (worst_from (pos (rank w)) w ss ≡ w) ⊎ Memᴰ (worst_from (pos (rank w)) w ss) ss
unfolding worst_from
worst_from-mem w [] = inl refl
worst_from-mem w (s ∷ ss) = elim (Bool-cases (ltb (rank w) (rank s))) [
  | inl e ↦
      rw e (elim (worst_from-mem s ss) [ inl p ↦ inr (Memᴰ.head p) | inr m ↦ inr (Memᴰ.tail m) ])
  | inr e ↦ rw e (elim (worst_from-mem w ss) [ inl p ↦ inl p | inr m ↦ inr (Memᴰ.tail m) ])
]

-- The result is one of the severities combined.
pub worst_of-mem : (s : Severity) (ss : List Severity) → Memᴰ (worst_of (s ∷ ss)) (s ∷ ss)
unfolding worst_of
worst_of-mem s ss = elim (worst_from-mem s ss) [ inl p ↦ Memᴰ.head p | inr m ↦ Memᴰ.tail m ]

RankAtMost-perm : (b : ℕ) {xs ys : List Severity} → Permᴰ xs ys → RankAtMost b xs → RankAtMost b ys
RankAtMost-perm b Permᴰ.nil h = h
RankAtMost-perm b (Permᴰ.cons e p) h = (rw (← e) h.0, RankAtMost-perm b p h.1)
RankAtMost-perm b (Permᴰ.swap e f) h = (rw (← f) h.1.0, (rw (← e) h.0, h.1.1))
RankAtMost-perm b (Permᴰ.trans p q) h = RankAtMost-perm b q (RankAtMost-perm b p h)

worst_of-rank_mono : {xs ys : List Severity} → Perm xs ys → rank (worst_of ys) ≤ rank (worst_of xs)
worst_of-rank_mono {xs} {ys} p = ∥∥₁_elim p le_prop λ q.
    (worst_of-le (rank (worst_of xs)) ys).1
      (RankAtMost-perm _ q ((worst_of-le (rank (worst_of xs)) xs).0 (omega arith)))

-- The order in which severities are combined does not matter.
pub worst_of-perm : (xs ys : List Severity) → Perm xs ys → worst_of xs ≡ worst_of ys
worst_of-perm xs ys p =
    rank-injective _ _ (omega (arith, worst_of-rank_mono p, worst_of-rank_mono (Perm.symm p)))

RankAtMost-append :
    (b : ℕ) (xs ys : List Severity) → RankAtMost b (xs ++ ys) ↔ (RankAtMost b xs × RankAtMost b ys)
RankAtMost-append b [] ys = (λ h. (tt, h), λ h. h.1)
RankAtMost-append b (x ∷ xs) ys = ground (arith, RankAtMost-append b xs ys)

-- A roll-up in two stages is the roll-up of all severities.
pub worst_of-append :
    (xs ys : List Severity) → worst_of (xs ++ ys) ≡ worst_of (worst_of xs ∷ worst_of ys ∷ [])
worst_of-append xs ys = rank-injective _ _ (omega (arith, both, back))
  where
    two : List Severity
    two = worst_of xs ∷ worst_of ys ∷ []

    both : rank (worst_of (xs ++ ys)) ≤ rank (worst_of two)
    both =
        let (a, rest) = (worst_of-le (rank (worst_of two)) two).0 (omega arith) in
        (worst_of-le _ (xs ++ ys)).1
          ((RankAtMost-append _ xs ys).1 ((worst_of-le _ xs).0 a, (worst_of-le _ ys).0 rest.0))

    back : rank (worst_of two) ≤ rank (worst_of (xs ++ ys))
    back =
        let (a, b) =
          (RankAtMost-append (rank (worst_of (xs ++ ys))) xs ys).0
            ((worst_of-le _ (xs ++ ys)).0 (omega arith)) in
        (worst_of-le _ two).1 ((worst_of-le _ xs).1 a, ((worst_of-le _ ys).1 b, tt))

-- Two severities may be combined first.
pub worst_of-merge :
    (a b : Severity) (ss : List Severity)
    → worst_of (worst_of (a ∷ b ∷ []) ∷ ss) ≡ worst_of (a ∷ b ∷ ss)
unfolding worst_of
worst_of-merge a b ss = elim (Bool-cases (ltb (rank a) (rank b))) [ inl e ↦ rw e | inr e ↦ rw e ]

pub worst_of-one : (a : Severity) → worst_of (a ∷ []) ≡ a
unfolding worst_of
worst_of-one a = refl

-- A severity above `unknown` is not changed by `ok`.
pub worst_of-ok : (a : Severity) → 1 ≤ rank a → worst_of (a ∷ Severity.ok ∷ []) ≡ a
unfolding worst_of
worst_of-ok a h = ground arith

-- Above `unknown` it stays, whatever is combined with it.
pub rank_pos-worst_of :
    (a : Severity) (ss : List Severity) → 1 ≤ rank a → 1 ≤ rank (worst_of (a ∷ ss))
rank_pos-worst_of a ss h =
    omega (arith, ((worst_of-le (rank (worst_of (a ∷ ss))) (a ∷ ss)).0 (omega arith)).0)
