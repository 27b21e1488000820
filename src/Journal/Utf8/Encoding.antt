-- ===== src/Journal/Utf8/Encoding.antt =====
-- UTF-8 by its definition: the encodings of Unicode scalar values, and that sequence_length() of
-- `Utf8` recognises them.
use edge_healthd.Prelude.{
  ℕ, suc, ◌+◌, ◌*◌, ◌/◌, ◌%◌, ◌≤◌, ◌<◌, ◌⊎◌, inl, inr, ◌≡◌, refl, true, List, [], ◌∷◌, ◌++◌, length,
  Str, ltb, ◌==◌, if◌then◌else◌, Bool-cases, arith,
}
use edge_healthd.Journal.Utf8.{decode_tail, is_accepted, checked_length, sequence_length}

-- A Unicode scalar value: not a surrogate, at most U+10FFFF.
abbrev pub IsScalar : ℕ → Type 0
IsScalar n = (n < 55296) ⊎ ((57343 < n) × (n ≤ 1114111))

unfoldable pub encode : ℕ → Str
encode n =
    if ltb n 128
    then n ∷ []
    else if ltb n 2048
    then (192 + n / 64) ∷ (128 + n % 64) ∷ []
    else if ltb n 65536
    then (224 + n / 4096) ∷ (128 + n / 64 % 64) ∷ (128 + n % 64) ∷ []
    else (240 + n / 262144) ∷ (128 + n / 4096 % 64) ∷ (128 + n / 64 % 64) ∷ (128 + n % 64) ∷ []

unfoldable pub encode_all : List ℕ → Str
encode_all [] = []
encode_all (n ∷ ns) = encode n ++ encode_all ns

-- The bytes at the head of `c ∷ cs` encode a scalar value, `n` of them in `cs`.
pub record IsSequence (c : ℕ) (cs : Str) (n : ℕ) : Type 0 where
  pub cp : ℕ
  pub tail : Str
  pub rest : Str
  pub scalar : IsScalar cp
  pub split : cs ≡ tail ++ rest
  pub counted : length tail ≡ n
  pub encoded : encode cp ≡ c ∷ tail

two_bytes :
    (c d : ℕ) (cs : Str)
    → c / 32 ≡ 6
    → d / 64 ≡ 2
    → 128 ≤ c % 32 * 64 + d % 64
    → IsSequence c (d ∷ cs) 1
unfolding encode
two_bytes c d cs hc hd h =
    let n = c % 32 * 64 + d % 64 in
    record {
      cp = n;
      tail = d ∷ [];
      rest = cs;
      scalar = inl (omega arith);
      split = refl;
      counted = refl;
      encoded = ground arith;
    }

three_bytes :
    (c d e : ℕ) (cs : Str)
    → c / 16 ≡ 14
    → d / 64 ≡ 2
    → e / 64 ≡ 2
    → is_accepted 2048 ((c % 16 * 64 + d % 64) * 64 + e % 64) ≡ true
    → IsSequence c (d ∷ e ∷ cs) 2
unfolding encode
three_bytes c d e cs hc hd he h = record {
  cp = (c % 16 * 64 + d % 64) * 64 + e % 64;
  tail = d ∷ e ∷ [];
  rest = cs;
  scalar = ground arith;
  split = refl;
  counted = refl;
  encoded = ground arith;
}

four_bytes :
    (c d e f : ℕ) (cs : Str)
    → c / 8 ≡ 30
    → d / 64 ≡ 2
    → e / 64 ≡ 2
    → f / 64 ≡ 2
    → is_accepted 65536 (((c % 8 * 64 + d % 64) * 64 + e % 64) * 64 + f % 64) ≡ true
    → IsSequence c (d ∷ e ∷ f ∷ cs) 3
unfolding encode
four_bytes c d e f cs hc hd he hf h = record {
  cp = ((c % 8 * 64 + d % 64) * 64 + e % 64) * 64 + f % 64;
  tail = d ∷ e ∷ f ∷ [];
  rest = cs;
  scalar = ground arith;
  split = refl;
  counted = refl;
  encoded = ground arith;
}

one_byte : (c : ℕ) (cs : Str) → ltb c 128 ≡ true → IsSequence c cs 0
unfolding encode
one_byte c cs h = record {
  cp = c;
  tail = [];
  rest = cs;
  scalar = inl (ground arith);
  split = refl;
  counted = refl;
  encoded = rw h refl;
}

checked_two :
    (c d k : ℕ) (cs : Str)
    → checked_length 2 128 (decode_tail 1 (c % 32) (d ∷ cs)) ≡ suc k
    → (d / 64 ≡ 2) × (128 ≤ c % 32 * 64 + d % 64) × (k ≡ 1)
unfolding checked_length decode_tail
checked_two c d k cs h = ground arith

checked_three :
    (c d e k : ℕ) (cs : Str)
    → checked_length 3 2048 (decode_tail 2 (c % 16) (d ∷ e ∷ cs)) ≡ suc k
    → (d / 64 ≡ 2)
      × (e / 64 ≡ 2)
      × (is_accepted 2048 ((c % 16 * 64 + d % 64) * 64 + e % 64) ≡ true)
      × (k ≡ 2)
unfolding checked_length decode_tail
checked_three c d e k cs h = ground arith

checked_four :
    (c d e f k : ℕ) (cs : Str)
    → checked_length 4 65536 (decode_tail 3 (c % 8) (d ∷ e ∷ f ∷ cs)) ≡ suc k
    → (d / 64 ≡ 2)
      × (e / 64 ≡ 2)
      × (f / 64 ≡ 2)
      × (is_accepted 65536 (((c % 8 * 64 + d % 64) * 64 + e % 64) * 64 + f % 64) ≡ true)
      × (k ≡ 3)
unfolding checked_length decode_tail
checked_four c d e f k cs h = ground arith

checked_two-IsSequence :
    (c k : ℕ) (cs : Str)
    → c / 32 ≡ 6
    → checked_length 2 128 (decode_tail 1 (c % 32) cs) ≡ suc k
    → IsSequence c cs k
unfolding checked_length decode_tail
checked_two-IsSequence c k [] hc h = absurd (omega arith)
checked_two-IsSequence c k (d ∷ cs) hc h =
    let (hd, low, e) = checked_two c d k cs h in rw e (two_bytes c d cs hc hd low)

checked_three-IsSequence :
    (c k : ℕ) (cs : Str)
    → c / 16 ≡ 14
    → checked_length 3 2048 (decode_tail 2 (c % 16) cs) ≡ suc k
    → IsSequence c cs k
unfolding checked_length decode_tail
checked_three-IsSequence c k [] hc h = absurd (omega arith)
checked_three-IsSequence c k (d ∷ []) hc h = absurd (ground arith)
checked_three-IsSequence c k (d ∷ e ∷ cs) hc h =
    let (hd, he, ok, p) = checked_three c d e k cs h in rw p (three_bytes c d e cs hc hd he ok)

checked_four-IsSequence :
    (c k : ℕ) (cs : Str)
    → c / 8 ≡ 30
    → checked_length 4 65536 (decode_tail 3 (c % 8) cs) ≡ suc k
    → IsSequence c cs k
unfolding checked_length decode_tail
checked_four-IsSequence c k [] hc h = absurd (omega arith)
checked_four-IsSequence c k (d ∷ []) hc h = absurd (ground arith)
checked_four-IsSequence c k (d ∷ e ∷ []) hc h = absurd (ground arith)
checked_four-IsSequence c k (d ∷ e ∷ f ∷ cs) hc h =
    let (hd, he, hf, ok, p) = checked_four c d e f k cs h in
    rw p (four_bytes c d e f cs hc hd he hf ok)

-- Where a sequence is found it encodes a scalar value.
pub sequence_length-IsSequence :
    (c k : ℕ) (cs : Str) → sequence_length c cs ≡ suc k → IsSequence c cs k
unfolding sequence_length
sequence_length-IsSequence c k cs h = elim (Bool-cases (ltb c 128)) [
  | inl a ↦ let e : k ≡ 0 = ground arith in rw e (one_byte c cs a)
  | inr a ↦ elim (Bool-cases (c / 32 == 6)) [
    | inl b ↦ checked_two-IsSequence c k cs (ground arith) (rw (a, b) at h)
    | inr b ↦ elim (Bool-cases (c / 16 == 14)) [
      | inl w ↦ checked_three-IsSequence c k cs (ground arith) (rw (a, b, w) at h)
      | inr w ↦ elim (Bool-cases (c / 8 == 30)) [
        | inl z ↦ checked_four-IsSequence c k cs (ground arith) (rw (a, b, w, z) at h)
        | inr z ↦ absurd (ground arith)
      ]
    ]
  ]
]
