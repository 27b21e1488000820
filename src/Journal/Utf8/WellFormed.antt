-- ===== src/Journal/Utf8/WellFormed.antt =====
-- sanitize_utf8() returns well-formed UTF-8, and returns well-formed UTF-8 unchanged.
use edge_healthd.Prelude.{
  ℕ, zero, suc, ◌+◌, ◌-◌, ◌/◌, ◌%◌, ◌≤◌, ◌<◌, ◌⊎◌, inl, inr, ◌≡◌, refl, sym, ◌∙◌, ap, false, List,
  [], ◌∷◌, ◌++◌, length, length-append, All, Str, ltb, ◌==◌, Bool-cases, arith,
}
use edge_healthd.Journal.Utf8.{
  decode_tail, checked_length, sequence_length, sanitize_from, sanitize_utf8,
}
use edge_healthd.Journal.Utf8.Encoding.{
  IsScalar, encode, encode_all, IsSequence, sequence_length-IsSequence,
}

-- A sequence is copied as it is.
sanitize_from-append :
    (xs ys : Str) → sanitize_from (length xs) (xs ++ ys) ≡ xs ++ sanitize_from 0 ys
unfolding sanitize_from
sanitize_from-append [] ys = refl
sanitize_from-append (x ∷ xs) ys = ap (λ s. x ∷ s) (sanitize_from-append xs ys)

ℕ-cases : (n : ℕ) → (n ≡ 0) ⊎ ((k : ℕ) × (n ≡ suc k))
ℕ-cases zero = inl refl
ℕ-cases (suc k) = inr (k, refl)

sanitize_from-sequence :
    (c k : ℕ) (cs : Str)
    → sequence_length c cs ≡ suc k
    → sanitize_from 0 (c ∷ cs) ≡ c ∷ sanitize_from k cs
unfolding sanitize_from
sanitize_from-sequence c k cs e =
    let test : (suc k == 0) ≡ false = ground arith in
    let one : suc k - 1 ≡ k = omega arith in rw e (rw (test, one) refl)

abbrev pub IsWellFormed : Str → Type 0
IsWellFormed s = (ns : List ℕ) × (All IsScalar ns × (s ≡ encode_all ns))

replaced-IsWellFormed : (s : Str) → IsWellFormed s → IsWellFormed (239 ∷ 191 ∷ 189 ∷ s)
unfolding encode encode_all
replaced-IsWellFormed s (ns, (scalars, e)) =
    (65533 ∷ ns, ((inr (omega arith, omega arith), scalars), ap (λ t. 239 ∷ 191 ∷ 189 ∷ t) e))

sequence-IsWellFormed :
    (c k : ℕ) (cs : Str) (q : IsSequence c cs k)
    → IsWellFormed (sanitize_from 0 q.rest)
    → IsWellFormed (c ∷ sanitize_from k cs)
unfolding encode_all
sequence-IsWellFormed c k cs q (ns, (scalars, e)) = (
  q.cp ∷ ns,
  (
    (q.scalar, scalars),
    ap (λ t. c ∷ t)
          (ap (sanitize_from k) q.split
            ∙ ap (λ n. sanitize_from n (q.tail ++ q.rest)) (sym q.counted)
            ∙ sanitize_from-append q.tail q.rest
            ∙ ap (λ t. q.tail ++ t) e)
        ∙ sym (ap (λ t. t ++ encode_all ns) q.encoded),
  ),
)

sanitize_from-IsWellFormed : (m : ℕ) (s : Str) → length s ≤ m → IsWellFormed (sanitize_from 0 s)
unfolding sanitize_from
sanitize_from-IsWellFormed m [] h = ([], (tt, unfold encode_all in refl))
sanitize_from-IsWellFormed zero (c ∷ cs) h = absurd (omega arith)
sanitize_from-IsWellFormed (suc m) (c ∷ cs) h = elim (ℕ-cases (sequence_length c cs)) [
  | inl e ↦
      rw e
        (replaced-IsWellFormed (sanitize_from 0 cs) (sanitize_from-IsWellFormed m cs (omega arith)))
  | inr (k, e) ↦
      let q = sequence_length-IsSequence c k cs e in
      rw (sanitize_from-sequence c k cs e) (
        sequence-IsWellFormed c k cs q (
          sanitize_from-IsWellFormed m q.rest
            (omega (arith, ap length q.split, length-append q.tail q.rest))))
]

-- Whatever bytes come in, what comes out is the UTF-8 encoding of a list of Unicode scalar values.
pub sanitize_utf8-IsWellFormed : (s : Str) → IsWellFormed (sanitize_utf8 s)
unfolding sanitize_utf8
sanitize_utf8-IsWellFormed s = sanitize_from-IsWellFormed (length s) s (omega arith)

one_encoded : (n : ℕ) (rest : Str) → n < 128 → sequence_length n rest ≡ 1
unfolding sequence_length
one_encoded n rest h = ground arith

two_encoded :
    (n : ℕ) (rest : Str)
    → 128 ≤ n
    → n < 2048
    → sequence_length (192 + n / 64) ((128 + n % 64) ∷ rest) ≡ 2
unfolding sequence_length checked_length decode_tail
two_encoded n rest l h = ground arith

three_encoded :
    (n : ℕ) (rest : Str)
    → 2048 ≤ n
    → n < 65536
    → IsScalar n
    → sequence_length (224 + n / 4096) ((128 + n / 64 % 64) ∷ (128 + n % 64) ∷ rest) ≡ 3
unfolding sequence_length checked_length decode_tail
three_encoded n rest l h s = ground arith

four_encoded :
    (n : ℕ) (rest : Str)
    → 65536 ≤ n
    → n ≤ 1114111
    → sequence_length
        (240 + n / 262144)
        ((128 + n / 4096 % 64) ∷ (128 + n / 64 % 64) ∷ (128 + n % 64) ∷ rest)
      ≡ 4
unfolding sequence_length checked_length decode_tail
four_encoded n rest l h = ground arith

-- What sequence_length() finds at an encoded scalar value.
record IsFound (n : ℕ) : Type 0 where
  head : ℕ
  tail : Str
  encoded : encode n ≡ head ∷ tail
  found : (rest : Str) → sequence_length head (tail ++ rest) ≡ suc (length tail)

encode-IsFound : (n : ℕ) → IsScalar n → IsFound n
unfolding encode
encode-IsFound n s = elim (Bool-cases (ltb n 128)) [
  | inl a ↦ record {
    head = n;
    tail = [];
    encoded = rw a refl;
    found = λ rest. one_encoded n rest (ground arith);
  }
  | inr a ↦ elim (Bool-cases (ltb n 2048)) [
    | inl b ↦ record {
      head = 192 + n / 64;
      tail = (128 + n % 64) ∷ [];
      encoded = rw (a, b) refl;
      found = λ rest. two_encoded n rest (ground arith) (ground arith);
    }
    | inr b ↦ elim (Bool-cases (ltb n 65536)) [
      | inl w ↦ record {
        head = 224 + n / 4096;
        tail = (128 + n / 64 % 64) ∷ (128 + n % 64) ∷ [];
        encoded = rw (a, b, w) refl;
        found = λ rest. three_encoded n rest (ground arith) (ground arith) s;
      }
      | inr w ↦ record {
        head = 240 + n / 262144;
        tail = (128 + n / 4096 % 64) ∷ (128 + n / 64 % 64) ∷ (128 + n % 64) ∷ [];
        encoded = rw (a, b, w) refl;
        found = λ rest. four_encoded n rest (ground arith) (ground arith);
      }
    ]
  ]
]

sanitize_from-encode :
    (n : ℕ) (rest : Str)
    → IsScalar n
    → sanitize_from 0 (encode n ++ rest) ≡ encode n ++ sanitize_from 0 rest
sanitize_from-encode n rest s =
    let f = encode-IsFound n s in
    rw f.encoded (
      sanitize_from-sequence f.head (length f.tail) (f.tail ++ rest) (f.found rest)
      ∙ ap (λ t. f.head ∷ t) (sanitize_from-append f.tail rest))

-- Text that is the UTF-8 encoding of Unicode scalar values comes out unchanged.
pub sanitize_utf8-encode_all :
    (ns : List ℕ) → All IsScalar ns → sanitize_utf8 (encode_all ns) ≡ encode_all ns
unfolding sanitize_utf8 encode_all sanitize_from
sanitize_utf8-encode_all [] h = refl
sanitize_utf8-encode_all (n ∷ ns) h =
    sanitize_from-encode n (encode_all ns) h.0
    ∙ ap (λ t. encode n ++ t) (sanitize_utf8-encode_all ns h.1)
