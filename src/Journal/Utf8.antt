-- ===== src/Journal/Utf8.antt =====
-- src/journal.cpp: sanitize_utf8(). The masks and shifts of the code are written as quotients and
-- remainders by powers of two; a byte is below 256.
pub mod Encoding
pub mod WellFormed
use edge_healthd.Prelude.{
  ℕ, zero, suc, ◌+◌, ◌-◌, ◌*◌, ◌/◌, ◌%◌, Bool, not, ◌&&◌, Option, none, some, List, [], ◌∷◌, ◌++◌,
  Str, ltb, leb, ◌==◌, if◌then◌else◌,
}

-- The continuation bytes: the code point once `k` of them are read, nothing where one is missing or
-- is no continuation byte.
pub decode_tail : ℕ → ℕ → Str → Option ℕ
decode_tail zero cp s = some cp
decode_tail (suc k) cp [] = none
decode_tail (suc k) cp (d ∷ ds) =
    let rest = decode_tail k (cp * 64 + d % 64) ds in if d / 64 == 2 then rest else none

-- Neither overlong nor a surrogate nor out of range.
abbrev pub is_accepted : ℕ → ℕ → Bool
is_accepted min_cp cp = leb min_cp cp && (leb cp 1114111 && not (leb 55296 cp && leb cp 57343))

pub checked_length : ℕ → ℕ → Option ℕ → ℕ
checked_length seq_len min_cp none = 0
checked_length seq_len min_cp (some cp) = if is_accepted min_cp cp then seq_len else 0

-- The length of the well-formed sequence that begins with this byte, 0 if there is none.
pub sequence_length : ℕ → Str → ℕ
unfolding checked_length decode_tail
sequence_length c cs =
    if ltb c 128
    then 1
    else if c / 32 == 6
    then checked_length 2 128 (decode_tail 1 (c % 32) cs)
    else if c / 16 == 14
    then checked_length 3 2048 (decode_tail 2 (c % 16) cs)
    else if c / 8 == 30
    then checked_length 4 65536 (decode_tail 3 (c % 8) cs)
    else 0

-- The loop; the number counts the bytes of the current sequence that are still to be copied.
pub sanitize_from : ℕ → Str → Str
unfolding sequence_length
sanitize_from n [] = []
sanitize_from (suc n) (c ∷ cs) = c ∷ sanitize_from n cs
sanitize_from zero (c ∷ cs) =
    let copied = sanitize_from (sequence_length c cs - 1) cs in
    let replaced = sanitize_from 0 cs in
    if sequence_length c cs == 0 then 239 ∷ 191 ∷ 189 ∷ replaced else c ∷ copied

pub sanitize_utf8 : Str → Str
unfolding sanitize_from
sanitize_utf8 input = sanitize_from 0 input
