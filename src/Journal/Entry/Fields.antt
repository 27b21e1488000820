-- ===== src/Journal/Entry/Fields.antt =====
-- What an entry has of the fields of the journal.
use edge_healthd.Prelude.{
  ◌<◌, ◌≡◌, ◌∙◌, refl, ap, true, Option, none, some, [], ◌∷◌, ◌++◌, length, drop, take, Str, str,
  ltb, starts_with, arith, length-append,
}
use edge_healthd.Prelude.Int.{ℤ}
use edge_healthd.Journal.Utf8.Encoding.{encode_all}
use edge_healthd.Journal.Utf8.WellFormed.{IsWellFormed, sanitize_utf8-IsWellFormed}
use edge_healthd.Journal.Entry.{
  EntryData, without_prefix, field_text, read_field, message_of, read_current,
}

starts_with-append : (xs ys : Str) → starts_with xs (xs ++ ys) ≡ true
unfolding starts_with
starts_with-append [] ys = refl
starts_with-append (x ∷ xs) ys = ground (arith, starts_with-append xs ys)

drop-append : (xs ys : Str) → drop (length xs) (xs ++ ys) ≡ ys
drop-append [] ys = refl
drop-append (x ∷ xs) ys = drop-append xs ys

without_prefix-append :
    (prefix value : Str) → 0 < length value → without_prefix prefix (prefix ++ value) ≡ value
unfolding without_prefix
without_prefix-append prefix value h =
    let longer : ltb (length prefix) (length (prefix ++ value)) ≡ true =
      ground (arith, h, length-append prefix value) in
    rw (longer, starts_with-append prefix value) (drop-append prefix value)

-- A field of the entry is the value that the journal has for it, where this is not empty.
pub read_field-value :
    (d : EntryData) (name value : Str)
    → d.data_of name ≡ some ((name ++ str "=") ++ value)
    → 0 < length value
    → read_field d name ≡ value
unfolding read_field
read_field-value d name value e h =
    ap (field_text (name ++ str "=")) e ∙ without_prefix-append (name ++ str "=") value h

message_of-IsWellFormed : (text : Option Str) → IsWellFormed (message_of text)
message_of-IsWellFormed none = ([], (tt, unfold encode_all in refl))
message_of-IsWellFormed (some text) =
    sanitize_utf8-IsWellFormed (take 1024 (without_prefix (str "MESSAGE=") text))

-- The message of an entry is well-formed UTF-8, whatever bytes the journal holds.
pub read_current-IsWellFormed :
    (atoi : Str → ℤ) (d : EntryData) → IsWellFormed (read_current atoi d).message
unfolding read_current
read_current-IsWellFormed atoi d = message_of-IsWellFormed (d.data_of (str "MESSAGE"))
