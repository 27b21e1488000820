-- ===== src/Journal/Entry.antt =====
-- src/journal_reader.cpp: read_current(), from what the sd_journal API answers at the cursor. std::atoi
-- is a parameter.
pub mod Fields
use edge_healthd.Prelude.{
  ℕ, ◌+◌, Bool, ◌&&◌, Option, none, some, List, [], ◌∷◌, ◌++◌, length, take, drop, Str, str, ltb,
  starts_with, if◌then◌else◌,
}
use edge_healthd.Prelude.Int.{ℤ, pos}
use edge_healthd.Journal.Filter.{JournalEntry}
use edge_healthd.Journal.Utf8.{sanitize_utf8}

-- The time, and the data of a field, which are NAME=value.
pub record EntryData : Type 0 where
  pub realtime : Option ℕ
  pub data_of : Str → Option Str

-- The data without `prefix`, where they are longer than it and start with it.
unfoldable pub without_prefix : Str → Str → Str
without_prefix prefix text =
    if ltb (length prefix) (length text) && starts_with prefix text
    then drop (length prefix) text
    else text

abbrev pub field_text : Str → Option Str → Str
field_text prefix none = []
field_text prefix (some text) = without_prefix prefix text

unfoldable pub read_field : EntryData → Str → Str
unfolding without_prefix
read_field d name = field_text (name ++ str "=") (d.data_of name)

abbrev pub usec_of : Option ℕ → ℕ
usec_of none = 0
usec_of (some usec) = usec

abbrev pub priority_of : (Str → ℤ) → Option Str → ℤ
priority_of atoi none = pos 6
priority_of atoi (some text) = atoi (without_prefix (str "PRIORITY=") text)

abbrev pub message_of : Option Str → Str
message_of none = []
message_of (some text) = sanitize_utf8 (take 1024 (without_prefix (str "MESSAGE=") text))

unfoldable pub read_current : (Str → ℤ) → EntryData → JournalEntry
unfolding read_field
read_current atoi d = record {
  realtime_usec = usec_of d.realtime;
  priority = priority_of atoi (d.data_of (str "PRIORITY"));
  message = message_of (d.data_of (str "MESSAGE"));
  unit = read_field d (str "_SYSTEMD_UNIT");
  unit_hint = read_field d (str "UNIT");
  syslog_id = read_field d (str "SYSLOG_IDENTIFIER");
}
