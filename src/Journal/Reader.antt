-- ===== src/Journal/Reader.antt =====
-- src/journal_reader.cpp: JournalReader with its handle: open_and_prime(), rebuild_from_tail(),
-- ingest(), close_handle(). The sd_journal API is a parameter, on the state of the journal and of the
-- clock; the loop that reads to the end runs on fuel.
pub mod Recent
pub mod Appended
use edge_healthd.Prelude.{
  ℕ, zero, suc, ◌*◌, Bool, true, false, List, [], ◌∷◌, ◌++◌, length, drop, ltb, Str, if◌then◌else◌,
}
use edge_healthd.Config.{Config}
use edge_healthd.Journal.Filter.{JournalEntry}
use edge_healthd.Journal.Entry.{EntryData, read_current}
use edge_healthd.Prelude.Int.{ℤ}
use edge_healthd.Journal.Buffer.{buffer_cap, evict}

-- What sd_journal_next() and sd_journal_previous_skip() answer: above 0, 0, below 0.
pub data Moved : Type 0 where
  to_entry at_end failed : Moved

pub record SdJournal (J : Type 0) : Type 0 where
  -- sd_journal_open, of the system's journal and of the local one
  pub open_system : J → J × Bool
  pub open_local : J → J × Bool
  pub close : J → J
  -- sd_journal_wait with no timeout
  pub wait : J → J × Bool
  pub next : J → J × Moved
  pub seek_tail : J → J × Bool
  pub previous_skip : ℕ → J → J × Moved
  -- what the calls that read the entry at the cursor answer, and std::atoi
  pub entry_data : J → EntryData
  pub atoi : Str → ℤ
  -- the scan's deadline has passed
  pub is_late : J → Bool

-- The entry at the cursor.
abbrev pub current : {J : Type 0} → SdJournal J → J → JournalEntry
current sd j = read_current sd.atoi (sd.entry_data j)

pub record Reader (J : Type 0) : Type 0 where
  pub is_open : Bool
  pub buffer : List JournalEntry
  pub journal : J

-- `if (buffer_.size() > cap) buffer_.pop_front()`.
abbrev pub pop_beyond : ℕ → List JournalEntry → List JournalEntry
pop_beyond cap buffer = if ltb cap (length buffer) then drop 1 buffer else buffer

abbrev pub is_entry : Moved → Bool
is_entry to_entry = true
is_entry other = false

module _ {F J : Type 0} (cfg : Config F) (sd : SdJournal J) where
  -- The loop of rebuild_from_tail(), with the cursor on an entry that is not read yet.
  unfoldable pub read_forward : ℕ → J → List JournalEntry → J × List JournalEntry
  read_forward zero j buffer = (j, buffer)
  read_forward (suc fuel) j buffer =
      let (j', moved) = sd.next j in
      let buffer' = pop_beyond (buffer_cap cfg) (buffer ++ (current sd j ∷ [])) in
      let rest = read_forward fuel j' buffer' in
      if sd.is_late j then (j, buffer) else if is_entry moved then rest else (j', buffer')

  -- `have_entry` at first.
  abbrev pub read_from : ℕ → J → Moved → J × List JournalEntry
  read_from fuel j to_entry = read_forward fuel j []
  read_from fuel j other = (j, [])

  unfoldable pub rebuild_from_tail : ℕ → Reader J → Reader J
  unfolding read_forward
  rebuild_from_tail fuel r =
      let (j, sought) = sd.seek_tail r.journal in
      let (j', moved) = sd.previous_skip (buffer_cap cfg) j in
      let (j'', buffer) = read_from fuel j' moved in
      if r.is_open
      then if sought
        then record r { journal = j''; buffer = buffer }
        else record r { journal = j; buffer = [] }
      else r

  abbrev pub evicted : Reader J → Reader J
  evicted r = record r { buffer = evict cfg r.buffer }

  abbrev pub primed : ℕ → Reader J → J → Reader J
  primed fuel r j = evicted (rebuild_from_tail fuel (record r { is_open = true; journal = j }))

  -- The second attempt.
  abbrev pub open_locally : ℕ → Reader J → J → Reader J × Bool
  open_locally fuel r j =
      let (j', opened) = sd.open_local j in
      if opened
      then (primed fuel r j', true)
      else (record r { is_open = false; journal = j' }, false)

  -- The reader, and whether the journal could be opened.
  unfoldable pub open_and_prime : ℕ → Reader J → Reader J × Bool
  unfolding rebuild_from_tail
  open_and_prime fuel r =
      let (j, opened) = sd.open_system r.journal in
      if opened then (primed fuel r j, true) else open_locally fuel r j

  abbrev pub close_handle : Reader J → Reader J
  close_handle r = record r { is_open = false; journal = sd.close r.journal }

  -- The loop of ingest(), with the reads that are left; it ends the handle's use, at the end of the
  -- journal, or with the budget used up.
  unfoldable pub drain : ℕ → J → List JournalEntry → (J × List JournalEntry) × Moved
  drain zero j buffer = ((j, buffer), to_entry)
  drain (suc budget) j buffer =
      let (j', moved) = sd.next j in
      let rest = drain budget j' (buffer ++ (current sd j' ∷ [])) in
      if is_entry moved then rest else ((j', buffer), moved)

  -- What follows the loop.
  abbrev pub drained : ℕ → Reader J → (J × List JournalEntry) × Moved → Reader J
  drained fuel r ((j, buffer), failed) = close_handle (record r { journal = j; buffer = buffer })
  drained fuel r ((j, buffer), at_end) = evicted (record r { journal = j; buffer = buffer })
  drained fuel r ((j, buffer), to_entry) =
      evicted (rebuild_from_tail fuel (record r { journal = j; buffer = buffer }))

  unfoldable pub ingest : ℕ → Reader J → Reader J
  unfolding open_and_prime drain
  ingest fuel r =
      let (j, waited) = sd.wait r.journal in
      if r.is_open
      then if waited
        then drained fuel r (drain (2 * buffer_cap cfg) j r.buffer)
        else close_handle (record r { journal = j })
      else (open_and_prime fuel r).0
