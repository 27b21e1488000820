-- ===== src/Examples/Machine.antt =====
-- A journal of three entries, and what systemd, timedated and RAUC may answer.
use edge_healthd.Prelude.{
  ℕ, ◌-◌, drop, str_eq, starts_with, Option, ◌<◌, ◌≤◌, ◌≡◌, refl, true, false, none, some, List, [],
  ◌∷◌, ◌++◌, Str, str, arith, length, map, ◌==◌, if◌then◌else◌,
}
use edge_healthd.Prelude.Int.{ℤ, pos}
use edge_healthd.Journal.Entry.{EntryData, read_current, read_field, without_prefix}
use edge_healthd.Types.Enums.{Severity}
use edge_healthd.Types.Sections.{services_status_default, UpdateStatus}
use edge_healthd.Probe.Result.{value}
use edge_healthd.Journal.Filter.{JournalEntry}
use edge_healthd.Journal.Buffer.{buffer_cap}
use edge_healthd.Journal.Reader.{
  Moved, to_entry, at_end, SdJournal, Reader, is_entry, drain, ingest,
}
use edge_healthd.Journal.Reader.Recent.{View, IsJournal, IsSuffix, ingest-IsWindow}
use edge_healthd.Journal.Reader.Appended.{ingest-appended}
use edge_healthd.Probe.Services.{Systemd, Answer, answer, bus_error}
use edge_healthd.Probe.Services.Overall.{judged, roll_up, collect-roll_up}
use edge_healthd.Probe.Services
use edge_healthd.Probe.TimeSync
use edge_healthd.Probe.TimeSync.{RtcFiles, collected}
use edge_healthd.Probe.TimeSync.Severities.{collect-observed}
use edge_healthd.Probe.Update
use edge_healthd.Probe.Update.{SlotProps, text}
use edge_healthd.Probe.Update.Slots.{severity_of, collect-severity}
use edge_healthd.Types.Sections.{DeviceInfo}
use edge_healthd.Prelude.Double.{milli}
use edge_healthd.Network.Monitor.{
  Message, new_link, new_addr, ifname, carrier, ifa_address, drain_events,
}
use edge_healthd.Network.Monitor.Cached.{find_entry, IsSorted, told_all, concat, drain_events-told}
use edge_healthd.Probe.Device
use edge_healthd.Probe.Device.{DeviceFiles}
use edge_healthd.Probe.Device.Named.{IsNamed, collect-IsNamed}
use edge_healthd.Probe.Thermal.{ThermalEntry, collect_thermal}
use edge_healthd.Probe.Thermal.Plausible.{zones, AreTruthful, collect_thermal-AreTruthful}
use edge_healthd.Log.{Limiters, rate_limiter_default}
use edge_healthd.Examples.Data.{config}
use edge_healthd.Examples.Documents.{getters}

-- The number of one digit.
abbrev digit : Str → ℤ
digit [] = pos 0
digit (c ∷ cs) = pos (c - 48)

abbrev fault_data : Str → Option Str
fault_data name =
    if str_eq name (str "PRIORITY")
    then some (str "PRIORITY=3")
    else if str_eq name (str "MESSAGE")
    then some (str "MESSAGE=fault")
    else if str_eq name (str "_SYSTEMD_UNIT")
    then some (str "_SYSTEMD_UNIT=app.service")
    else none

abbrev data_at : ℕ → EntryData
data_at n = record { realtime = some n; data_of = fault_data }

abbrev entry : ℕ → JournalEntry
entry n = read_current digit (data_at n)

entry_example : ((entry 2).priority ≡ pos 3) × ((entry 2).unit ≡ str "app.service")
unfolding read_current read_field without_prefix starts_with str_eq str
entry_example = (refl, refl)

-- How many entries are before the cursor, with the one it is on.
data Cursor : Type 0 where
  c0 c1 c2 c3 : Cursor

abbrev step : Cursor → Cursor × Moved
step c0 = (c1, to_entry)
step c1 = (c2, to_entry)
step c2 = (c3, to_entry)
step c3 = (c3, at_end)

abbrev number_at : Cursor → ℕ
number_at c0 = 1
number_at c1 = 1
number_at c2 = 2
number_at c3 = 3

abbrev seen_at : Cursor → List JournalEntry
seen_at c0 = []
seen_at c1 = entry 1 ∷ []
seen_at c2 = entry 1 ∷ entry 2 ∷ []
seen_at c3 = entry 1 ∷ entry 2 ∷ entry 3 ∷ []

abbrev rest_at : Cursor → List JournalEntry
rest_at c0 = entry 1 ∷ entry 2 ∷ entry 3 ∷ []
rest_at c1 = entry 2 ∷ entry 3 ∷ []
rest_at c2 = entry 3 ∷ []
rest_at c3 = []

abbrev journal : SdJournal Cursor
journal = record {
  open_system = λ j. (j, true);
  open_local = λ j. (j, true);
  close = λ j. j;
  wait = λ j. (j, true);
  next = step;
  seek_tail = λ j. (c3, true);
  previous_skip = λ n j. (c1, to_entry);
  entry_data = λ j. data_at (number_at j);
  atoi = digit;
  is_late = λ j. false;
}

abbrev view : View Cursor
view = record { seen = seen_at; rest = rest_at }

advances :
    (j : Cursor)
    → (step j).1 ≡ to_entry
    → (rest_at j ≡ entry (number_at (step j).0) ∷ rest_at (step j).0)
      × (seen_at (step j).0 ≡ seen_at j ++ (entry (number_at (step j).0) ∷ []))
advances c0 e = (refl, refl)
advances c1 e = (refl, refl)
advances c2 e = (refl, refl)
advances c3 e = absurd (ground (arith, e))

stays : (j : Cursor) → is_entry (step j).1 ≡ false → seen_at (step j).0 ≡ seen_at j
stays c0 e = absurd (ground (arith, e))
stays c1 e = absurd (ground (arith, e))
stays c2 e = absurd (ground (arith, e))
stays c3 e = refl

ends : (j : Cursor) → (step j).1 ≡ at_end → rest_at j ≡ []
ends c0 e = absurd (ground (arith, e))
ends c1 e = absurd (ground (arith, e))
ends c2 e = absurd (ground (arith, e))
ends c3 e = refl

readable : (j : Cursor) → is_entry (step j).1 ≡ false → (step j).1 ≡ at_end
readable c0 e = absurd (ground (arith, e))
readable c1 e = absurd (ground (arith, e))
readable c2 e = absurd (ground (arith, e))
readable c3 e = refl

short : (j : Cursor) → length (rest_at j) < 4
short c0 = omega arith
short c1 = omega arith
short c2 = omega arith
short c3 = omega arith

journal-IsJournal : IsJournal journal view
journal-IsJournal = record {
  waited = λ j. refl;
  advanced = advances;
  stayed = stays;
  ended = ends;
  skipped = λ n j e. ([], refl);
}

-- One entry has been read.
abbrev reader : Reader Cursor
reader = record { is_open = true; buffer = entry 1 ∷ []; journal = c1 }

stays_open : (ingest config journal 4 reader).is_open ≡ true
unfolding ingest drain
stays_open = refl

ingest-IsWindow_example :
    IsSuffix
      (seen_at (ingest config journal 4 reader).journal)
      (ingest config journal 4 reader).buffer
    × (length (ingest config journal 4 reader).buffer ≤ buffer_cap config)
ingest-IsWindow_example =
    ingest-IsWindow config journal view journal-IsJournal (λ j. refl) 4 short reader
      (λ o. (([], refl), omega arith)) stays_open

ingest-appended_example :
    let all = entry 1 ∷ entry 2 ∷ entry 3 ∷ [] in
    (ingest config journal 4 reader).buffer ≡ drop (length all - buffer_cap config) all
ingest-appended_example =
    ingest-appended config journal view journal-IsJournal readable 4 reader refl refl (omega arith)

-- A unit that has restarted often, and one that is not loaded.
abbrev named : Str → Answer Str
named [] = bus_error (str "no such unit")
named (c ∷ cs) = if c == 97 then answer (c ∷ cs) else bus_error (str "no such unit")

abbrev systemd : Systemd
systemd = record {
  get_unit = named;
  active_state = λ p. answer (str "active");
  n_restarts = λ p. answer 5;
  result = λ p. answer (str "success");
}

abbrev monitored : List Str
monitored = str "app.service" ∷ str "other.service" ∷ []

collect-roll_up_example :
    Services.collect config (some systemd) none monitored
    ≡ value (record services_status_default {
      overall = roll_up (map (judged config systemd none) monitored);
      units = map (judged config systemd none) monitored;
    })
collect-roll_up_example = collect-roll_up config systemd none monitored

-- NTP is off, and the battery is low.
abbrev files : RtcFiles
files = record {
  hctosys = some (pos 1);
  battery_voltage = some 2600000;
  since_epoch = some 1700000000;
}

collect-observed_example :
    TimeSync.collect config 1700000001000000 1700000001 none files
    ≡ value (record (collected config 1700000001000000 1700000001 none files) {
      overall = Severity.warn;
    })
collect-observed_example = collect-observed config 1700000001000000 1700000001 none files

abbrev booted_slot : SlotProps
booted_slot =
    (str "state", text (str "booted"))
    ∷ (str "bootname", text (str "A"))
    ∷ (str "boot-status", text (str "bad"))
    ∷ []

collect-severity_example :
    (s : UpdateStatus) × (Update.collect (λ t. none) getters config (some (booted_slot ∷ [])) none
      ≡ value s)
    × (s.overall ≡ severity_of s.last_update)
collect-severity_example =
    collect-severity (λ t. none) getters config (some (booted_slot ∷ [])) none refl

-- Two interfaces, one of which gets an address.
abbrev ntop : List ℕ → Option Str
ntop bytes = some (str "192.0.2.1")

abbrev buffers : List (List Message)
buffers =
    (new_link 2 65 (ifname (str "eth0") ∷ carrier 1 ∷ [])
      ∷ new_link 1 1 (ifname (str "lo") ∷ [])
      ∷ [])
    ∷ (new_addr true 2 (ifa_address (192 ∷ 0 ∷ 2 ∷ 1 ∷ []) ∷ []) ∷ [])
    ∷ []

drain_events-told_example :
    (find_entry 2 (drain_events ntop buffers []) ≡ told_all ntop 2 (concat buffers) none)
    × IsSorted (drain_events ntop buffers [])
drain_events-told_example = drain_events-told ntop 2 buffers [] tt

abbrev device_files : DeviceFiles
device_files = record {
  os_release = some (str "ID=yocto" ∷ []);
  serial_number = some [];
  machine_id = some (str "4c8f ");
  hostname = none;
  gethostname = some (str "edge");
  uname = none;
}

collect-IsNamed_example :
    (info : DeviceInfo) × (Device.collect config device_files ≡ value info) × IsNamed info.device_id
collect-IsNamed_example = collect-IsNamed config device_files

abbrev zone_entries : List ThermalEntry
zone_entries =
    record {
      name = str "thermal_zone0";
      type_line = some (str "cpu");
      millidegrees = some (pos 45000);
    }
    ∷ record { name = str "thermal_zone1"; type_line = none; millidegrees = some (pos 900000) }
    ∷ []

collect_thermal-AreTruthful_example :
    AreTruthful milli (zones milli zone_entries) (collect_thermal milli (some zone_entries))
collect_thermal-AreTruthful_example = collect_thermal-AreTruthful milli zone_entries

-- A message, two that are suppressed, and one that tells of them.
abbrev failures : List (ℕ × Str)
failures =
    (100, str "no bus")
    ∷ (110, str "no bus")
    ∷ (120, str "no bus")
    ∷ (70000000000, str "timeout")
    ∷ []

abbrev limiters : Limiters
limiters = record {
  device = rate_limiter_default;
  boot = rate_limiter_default;
  services = rate_limiter_default;
  resources = rate_limiter_default;
  time_sync = rate_limiter_default;
  update = rate_limiter_default;
  other = rate_limiter_default;
}
