-- ===== src/Examples/Sources.antt =====
-- The boot probe and the journal at concrete inputs.
use edge_healthd.Prelude.{
  ℕ, ◌≤◌, ◌↔◌, ◌≡◌, refl, true, false, Option, none, some, List, [], ◌∷◌, Str, str, str_eq,
  opt_str_eq, ◌==◌, if◌then◌else◌, inl, inr, Bool-cases, arith,
}
use edge_healthd.Prelude.Int.{pos}
use edge_healthd.Types.Enums.{Severity}
use edge_healthd.Aggregator.Evaluate.{evaluate_boot}
use edge_healthd.Probe.Boot.{BootState, BootFields, present, BootJson, collect}
use edge_healthd.Probe.Boot.Streak.{Boot, boots, streak, collect-streak}
use edge_healthd.Journal.Filter.{JournalEntry}
use edge_healthd.Journal.Utf8.{sanitize_utf8}
use edge_healthd.Journal.Utf8.Encoding.{encode_all}
use edge_healthd.Journal.Utf8.WellFormed.{
  IsWellFormed, sanitize_utf8-IsWellFormed, sanitize_utf8-encode_all,
}
use edge_healthd.Aggregator.Evaluate.{evaluate_crash}
use edge_healthd.Probe
use edge_healthd.Probe.Crash.Reached.{HasFault}
use edge_healthd.Probe.Crash.{DirEntry, regular}
use edge_healthd.Probe.Crash.Judged.{evaluate_crash-collect}
use edge_healthd.Examples.Data.{config}

-- A stand-in for JSON: the flag, the number, and the bytes of the id.
toy_dump : BootState → Str
toy_dump s = (if s.last_boot_ok then 1 else 0) ∷ s.consecutive_failures ∷ s.last_boot_id

toy_parse : Str → Option BootFields
toy_parse (ok ∷ n ∷ id) = some (record {
  last_boot_id = present id;
  consecutive_failures = present n;
  last_boot_ok = present (ok == 1);
})
toy_parse _ = none

toy_parse-dump :
    (s : BootState)
    → toy_parse (toy_dump s)
      ≡ some (record {
        last_boot_id = present s.last_boot_id;
        consecutive_failures = present s.consecutive_failures;
        last_boot_ok = present s.last_boot_ok;
      })
unfolding toy_parse toy_dump
toy_parse-dump s = elim (Bool-cases s.last_boot_ok) [ inl h ↦ simp h refl | inr h ↦ simp h refl ]

abbrev toy_json : BootJson
toy_json = record { dump = toy_dump; parse = toy_parse; parse-dump = toy_parse-dump }

abbrev boot_loop : List Boot
boot_loop =
    record { boot_id = str "a"; successful = true }
    ∷ record { boot_id = str "b"; successful = false }
    ∷ record { boot_id = str "c"; successful = false }
    ∷ []

collect-streak_example :
    let status =
      (collect toy_json
        (str "d")
        90000000000
        30
        true
        (boots toy_json 90000000000 30 boot_loop none)).0 in
    (status.boot_fail_count ≡ streak 0 boot_loop)
    × ((evaluate_boot config.thresholds status ≡ Severity.crit)
        ↔ (config.thresholds.boot_fail_crit ≤ streak 0 boot_loop))
unfolding str str_eq
collect-streak_example =
    collect-streak toy_json config.thresholds 90000000000 30 boot_loop (str "d") (omega arith)
      (refl, (refl, (refl, (refl, (refl, (refl, refl))))))

abbrev entry : ℕ → Str → JournalEntry
entry priority message = record {
  realtime_usec = 1000;
  priority = pos priority;
  message = message;
  unit = str "sshd.service";
  unit_hint = [];
  syslog_id = str "sshd";
}

abbrev buffer : List JournalEntry
buffer = entry 6 (str "started") ∷ entry 3 (str "failed") ∷ entry 2 [] ∷ []

-- An invalid byte, a letter, a truncated sequence.
abbrev raw : Str
raw = 255 ∷ 97 ∷ 226 ∷ 130 ∷ []

sanitize_utf8-IsWellFormed_example : IsWellFormed (sanitize_utf8 raw)
sanitize_utf8-IsWellFormed_example = sanitize_utf8-IsWellFormed raw

-- A letter, the euro sign, an emoji.
abbrev scalars : List ℕ
scalars = 97 ∷ 8364 ∷ 128512 ∷ []

sanitize_utf8-encode_all_example : sanitize_utf8 (encode_all scalars) ≡ encode_all scalars
sanitize_utf8-encode_all_example =
    sanitize_utf8-encode_all scalars
      (inl (omega arith), (inl (omega arith), (inr (omega arith, omega arith), tt)))

abbrev dump_entry : DirEntry
dump_entry = record {
  name = str "dmesg-efi-1";
  kind = regular;
  size = some 4096;
  mtime = some (record { written = 2000000000; file_now = 5000000000; system_now = 5000000000 });
}

abbrev console_entry : DirEntry
console_entry = record { name = str "console-ramoops-0"; kind = regular; size = none; mtime = none }

abbrev pstore : List DirEntry
pstore = dump_entry ∷ console_entry ∷ []

evaluate_crash-collect_example :
    (evaluate_crash (Probe.Crash.collect 1000000000 (some pstore) none) ≡ Severity.crit) ↔ (
      HasFault 1000000000 pstore
      × (opt_str_eq none (Probe.Crash.collect 1000000000 (some pstore) none).fingerprint ≡ false))
evaluate_crash-collect_example = evaluate_crash-collect 1000000000 pstore none (omega arith)

-- The system's clock was read 2 nanoseconds after the file's clock.
abbrev pstore_later : List DirEntry
pstore_later =
    record dump_entry {
      mtime =
          some (record { written = 2000000000; file_now = 9000000000; system_now = 9000000002 });
    }
    ∷ console_entry
    ∷ []
