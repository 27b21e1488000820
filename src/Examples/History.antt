-- ===== src/Examples/History.antt =====
-- The daemon's histories at concrete inputs.
use edge_healthd.Prelude.{
  false, ℕ, ◌↔◌, ◌≡◌, refl, true, none, some, List, [], ◌∷◌, length, if◌then◌else◌, str, str_eq,
  opt_str_eq, ltb, arith,
}
use edge_healthd.Prelude.Double.{milli}
use edge_healthd.Types.Enums.{Severity}
use edge_healthd.Types.Sections.{
  ServicesStatus, CrashStatus, boot_status_default, services_status_default,
  resources_status_default, time_sync_status_default, journal_status_default, crash_status_default,
  update_status_default,
}
use edge_healthd.Daemon.Schedule.{
  maybe_collect, take_reading, due, mark_stale, force_due, Reading, seconds, stamp_fresh,
}
use edge_healthd.Daemon.Schedule.Refines.{section_cycles, section_cycles-held, held, observe_all}
use edge_healthd.Daemon.State.{
  initialize, unread, boot_freshness, services_freshness, resources_freshness, time_sync_freshness,
  journal_freshness, crash_freshness, update_freshness,
}
use edge_healthd.Daemon.Cycle.{collection_cycle, cycle_state}
use edge_healthd.Daemon.Cycle.Collect.{collect_sections}
use edge_healthd.Aggregator.Evaluate.{evaluate_crash}
use edge_healthd.Aggregator.Aggregate.{aggregate}
use edge_healthd.Daemon.Cycle.Alarm.{panic_fingerprint}
use edge_healthd.Daemon.Cycle.Alarm.Latch.{crash_alarms, alarms_at_edges, crash_alarms-edges}
use edge_healthd.Daemon.Callbacks.{on_acknowledge, on_trigger, is_rate_limited}
use edge_healthd.Daemon.Callbacks.Limit.{accepted, IsSpaced, accepted-IsSpaced}
use edge_healthd.Daemon.Run.{trigger, rauc_completed, acknowledge, shutdown, step, run}
use edge_healthd.Daemon.Run.Invariant.{Inv, run-initialize-Inv}
use edge_healthd.Daemon.Run.Sections.{readings, holds, run-sections}
use edge_healthd.Daemon.Run.Acknowledge.{
  on_acknowledge_iff, acknowledge-crash, rauc_completed-update,
}
use edge_healthd.Daemon.Cycle.Written.{snapshots, collection_cycle-snapshots}
use edge_healthd.Daemon.State.{write_failed}
use edge_healthd.Daemon.Loop.{Turn, main_loop, run_daemon}
use edge_healthd.Daemon.Loop.Turns.{run_daemon-snapshots}
use edge_healthd.Daemon.Loop.Shutdown.{SameCycles, main_loop-shutdown}
use edge_healthd.Examples.Data.{config, panic, services, inputs, answers, fails, history, alarmed}

run-initialize-Inv_example : Inv alarmed
run-initialize-Inv_example = run-initialize-Inv milli config true history

run-sections_example :
    let s = alarmed.sections in
    (s.boot ≡ holds (unread 60 boot_status_default) (readings (λ i. i.boot) history))
    × (s.services ≡ holds (unread 60 services_status_default) (readings (λ i. i.services) history))
    × (s.resources
        ≡ holds (unread 60 (resources_status_default 0)) (readings (λ i. i.resources) history))
    × (s.time_sync
        ≡ holds (unread 300 time_sync_status_default) (readings (λ i. i.time_sync) history))
    × (s.journal ≡ holds (unread 60 journal_status_default) (readings (λ i. i.journal) history))
run-sections_example = run-sections milli config true history

-- Read once, then not answered for long enough to be stale.
abbrev outage : List (ℕ × Reading ServicesStatus)
outage = (seconds 1, answers 1 services) ∷ (seconds 100, fails) ∷ (seconds 200, fails) ∷ []

section_cycles-held_example :
    section_cycles outage (unread 60 services_status_default)
    ≡ held (unread 60 services_status_default) (seconds 200) (observe_all 60 outage none)
section_cycles-held_example = section_cycles-held (unread 60 services_status_default) outage refl

crash_alarms-edges_example :
    crash_alarms none (panic ∷ panic ∷ crash_status_default ∷ panic ∷ [])
    ≡ alarms_at_edges none (panic ∷ panic ∷ crash_status_default ∷ panic ∷ [])
crash_alarms-edges_example = crash_alarms-edges (panic ∷ panic ∷ crash_status_default ∷ panic ∷ [])

abbrev calls : List ℕ
calls = seconds 20 ∷ seconds 22 ∷ seconds 26 ∷ []

accepted-IsSpaced_example :
    IsSpaced (seconds 5) none (accepted calls (initialize milli config true))
unfolding initialize
accepted-IsSpaced_example = accepted-IsSpaced calls (initialize milli config true) (omega arith)

on_acknowledge_iff_example :
    ((on_acknowledge (str "fp-1") true alarmed).1 ≡ true)
    ↔ ((true ≡ true) × (panic_fingerprint alarmed.current_state.crash ≡ some (str "fp-1")))
on_acknowledge_iff_example =
    on_acknowledge_iff (str "fp-1") true alarmed (run-initialize-Inv milli config true history)

abbrev acknowledged : CrashStatus
acknowledged = record panic { acknowledged = true }

-- The panic of the history can be acknowledged, and its sections are collected every minute.
alarmed_is_ready :
    ((on_acknowledge (str "fp-1") true alarmed).1 ≡ true)
    × (ltb 0 alarmed.sections.crash.sched.interval ≡ true)
    × (ltb 0 alarmed.sections.update.sched.interval ≡ true)
unfolding on_acknowledge run step initialize collection_cycle collect_sections cycle_state aggregate
    panic_fingerprint on_trigger is_rate_limited maybe_collect take_reading due mark_stale force_due
    opt_str_eq str_eq str
alarmed_is_ready = (refl, refl, refl)

acknowledge-crash_example :
    let s =
      (collection_cycle milli
        (inputs 13 acknowledged)
        (run milli
          (acknowledge (str "fp-1") true ∷ trigger (seconds 12) ∷ [])
          alarmed).0).0.current_state in
    (s.crash ≡ stamp_fresh 13 acknowledged)
    × (s.summary.domains.crash
        ≡ (if acknowledged.acknowledged then Severity.ok else evaluate_crash acknowledged))
acknowledge-crash_example =
    acknowledge-crash milli (str "fp-1") true (trigger (seconds 12) ∷ []) (inputs 13 acknowledged)
      alarmed acknowledged alarmed_is_ready.0 (tt, tt) alarmed_is_ready.1 refl

rauc_completed-update_example :
    (collection_cycle milli
      (inputs 13 panic)
      (run milli (rauc_completed ∷ trigger (seconds 12) ∷ []) alarmed).0).0.current_state.update
    ≡ stamp_fresh 13 update_status_default
rauc_completed-update_example =
    rauc_completed-update milli (trigger (seconds 12) ∷ []) (inputs 13 panic) alarmed
      update_status_default (tt, tt) alarmed_is_ready.2 refl

abbrev quiet_turn : Turn ℕ
quiet_turn = record {
  is_signalled = false;
  events = trigger (seconds 14) ∷ [];
  is_signalled_after = false;
  inputs = inputs 15 panic;
}

abbrev last_turn : Turn ℕ
last_turn = record {
  is_signalled = false;
  events = rauc_completed ∷ shutdown ∷ [];
  is_signalled_after = false;
  inputs = inputs 16 panic;
}

main_loop-shutdown_example :
    (main_loop milli (quiet_turn ∷ last_turn ∷ quiet_turn ∷ []) alarmed
      ≡ main_loop milli (quiet_turn ∷ last_turn ∷ []) alarmed)
    × ((main_loop milli (quiet_turn ∷ last_turn ∷ quiet_turn ∷ []) alarmed).2 ≡ true)
    × SameCycles milli
        (main_loop milli (quiet_turn ∷ last_turn ∷ quiet_turn ∷ []) alarmed)
        (main_loop milli (quiet_turn ∷ []) alarmed)
main_loop-shutdown_example =
    main_loop-shutdown milli (quiet_turn ∷ []) last_turn (quiet_turn ∷ []) alarmed (tt, (tt, tt))
      refl

run_daemon-snapshots_example :
    let r =
      run_daemon milli
        (inputs 10 panic)
        (quiet_turn ∷ quiet_turn ∷ [])
        (initialize milli config true) in
    (length (snapshots r.1) ≡ 3) × (r.2 ≡ false)
unfolding initialize
run_daemon-snapshots_example =
    run_daemon-snapshots milli (inputs 10 panic) (quiet_turn ∷ quiet_turn ∷ [])
      (initialize milli config true) refl
      ((refl, refl, refl, (tt, tt)), ((refl, refl, refl, (tt, tt)), tt))

collection_cycle-snapshots_example :
    (snapshots (collection_cycle milli (inputs 13 panic) alarmed).1
      ≡ (collection_cycle milli (inputs 13 panic) alarmed).0.current_state ∷ [])
    × ((collection_cycle milli
          (record (inputs 13 panic) { write_outcome = write_failed (str "full") })
          alarmed).0
        ≡ (collection_cycle milli (inputs 13 panic) alarmed).0)
collection_cycle-snapshots_example =
    collection_cycle-snapshots milli (inputs 13 panic) alarmed (write_failed (str "full"))
