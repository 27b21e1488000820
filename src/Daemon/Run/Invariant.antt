-- ===== src/Daemon/Run/Invariant.antt =====
-- What holds of the daemon after every history of events.
use edge_healthd.Prelude.{
  ℕ, ◌+◌, ◌%◌, ◌^◌, ◌<◌, ◌≡◌, refl, sym, ◌∙◌, Bool, true, false, Option, none, some, List, [], ◌∷◌,
  Memᴰ, Str, opt_str_eq, Bool-cases, inl, inr, arith,
}
use edge_healthd.Prelude.Int.{pos_part}
use edge_healthd.Prelude.Double.{Double}
use edge_healthd.Types.Enums.{Severity, severity_to_string}
use edge_healthd.Types.Snapshot.{SnapshotState, domain_list, snapshot_state_default}
use edge_healthd.Config.{Config}
use edge_healthd.Aggregator.WorstOf.{rank}
use edge_healthd.Aggregator.WorstOf.Laws.{RankAtMost}
use edge_healthd.Aggregator.Aggregate.RollUp.{aggregate_worst}
use edge_healthd.HealthManager.{HealthManager, health_manager_initial, update_recent_logs}
use edge_healthd.HealthManager.Laws.{update_severity_lem}
use edge_healthd.Daemon.State.{Daemon, Inputs, Sections, initialize}
use edge_healthd.Daemon.Cycle.{collection_cycle, publish, cycle_state}
use edge_healthd.Daemon.Cycle.Collect.{collect_sections}
use edge_healthd.Daemon.Cycle.Alarm.{panic_fingerprint}
use edge_healthd.Daemon.Callbacks.{
  is_rate_limited, on_trigger, on_acknowledge, on_rauc_completed, request_shutdown,
}
use edge_healthd.Daemon.Run.{
  Event, cycle, trigger, acknowledge, rauc_completed, shutdown, step, run,
}

-- What D-Bus clients read agrees with the last snapshot.
abbrev pub ManagerAgrees : {F : Type 0} → Option HealthManager → SnapshotState F → Type 0
ManagerAgrees none s = Unit
ManagerAgrees (some m) s =
    (m.severity_str ≡ severity_to_string m.last_sev)
    × (m.last_sev ≡ s.summary.severity)
    × (m.logs_cache ≡ s.journal.recent_errors)

pub record Inv {F : Type 0} (d : Daemon F) : Type 0 where
  pub agrees : ManagerAgrees d.health_manager d.current_state
  pub severity : d.last_severity ≡ d.current_state.summary.severity
  pub worst :
      RankAtMost
        (rank d.current_state.summary.severity)
        (domain_list d.current_state.summary.domains)
  pub attained : Memᴰ d.current_state.summary.severity (domain_list d.current_state.summary.domains)
  pub fingerprint : d.current_panic_fingerprint ≡ panic_fingerprint d.current_state.crash
  pub counted : d.current_state.cycle ≡ d.cycle_count
  pub bounded : d.cycle_count < 2 ^ 64

publish-agrees :
    {F : Type 0} (s before : SnapshotState F) (prev : Severity) (latch : Option Str)
    (m : Option HealthManager)
    → prev ≡ before.summary.severity
    → ManagerAgrees m before
    → ManagerAgrees (publish s prev latch m).0 s
unfolding publish update_recent_logs
publish-agrees s before prev latch none e h = tt
publish-agrees s before prev latch (some m) e h =
    rw (e ∙ sym h.1) (rw (update_severity_lem s.summary.severity m h.0) (refl, refl, refl))

cycle_state-worst :
    {F : Type 0} (fp : Double F) (c : Config F) (i : Inputs F) (n : ℕ) (s : Sections F)
    → let summary = (cycle_state fp c i n s).summary in
      RankAtMost (rank summary.severity) (domain_list summary.domains)
      × Memᴰ summary.severity (domain_list summary.domains)
unfolding cycle_state
cycle_state-worst fp c i n s =
    aggregate_worst fp c i.cores i.generated_at s.device.cache s.boot.cache s.services.cache
      s.resources.cache s.time_sync.cache s.update.cache s.journal.cache s.crash.cache

cycle_state-cycle :
    {F : Type 0} (fp : Double F) (c : Config F) (i : Inputs F) (n : ℕ) (s : Sections F)
    → (cycle_state fp c i n s).cycle ≡ n
unfolding cycle_state
cycle_state-cycle fp c i n s = refl

pub collection_cycle-Inv :
    {F : Type 0} (fp : Double F) (i : Inputs F) (d : Daemon F)
    → Inv d
    → Inv (collection_cycle fp i d).0
unfolding collection_cycle
collection_cycle-Inv fp i d v =
    let s = (collect_sections d.rauc_update_pending d.crash_ack_pending i d.sections).0 in
    let n = (d.cycle_count + 1) % 2 ^ 64 in
    record {
      agrees =
          publish-agrees (cycle_state fp d.config i n s) d.current_state d.last_severity
            d.last_alarmed_crash_fp d.health_manager v.severity v.agrees;
      severity = refl;
      worst = (cycle_state-worst fp d.config i n s).0;
      attained = (cycle_state-worst fp d.config i n s).1;
      fingerprint = refl;
      counted = cycle_state-cycle fp d.config i n s;
      bounded = omega arith;
    }

-- The flags and the time of the last trigger do not matter.
pub flags-Inv :
    {F : Type 0} (d : Daemon F) (rauc ack requested down : Bool) (last : Option ℕ)
    → Inv d
    → Inv (record d {
      rauc_update_pending = rauc;
      crash_ack_pending = ack;
      trigger_requested = requested;
      shutdown_requested = down;
      last_trigger_time = last;
    })
flags-Inv d rauc ack requested down last v = record {
  agrees = v.agrees;
  severity = v.severity;
  worst = v.worst;
  attained = v.attained;
  fingerprint = v.fingerprint;
  counted = v.counted;
  bounded = v.bounded;
}

on_trigger-Inv : {F : Type 0} (now : ℕ) (d : Daemon F) → Inv d → Inv (on_trigger now d).0
unfolding on_trigger
on_trigger-Inv now d v =
    elim (Bool-cases
      (is_rate_limited (pos_part d.config.trigger_min_interval) now d.last_trigger_time)) [
        | inl e ↦ rw (e, on_trigger) v
        | inr e ↦ rw (e, on_trigger) (flags-Inv d _ _ true _ (some now) v)
      ]

on_acknowledge-Inv :
    {F : Type 0} (fingerprint : Str) (saved : Bool) (d : Daemon F)
    → Inv d
    → Inv (on_acknowledge fingerprint saved d).0
unfolding on_acknowledge
on_acknowledge-Inv fingerprint saved d v =
    elim (Bool-cases (opt_str_eq d.current_panic_fingerprint (some fingerprint))) [
      | inl e ↦ elim (Bool-cases saved) [
        | inl k ↦ rw (e, k, on_acknowledge) (flags-Inv d _ true true _ _ v)
        | inr k ↦ rw (e, k, on_acknowledge) v
      ]
      | inr e ↦ rw (e, on_acknowledge) v
    ]

step-Inv : {F : Type 0} (fp : Double F) (e : Event F) (d : Daemon F) → Inv d → Inv (step fp e d).0
unfolding step on_rauc_completed request_shutdown
step-Inv fp (cycle i) d v = collection_cycle-Inv fp i d v
step-Inv fp (trigger now) d v = on_trigger-Inv now d v
step-Inv fp (acknowledge fingerprint saved) d v = on_acknowledge-Inv fingerprint saved d v
step-Inv fp rauc_completed d v = flags-Inv d true _ true _ _ v
step-Inv fp shutdown d v = flags-Inv d _ _ _ true _ v

pub run-Inv :
    {F : Type 0} (fp : Double F) (es : List (Event F)) (d : Daemon F) → Inv d → Inv (run fp es d).0
unfolding run
run-Inv fp [] d v = v
run-Inv fp (e ∷ es) d v = run-Inv fp es (step fp e d).0 (step-Inv fp e d v)

pub initialize-Inv :
    {F : Type 0} (fp : Double F) (c : Config F) (dbus : Bool) → Inv (initialize fp c dbus)
unfolding initialize snapshot_state_default health_manager_initial panic_fingerprint
initialize-Inv fp c true = record {
  agrees = (unfold severity_to_string in refl, refl, refl);
  severity = refl;
  worst = omega arith;
  attained = Memᴰ.head refl;
  fingerprint = refl;
  counted = refl;
  bounded = omega arith;
}
initialize-Inv fp c false = record {
  agrees = tt;
  severity = refl;
  worst = omega arith;
  attained = Memᴰ.head refl;
  fingerprint = refl;
  counted = refl;
  bounded = omega arith;
}

-- After every history of cycles, triggers, acknowledgements, RAUC signals and shutdown requests,
-- what D-Bus clients read (the severity text and the log lines) is that of the last snapshot, the
-- snapshot's severity is that of its worst domain, the fingerprint that can be acknowledged is that
-- of its panic artifacts, and its cycle number is the daemon's count, which fits 64 bits.
pub run-initialize-Inv :
    {F : Type 0} (fp : Double F) (c : Config F) (dbus : Bool) (es : List (Event F))
    → Inv (run fp es (initialize fp c dbus)).0
run-initialize-Inv fp c dbus es = run-Inv fp es (initialize fp c dbus) (initialize-Inv fp c dbus)
