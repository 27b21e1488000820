-- ===== src/Daemon/Run/Acknowledge.antt =====
-- src/daemon.cpp: what follows from AcknowledgeCrash and from the RAUC signal, in the next cycle.
use edge_healthd.Prelude.{
  ℕ, ap, ◌∙◌, All, ◌≡◌, ◌↔◌, refl, Bool, true, false, some, List, [], ◌∷◌, Str, opt_str_eq_iff, ◌+◌,
  max, ltb, arith, if◌then◌else◌,
}
use edge_healthd.Prelude.Double.{Double}
use edge_healthd.Types.Enums.{Severity}
use edge_healthd.Types.Sections.{CrashStatus, UpdateStatus}
use edge_healthd.Aggregator.Evaluate.{evaluate_crash}
use edge_healthd.Aggregator.Aggregate.{aggregate}
use edge_healthd.Aggregator.Aggregate.RollUp.{judged_crash, aggregate-judged}
use edge_healthd.Probe.Result.{value}
use edge_healthd.Daemon.Schedule.{
  Reading, seconds, due, maybe_collect, take_reading, mark_stale, force_due, stamp_fresh,
  HasFreshness, Section,
}
use edge_healthd.Daemon.State.{Daemon, Inputs, crash_freshness, update_freshness}
use edge_healthd.Daemon.Cycle.{collection_cycle, cycle_state}
use edge_healthd.Daemon.Cycle.Alarm.{panic_fingerprint}
use edge_healthd.Daemon.Cycle.Collect.{collect_sections}
use edge_healthd.Daemon.Callbacks.{on_acknowledge, on_rauc_completed}
use edge_healthd.Daemon.Run.{
  Event, cycle, trigger, acknowledge, rauc_completed, shutdown, step, run,
}
use edge_healthd.Daemon.Callbacks.{request_shutdown, on_trigger}
use edge_healthd.Daemon.Run.Invariant.{Inv}

-- The daemon accepts an acknowledgement exactly if crash_state.json could be replaced and the last
-- snapshot has panic artifacts with that fingerprint.
pub on_acknowledge_iff :
    {F : Type 0} (fingerprint : Str) (saved : Bool) (d : Daemon F)
    → Inv d
    → ((on_acknowledge fingerprint saved d).1 ≡ true)
      ↔ ((saved ≡ true) × (panic_fingerprint d.current_state.crash ≡ some fingerprint))
unfolding on_acknowledge
on_acknowledge_iff fingerprint true d v =
    rw (← v.fingerprint)
      (ground (arith, opt_str_eq_iff d.current_panic_fingerprint (some fingerprint)))
on_acknowledge_iff fingerprint false d v =
    ground (arith, opt_str_eq_iff d.current_panic_fingerprint (some fingerprint))

ltb-later : (now n m : ℕ) → ltb (now + n + m) now ≡ false
ltb-later now n m = ground arith

due-forced :
    (interval now : ℕ) (b : Bool)
    → ltb 0 interval ≡ true
    → due (record { interval = interval; next_run = now; has_result = b }) now ≡ true
unfolding due
due-forced interval now b u = ground arith

-- A forced reading that succeeds is what the section holds after the cycle.
forced-cache :
    {T : Type 0} ⦃h : HasFreshness T⦄ (now : ℕ) (r : Reading T) (x : T) (s : Section T)
    → ltb 0 s.sched.interval ≡ true
    → r.result ≡ value x
    → (mark_stale now (maybe_collect stamp_fresh now r (force_due true now s)).0).cache
      ≡ stamp_fresh r.read_at x
unfolding mark_stale maybe_collect force_due take_reading
forced-cache ⦃h⦄ now r x s u e = rw (due-forced s.sched.interval now s.sched.has_result u) (
    rw e (
      rw u (
        rw (
          ltb-later now (seconds s.sched.interval) (seconds (max s.sched.interval 30)),
          h.of-with,
          h.with-with,
        ))))

-- What happens between two cycles.
abbrev pub IsCallback : {F : Type 0} → Event F → Type 0
IsCallback (cycle i) = ⊥
IsCallback _ = Unit

step-pending :
    {F : Type 0} (fp : Double F) (e : Event F) (d : Daemon F)
    → IsCallback e
    → (d.rauc_update_pending ≡ true → (step fp e d).0.rauc_update_pending ≡ true)
      × (d.crash_ack_pending ≡ true → (step fp e d).0.crash_ack_pending ≡ true)
      × ((step fp e d).0.sections ≡ d.sections)
unfolding step on_rauc_completed request_shutdown on_trigger on_acknowledge
step-pending fp (cycle i) d h = absurd h
step-pending fp (trigger now) d h = ground arith
step-pending fp (acknowledge fingerprint true) d h = ground arith
step-pending fp (acknowledge fingerprint false) d h = ground arith
step-pending fp rauc_completed d h = ground arith
step-pending fp shutdown d h = ground arith

run-pending :
    {F : Type 0} (fp : Double F) (es : List (Event F)) (d : Daemon F)
    → All IsCallback es
    → (d.rauc_update_pending ≡ true → (run fp es d).0.rauc_update_pending ≡ true)
      × (d.crash_ack_pending ≡ true → (run fp es d).0.crash_ack_pending ≡ true)
      × ((run fp es d).0.sections ≡ d.sections)
unfolding run
run-pending fp [] d h = (λ p. p, λ p. p, refl)
run-pending fp (e ∷ es) d h =
    let (u, a, s) = step-pending fp e d h.0 in
    let (us, cs, ss) = run-pending fp es (step fp e d).0 h.1 in
    (λ p. us (u p), λ p. cs (a p), ss ∙ s)

forced-update :
    {F : Type 0} (fp : Double F) (i : Inputs F) (d : Daemon F) (u : UpdateStatus)
    → d.rauc_update_pending ≡ true
    → ltb 0 d.sections.update.sched.interval ≡ true
    → i.update.result ≡ value u
    → (collection_cycle fp i d).0.current_state.update ≡ stamp_fresh i.update.read_at u
unfolding collection_cycle cycle_state aggregate collect_sections
forced-update fp i d u p h e = rw p (forced-cache i.now i.update u d.sections.update h e)

forced-crash :
    {F : Type 0} (fp : Double F) (i : Inputs F) (d : Daemon F) (c : CrashStatus)
    → d.crash_ack_pending ≡ true
    → ltb 0 d.sections.crash.sched.interval ≡ true
    → i.crash.result ≡ value c
    → (collection_cycle fp i d).0.current_state.crash ≡ stamp_fresh i.crash.read_at c
unfolding collection_cycle cycle_state aggregate collect_sections
forced-crash fp i d c p h e = rw p (forced-cache i.now i.crash c d.sections.crash h e)

-- After RAUC has reported a completed installation, and whatever D-Bus clients ask for before the
-- next cycle, that cycle reads the update status anew: its snapshot has what the probe answered,
-- fresh as of then, if the probe succeeds and the interval of the section is above 0.
pub rauc_completed-update :
    {F : Type 0} (fp : Double F) (es : List (Event F)) (i : Inputs F) (d : Daemon F)
    (u : UpdateStatus)
    → All IsCallback es
    → ltb 0 d.sections.update.sched.interval ≡ true
    → i.update.result ≡ value u
    → (collection_cycle fp i (run fp (rauc_completed ∷ es) d).0).0.current_state.update
      ≡ stamp_fresh i.update.read_at u
unfolding run step on_rauc_completed
rauc_completed-update fp es i d u h p e =
    let (us, cs, ss) = run-pending fp es (on_rauc_completed d).0 h in
    forced-update fp i (run fp es (on_rauc_completed d).0).0 u (us refl) (rw ss p) e

acknowledged-pending :
    {F : Type 0} (fingerprint : Str) (saved : Bool) (d : Daemon F)
    → (on_acknowledge fingerprint saved d).1 ≡ true
    → ((on_acknowledge fingerprint saved d).0.crash_ack_pending ≡ true)
      × ((on_acknowledge fingerprint saved d).0.sections ≡ d.sections)
unfolding on_acknowledge
acknowledged-pending fingerprint true d h = ground arith
acknowledged-pending fingerprint false d h = ground arith

cycle-judged :
    {F : Type 0} (fp : Double F) (i : Inputs F) (d : Daemon F)
    → let s = (collection_cycle fp i d).0.current_state in
      s.crash.freshness.stale ≡ false → s.summary.domains.crash ≡ judged_crash s.crash
unfolding collection_cycle cycle_state aggregate
cycle-judged fp i d f =
    let s = (collect_sections d.rauc_update_pending d.crash_ack_pending i d.sections).0 in
    aggregate-judged fp d.config i.cores i.generated_at s.device.cache s.boot.cache s.services.cache
      s.resources.cache s.time_sync.cache s.update.cache s.journal.cache s.crash.cache f

-- After an accepted acknowledgement, and whatever else is asked for before the next cycle, that
-- cycle reads the crash status anew, if the probe succeeds and the interval of the section is above
-- 0, and the crash domain of its snapshot is ok if what it reads is acknowledged, and otherwise what
-- the aggregator makes of it.
pub acknowledge-crash :
    {F : Type 0} (fp : Double F) (fingerprint : Str) (saved : Bool) (es : List (Event F))
    (i : Inputs F) (d : Daemon F) (c : CrashStatus)
    → (on_acknowledge fingerprint saved d).1 ≡ true
    → All IsCallback es
    → ltb 0 d.sections.crash.sched.interval ≡ true
    → i.crash.result ≡ value c
    → let s =
        (collection_cycle fp i (run fp (acknowledge fingerprint saved ∷ es) d).0).0.current_state in
      (s.crash ≡ stamp_fresh i.crash.read_at c)
      × (s.summary.domains.crash ≡ (if c.acknowledged then Severity.ok else evaluate_crash c))
unfolding run step evaluate_crash
acknowledge-crash fp fingerprint saved es i d c acc h p e =
    let (pending, kept) = acknowledged-pending fingerprint saved d acc in
    let (us, cs, ss) = run-pending fp es (on_acknowledge fingerprint saved d).0 h in
    let read =
      forced-crash fp i (run fp es (on_acknowledge fingerprint saved d).0).0 c (cs pending)
        (rw (ss ∙ kept) p) e in
    let d' = (run fp es (on_acknowledge fingerprint saved d).0).0 in
    (read, cycle-judged fp i d' (ap (λ x. x.freshness.stale) read) ∙ ap judged_crash read)
