-- ===== src/Daemon/Run/Sections.antt =====
-- The sections of the daemon over a history of events: only the cycles touch them.
use edge_healthd.Prelude.{
  ℕ, ◌≡◌, refl, ◌∙◌, ap, Bool, arith, true, false, none, List, [], ◌∷◌, inl, inr, Str, Bool-cases,
}
use edge_healthd.Prelude.Int.{pos_part, pos}
use edge_healthd.Prelude.Double.{Double}
use edge_healthd.Types.Sections.{
  boot_status_default, services_status_default, resources_status_default, time_sync_status_default,
  journal_status_default,
}
use edge_healthd.Config.{Config}
use edge_healthd.Daemon.Schedule.{Section, Reading, HasFreshness}
use edge_healthd.Daemon.Schedule.Refines.{
  section_cycle, section_cycles, section_cycles-held, held, end_time, observe_all,
}
use edge_healthd.Daemon.State.{
  Daemon, Sections, Inputs, initialize, unread, boot_freshness, services_freshness,
  resources_freshness, time_sync_freshness, journal_freshness,
}
use edge_healthd.Daemon.Cycle.{collection_cycle}
use edge_healthd.Daemon.Cycle.Collect.{collect_sections}
use edge_healthd.Daemon.Callbacks.{
  is_rate_limited, on_trigger, on_acknowledge, on_rauc_completed, request_shutdown,
}
use edge_healthd.Daemon.Run.{
  Event, cycle, trigger, acknowledge, rauc_completed, shutdown, step, run,
}

-- What one probe would answer in each cycle of a history.
pub readings : {F T : Type 0} → (Inputs F → Reading T) → List (Event F) → List (ℕ × Reading T)
readings reading [] = []
readings reading (cycle i ∷ es) = (i.now, reading i) ∷ readings reading es
readings reading (trigger now ∷ es) = readings reading es
readings reading (acknowledge fingerprint saved ∷ es) = readings reading es
readings reading (rauc_completed ∷ es) = readings reading es
readings reading (shutdown ∷ es) = readings reading es

on_trigger-sections :
    {F : Type 0} (now : ℕ) (d : Daemon F) → (on_trigger now d).0.sections ≡ d.sections
unfolding on_trigger
on_trigger-sections now d =
    elim (Bool-cases
      (is_rate_limited (pos_part d.config.trigger_min_interval) now d.last_trigger_time)) [
        | inl e ↦ rw (e, on_trigger)
        | inr e ↦ rw (e, on_trigger)
      ]

on_acknowledge-sections :
    {F : Type 0} (fingerprint : Str) (saved : Bool) (d : Daemon F)
    → (on_acknowledge fingerprint saved d).0.sections ≡ d.sections
unfolding on_acknowledge
on_acknowledge-sections fingerprint true d = ground arith
on_acknowledge-sections fingerprint false d = ground arith

module _ {F T : Type 0} ⦃h : HasFreshness T⦄ where
  run-section :
      (get : Sections F → Section T) (reading : Inputs F → Reading T)
      (collects : (rauc ack : Bool) (i : Inputs F) (s : Sections F)
        → get (collect_sections rauc ack i s).0 ≡ section_cycle (i.now, reading i) (get s))
      (fp : Double F) (es : List (Event F)) (d : Daemon F)
      → get (run fp es d).0.sections ≡ section_cycles (readings reading es) (get d.sections)
  unfolding run step readings section_cycles collection_cycle on_rauc_completed request_shutdown
  run-section get reading collects fp [] d = refl
  run-section get reading collects fp (cycle i ∷ es) d =
      run-section get reading collects fp es (collection_cycle fp i d).0
      ∙ ap (section_cycles (readings reading es))
          (collects d.rauc_update_pending d.crash_ack_pending i d.sections)
  run-section get reading collects fp (trigger now ∷ es) d =
      run-section get reading collects fp es (on_trigger now d).0
      ∙ ap (λ s. section_cycles (readings reading es) (get s)) (on_trigger-sections now d)
  run-section get reading collects fp (acknowledge fingerprint saved ∷ es) d =
      run-section get reading collects fp es (on_acknowledge fingerprint saved d).0
      ∙ ap (λ s. section_cycles (readings reading es) (get s))
          (on_acknowledge-sections fingerprint saved d)
  run-section get reading collects fp (rauc_completed ∷ es) d =
      run-section get reading collects fp es (on_rauc_completed d).0
  run-section get reading collects fp (shutdown ∷ es) d =
      run-section get reading collects fp es (request_shutdown d).0

-- What a section holds after a history, as the specification has it.
abbrev pub holds : {T : Type 0} ⦃h : HasFreshness T⦄ → Section T → List (ℕ × Reading T) → Section T
holds s₀ cs = held s₀ (end_time 0 cs) (observe_all s₀.sched.interval cs none)

-- After every history of events the sections for the boot, the services, the resources, the time
-- and the journal hold the last success of their probes in the cycles of the history, as
-- `section_cycles-held` has it, whatever the other events were.
pub run-sections :
    {F : Type 0} (fp : Double F) (c : Config F) (dbus : Bool) (es : List (Event F))
    → let s = (run fp es (initialize fp c dbus)).0.sections in
      let collect = pos_part c.collect_interval in
      (s.boot ≡ holds (unread collect boot_status_default) (readings (λ i. i.boot) es))
      × (s.services
          ≡ holds (unread collect services_status_default) (readings (λ i. i.services) es))
      × (s.resources
          ≡ holds
              (unread collect (resources_status_default (fp.of_int (pos 0))))
              (readings (λ i. i.resources) es))
      × (s.time_sync
          ≡ holds
              (unread (pos_part c.time_sync_interval) time_sync_status_default)
              (readings (λ i. i.time_sync) es))
      × (s.journal ≡ holds (unread collect journal_status_default) (readings (λ i. i.journal) es))
unfolding collect_sections section_cycle initialize
run-sections fp c dbus es =
    let d = initialize fp c dbus in
    (
      run-section (λ s. s.boot) (λ i. i.boot) (λ rauc ack i s. refl) fp es d
          ∙ section_cycles-held d.sections.boot (readings (λ i. i.boot) es) refl,
      run-section (λ s. s.services) (λ i. i.services) (λ rauc ack i s. refl) fp es d
          ∙ section_cycles-held d.sections.services (readings (λ i. i.services) es) refl,
      run-section (λ s. s.resources) (λ i. i.resources) (λ rauc ack i s. refl) fp es d
          ∙ section_cycles-held d.sections.resources (readings (λ i. i.resources) es) refl,
      run-section (λ s. s.time_sync) (λ i. i.time_sync) (λ rauc ack i s. refl) fp es d
          ∙ section_cycles-held d.sections.time_sync (readings (λ i. i.time_sync) es) refl,
      run-section (λ s. s.journal) (λ i. i.journal) (λ rauc ack i s. refl) fp es d
          ∙ section_cycles-held d.sections.journal (readings (λ i. i.journal) es) refl,
    )
