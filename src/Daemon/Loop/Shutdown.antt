-- ===== src/Daemon/Loop/Shutdown.antt =====
-- A requested shutdown ends the main loop in the same turn, and the invariant holds at its end.
use edge_healthd.Prelude.{
  ◌≡◌, ◌∙◌, All, refl, ap, Bool, true, false, ◌||◌, List, [], ◌∷◌, ◌++◌, inl, inr, Bool-cases,
  arith,
}
use edge_healthd.Prelude.Double.{Double}
use edge_healthd.Daemon.State.{Daemon, Effect}
use edge_healthd.Daemon.Cycle.{collection_cycle}
use edge_healthd.Daemon.Callbacks.{on_trigger, on_acknowledge, on_rauc_completed, request_shutdown}
use edge_healthd.Daemon.Run.{
  Event, cycle, trigger, acknowledge, rauc_completed, shutdown, step, run,
}
use edge_healthd.Daemon.Run.Acknowledge.{IsCallback}
use edge_healthd.Daemon.Cycle.Written.{snapshots, snapshots-append}
use edge_healthd.Daemon.Loop.{Turn, main_loop}

module _ {F : Type 0} (fp : Double F) where
  -- Whether the request has been made, it stays.
  step-shutdown :
      (e : Event F) (d : Daemon F)
      → d.shutdown_requested ≡ true
      → (step fp e d).0.shutdown_requested ≡ true
  unfolding step collection_cycle on_trigger on_acknowledge on_rauc_completed request_shutdown
  step-shutdown (cycle i) d h = h
  step-shutdown (trigger now) d h = ground arith
  step-shutdown (acknowledge fingerprint true) d h = ground arith
  step-shutdown (acknowledge fingerprint false) d h = ground arith
  step-shutdown rauc_completed d h = h
  step-shutdown shutdown d h = refl

  run-shutdown_kept :
      (es : List (Event F)) (d : Daemon F)
      → d.shutdown_requested ≡ true
      → (run fp es d).0.shutdown_requested ≡ true
  unfolding run
  run-shutdown_kept [] d h = h
  run-shutdown_kept (e ∷ es) d h = run-shutdown_kept es (step fp e d).0 (step-shutdown e d h)

  abbrev is_shutdown : Event F → Bool
  is_shutdown shutdown = true
  is_shutdown _ = false

  -- A shutdown is requested among the events.
  abbrev pub has_shutdown : List (Event F) → Bool
  has_shutdown [] = false
  has_shutdown (e ∷ es) = is_shutdown e || has_shutdown es

  run-shutdown :
      (es : List (Event F)) (d : Daemon F)
      → has_shutdown es ≡ true
      → (run fp es d).0.shutdown_requested ≡ true
  unfolding run step request_shutdown
  run-shutdown (cycle i ∷ es) d h = run-shutdown es (step fp (cycle i) d).0 h
  run-shutdown (trigger now ∷ es) d h = run-shutdown es (step fp (trigger now) d).0 h
  run-shutdown (acknowledge f s ∷ es) d h = run-shutdown es (step fp (acknowledge f s) d).0 h
  run-shutdown (rauc_completed ∷ es) d h = run-shutdown es (step fp rauc_completed d).0 h
  run-shutdown (shutdown ∷ es) d h = run-shutdown_kept es (step fp shutdown d).0 refl
  run-shutdown [] d h = absurd (ground arith)

  -- A callback runs no cycle and writes no snapshot.
  step-quiet :
      (e : Event F) (d : Daemon F)
      → IsCallback e
      → ((step fp e d).0.cycle_count ≡ d.cycle_count) × (snapshots (step fp e d).1 ≡ [])
  unfolding step on_trigger on_acknowledge on_rauc_completed request_shutdown snapshots
  step-quiet (cycle i) d h = absurd h
  step-quiet (trigger now) d h = ground arith
  step-quiet (acknowledge fingerprint true) d h = ground arith
  step-quiet (acknowledge fingerprint false) d h = ground arith
  step-quiet rauc_completed d h = ground arith
  step-quiet shutdown d h = ground arith

  pub run-quiet :
      (es : List (Event F)) (d : Daemon F)
      → All IsCallback es
      → ((run fp es d).0.cycle_count ≡ d.cycle_count) × (snapshots (run fp es d).1 ≡ [])
  unfolding run snapshots
  run-quiet [] d h = (refl, refl)
  run-quiet (e ∷ es) d h =
      let (d', effects) = step fp e d in
      let (count, none_written) = step-quiet e d h.0 in
      let (counts, none_after) = run-quiet es d' h.1 in
      (
        counts ∙ count,
        snapshots-append effects (run fp es d').1
            ∙ (ap (λ x. x ++ snapshots (run fp es d').1) none_written ∙ none_after),
      )

  snapshots-prefix :
      (es fs gs hs : List (Effect F))
      → snapshots gs ≡ snapshots hs
      → snapshots (es ++ (fs ++ gs)) ≡ snapshots (es ++ (fs ++ hs))
  snapshots-prefix es fs gs hs e =
      simp snapshots-append (ap (λ x. snapshots es ++ (snapshots fs ++ x)) e)

  -- The same cycles and the same snapshots.
  abbrev pub SameCycles :
      Daemon F × List (Effect F) × Bool → Daemon F × List (Effect F) × Bool → Type 0
  SameCycles r r' = (r.0.cycle_count ≡ r'.0.cycle_count) × (snapshots r.1 ≡ snapshots r'.1)

  -- If a shutdown is requested while the loop waits, or a signal comes, in some turn, the loop has
  -- ended by the end of that turn: what would come after has no effect, and neither in that turn nor
  -- after it is there a cycle or a snapshot, so that there are those of the turns before it. What
  -- happens during the wait of that turn are callbacks.
  pub main_loop-shutdown :
      (before : List (Turn F)) (t : Turn F) (after : List (Turn F)) (d : Daemon F)
      → All IsCallback t.events
      → (t.is_signalled || (t.is_signalled_after || has_shutdown t.events)) ≡ true
      → (main_loop fp (before ++ (t ∷ after)) d ≡ main_loop fp (before ++ (t ∷ [])) d)
        × ((main_loop fp (before ++ (t ∷ after)) d).2 ≡ true)
        × SameCycles (main_loop fp (before ++ (t ∷ after)) d) (main_loop fp before d)
  unfolding main_loop request_shutdown snapshots
  main_loop-shutdown [] t after d c h = elim (Bool-cases d.shutdown_requested) [
    | inl a ↦ simp a (refl, refl, (refl, refl))
    | inr a ↦ elim (Bool-cases t.is_signalled) [
      | inl b ↦ simp (a, b) (refl, refl, (refl, refl))
      | inr b ↦
          let stop : ((run fp t.events d).0.shutdown_requested || t.is_signalled_after) ≡ true =
            ground (arith, run-shutdown t.events d) in
          let (count, none_written) = run-quiet t.events d c in
          simp (a, b, stop)
            (
              refl,
              refl,
              (count, snapshots-append (run fp t.events d).1 _ ∙ ap (λ x. x ++ []) none_written),
            )
    ]
  ]
  main_loop-shutdown (b ∷ bs) t after d c h = elim (Bool-cases d.shutdown_requested) [
    | inl a ↦ simp a (refl, refl, (refl, refl))
    | inr a ↦ elim (Bool-cases b.is_signalled) [
      | inl w ↦ simp (a, w) (refl, refl, (refl, refl))
      | inr w ↦
          elim (Bool-cases ((run fp b.events d).0.shutdown_requested || b.is_signalled_after)) [
            | inl z ↦ simp (a, w, z) (refl, refl, (refl, refl))
            | inr z ↦
                let waited = (run fp b.events d).1 in
                let (d3, collected) =
                  collection_cycle fp b.inputs
                    (record (run fp b.events d).0 { trigger_requested = false }) in
                let (same, ended, (count, written)) = main_loop-shutdown bs t after d3 c h in
                simp (a, w, z)
                  (
                    ap (λ x. (x.0, waited ++ (collected ++ x.1), x.2)) same,
                    ended,
                    (count, snapshots-prefix waited collected _ _ written),
                  )
          ]
    ]
  ]
