-- ===== src/Daemon/Loop/Turns.antt =====
-- While no shutdown is requested, the daemon collects once in each turn of its loop.
use edge_healthd.Prelude.{
  suc, ◌+◌, ◌≡◌, ◌∙◌, refl, ap, All, Bool, true, false, ◌||◌, List, [], ◌∷◌, ◌++◌, length,
  length-append, arith,
}
use edge_healthd.Prelude.Double.{Double}
use edge_healthd.Daemon.State.{Daemon, Inputs, Effect}
use edge_healthd.Daemon.Cycle.{collection_cycle}
use edge_healthd.Daemon.Cycle.Written.{snapshots, snapshots-append, collection_cycle-snapshots}
use edge_healthd.Daemon.Callbacks.{on_trigger, on_acknowledge, on_rauc_completed}
use edge_healthd.Daemon.Run.{
  Event, cycle, trigger, acknowledge, rauc_completed, shutdown, step, run,
}
use edge_healthd.Daemon.Run.Acknowledge.{IsCallback}
use edge_healthd.Daemon.Loop.{Turn, main_loop, run_daemon}
use edge_healthd.Daemon.Loop.Shutdown.{has_shutdown, run-quiet}

module _ {F : Type 0} (fp : Double F) where
  -- A turn in which nothing asks for a shutdown.
  abbrev pub IsQuiet : Turn F → Type 0
  IsQuiet t =
      (t.is_signalled ≡ false)
      × (t.is_signalled_after ≡ false)
      × (has_shutdown fp t.events ≡ false)
      × All IsCallback t.events

  step-running :
      (e : Event F) (d : Daemon F)
      → has_shutdown fp (e ∷ []) ≡ false
      → d.shutdown_requested ≡ false
      → (step fp e d).0.shutdown_requested ≡ false
  unfolding step collection_cycle on_trigger on_acknowledge on_rauc_completed
  step-running (cycle i) d n h = h
  step-running (trigger now) d n h = ground (arith, h)
  step-running (acknowledge fingerprint true) d n h = ground (arith, h)
  step-running (acknowledge fingerprint false) d n h = ground (arith, h)
  step-running rauc_completed d n h = h
  step-running shutdown d n h = absurd (ground (arith, n))

  run-running :
      (es : List (Event F)) (d : Daemon F)
      → has_shutdown fp es ≡ false
      → d.shutdown_requested ≡ false
      → (run fp es d).0.shutdown_requested ≡ false
  unfolding run
  run-running [] d n h = h
  run-running (e ∷ es) d n h =
      run-running es (step fp e d).0 (ground (arith, n)) (step-running e d (ground (arith, n)) h)

  collection_cycle-running :
      (i : Inputs F) (d : Daemon F)
      → (collection_cycle fp i d).0.shutdown_requested ≡ d.shutdown_requested
  unfolding collection_cycle
  collection_cycle-running i d = refl

  -- As many snapshots as turns, and the loop goes on.
  abbrev pub Collects : List (Turn F) → Daemon F × List (Effect F) × Bool → Type 0
  Collects ts r = (length (snapshots r.1) ≡ length ts) × (r.2 ≡ false)

  length-snapshots :
      (es fs : List (Effect F))
      → length (snapshots (es ++ fs)) ≡ length (snapshots es) + length (snapshots fs)
  length-snapshots es fs = rw (snapshots-append es fs) (length-append (snapshots es) (snapshots fs))

  main_loop-Collects :
      (ts : List (Turn F)) (d : Daemon F)
      → d.shutdown_requested ≡ false
      → All IsQuiet ts
      → Collects ts (main_loop fp ts d)
  unfolding main_loop snapshots
  main_loop-Collects [] d h q = (refl, h)
  main_loop-Collects (t ∷ ts) d h ((s, s', n, c), qs) =
      let (d1, waited) = run fp t.events d in
      let d2 = record d1 { trigger_requested = false } in
      let (d3, collected) = collection_cycle fp t.inputs d2 in
      let running : d1.shutdown_requested ≡ false = run-running t.events d n h in
      let (counted, going) =
        main_loop-Collects ts d3 (collection_cycle-running t.inputs d2 ∙ running) qs in
      let effects = (main_loop fp ts d3).1 in
      let one : length (snapshots collected) ≡ 1 =
        ap length (collection_cycle-snapshots fp t.inputs d2 t.inputs.write_outcome).0 in
      let silent : length (snapshots waited) ≡ 0 = ap length (run-quiet fp t.events d c).1 in
      let stay : (d1.shutdown_requested || t.is_signalled_after) ≡ false =
        ground (arith, running, s') in
      simp (h, s, stay)
        (
          omega (
            arith,
            counted,
            one,
            silent,
            length-snapshots waited (collected ++ effects),
            length-snapshots collected effects,
          ),
          going,
        )

  -- While neither a signal comes nor a shutdown is requested, the running daemon hands one snapshot to
  -- the writer at its start and one in each turn of its loop, whatever callbacks come while it waits,
  -- and its loop goes on.
  pub run_daemon-snapshots :
      (i : Inputs F) (ts : List (Turn F)) (d : Daemon F)
      → d.shutdown_requested ≡ false
      → All IsQuiet ts
      → (length (snapshots (run_daemon fp i ts d).1) ≡ suc (length ts))
        × ((run_daemon fp i ts d).2 ≡ false)
  unfolding run_daemon
  run_daemon-snapshots i ts d h q =
      let (d', collected) = collection_cycle fp i d in
      let (counted, going) = main_loop-Collects ts d' (collection_cycle-running i d ∙ h) q in
      let one : length (snapshots collected) ≡ 1 =
        ap length (collection_cycle-snapshots fp i d i.write_outcome).0 in
      (omega (arith, counted, one, length-snapshots collected (main_loop fp ts d').1), going)
