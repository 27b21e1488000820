-- ===== src/Daemon/Loop.antt =====
-- src/daemon.cpp: the collections of run(): the first cycle, and the main loop with its two checks
-- for a shutdown. What happens while the loop waits on its eventfd is a list of events. The messages
-- to systemd, mark_boot_success() (which `Probe.Boot` has) and the threads that are started after
-- the first cycle are left out.
pub mod Shutdown
pub mod Turns
use edge_healthd.Prelude.{ℕ, Bool, true, false, ◌||◌, List, [], ◌∷◌, ◌++◌, if◌then◌else◌}
use edge_healthd.Prelude.Double.{Double}
use edge_healthd.Daemon.State.{Daemon, Inputs, Effect}
use edge_healthd.Daemon.Cycle.{collection_cycle}
use edge_healthd.Daemon.Callbacks.{request_shutdown}
use edge_healthd.Daemon.Run.{Event, run}

-- One pass of the loop: whether a signal has come at the first and at the second check, what
-- happens during the wait, and what the cycle after it reads.
pub record Turn (F : Type 0) : Type 0 where
  pub is_signalled : Bool
  pub events : List (Event F)
  pub is_signalled_after : Bool
  pub inputs : Inputs F

module _ {F : Type 0} (fp : Double F) where
  -- The daemon, what it did, and whether the loop has ended.
  unfoldable pub main_loop : List (Turn F) → Daemon F → Daemon F × List (Effect F) × Bool
  main_loop [] d = (d, [], d.shutdown_requested)
  main_loop (t ∷ ts) d =
      let (d1, waited) = run fp t.events d in
      let d2 = record d1 { trigger_requested = false } in
      let (d3, collected) = collection_cycle fp t.inputs d2 in
      let (d4, effects, ended) = main_loop ts d3 in
      if d.shutdown_requested
      then (d, [], true)
      else if t.is_signalled
      then (let (stopped, woken) = request_shutdown d in (stopped, woken, true))
      else if d2.shutdown_requested || t.is_signalled_after
      then (let (stopped, woken) = request_shutdown d2 in (stopped, waited ++ woken, true))
      else (d4, waited ++ (collected ++ effects), ended)

  unfoldable pub run_daemon :
      Inputs F → List (Turn F) → Daemon F → Daemon F × List (Effect F) × Bool
  run_daemon i ts d =
      let (d', collected) = collection_cycle fp i d in
      let (d'', effects, ended) = main_loop ts d' in (d'', collected ++ effects, ended)
