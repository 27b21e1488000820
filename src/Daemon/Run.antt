-- ===== src/Daemon/Run.antt =====
-- The daemon as a sequence of events: collection cycles on the main thread, and between them what
-- D-Bus clients and RAUC cause. Each runs to its end under its lock or as one atomic store.
pub mod Invariant
pub mod Sections
pub mod Acknowledge
use edge_healthd.Prelude.{ℕ, Bool, List, [], ◌∷◌, ◌++◌, Str}
use edge_healthd.Prelude.Double.{Double}
use edge_healthd.Daemon.State.{Daemon, Inputs, Effect}
use edge_healthd.Daemon.Cycle.{collection_cycle}
use edge_healthd.Daemon.Callbacks.{on_trigger, on_acknowledge, on_rauc_completed, request_shutdown}

pub data Event (F : Type 0) : Type 0 where
  cycle : Inputs F → Event F
  trigger : ℕ → Event F
  -- the fingerprint, and whether crash_state.json could be replaced
  acknowledge : Str → Bool → Event F
  rauc_completed : Event F
  shutdown : Event F

module _ {F : Type 0} (fp : Double F) where
  unfoldable pub step : Event F → Daemon F → Daemon F × List (Effect F)
  step (cycle i) d = collection_cycle fp i d
  step (trigger now) d = let (d', answer, effects) = on_trigger now d in (d', effects)
  step (acknowledge fingerprint saved) d =
      let (d', answer, effects) = on_acknowledge fingerprint saved d in (d', effects)
  step rauc_completed d = on_rauc_completed d
  step shutdown d = request_shutdown d

  unfoldable pub run : List (Event F) → Daemon F → Daemon F × List (Effect F)
  run [] d = (d, [])
  run (e ∷ es) d =
      let (d', effects) = step e d in let (d'', rest) = run es d' in (d'', effects ++ rest)
