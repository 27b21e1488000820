-- ===== src/Daemon/Callbacks.antt =====
-- src/daemon.cpp: the callbacks that D-Bus runs between the cycles (TriggerSnapshot, AcknowledgeCrash,
-- the RAUC signal Completed), request_shutdown() and wake(). The eventfd is taken to be open.
pub mod Limit
use edge_healthd.Prelude.{
  ℕ, ◌+◌, Bool, true, false, ◌&&◌, Option, none, some, List, [], ◌∷◌, Str, opt_str_eq, ltb,
  if◌then◌else◌,
}
use edge_healthd.Prelude.Int.{pos_part}
use edge_healthd.Daemon.Schedule.{seconds}
use edge_healthd.Daemon.State.{Daemon, Effect, wake, write_acknowledgement}

-- Whether the minimum interval, if it is above 0, has not passed since the last trigger.
unfoldable pub is_rate_limited : ℕ → ℕ → Option ℕ → Bool
is_rate_limited min_interval now none = false
is_rate_limited min_interval now (some last) =
    ltb 0 min_interval && ltb now (last + seconds min_interval)

module _ {F : Type 0} where
  -- The first callback of the health manager, at the steady-clock time `now`.
  unfoldable pub on_trigger : ℕ → Daemon F → Daemon F × Bool × List (Effect F)
  unfolding is_rate_limited
  on_trigger now d =
      if is_rate_limited (pos_part d.config.trigger_min_interval) now d.last_trigger_time
      then (d, false, [])
      else (record d { last_trigger_time = some now; trigger_requested = true }, true, wake ∷ [])

  -- The second; `saved` is whether crash_state.json could be replaced.
  unfoldable pub on_acknowledge : Str → Bool → Daemon F → Daemon F × Bool × List (Effect F)
  on_acknowledge fingerprint saved d =
      if opt_str_eq d.current_panic_fingerprint (some fingerprint)
      then if saved
        then (
          record d { crash_ack_pending = true; trigger_requested = true },
          true,
          write_acknowledgement fingerprint ∷ wake ∷ [],
        )
        else (d, false, write_acknowledgement fingerprint ∷ [])
      else (d, false, [])

  -- The handler of the RAUC signal.
  unfoldable pub on_rauc_completed : Daemon F → Daemon F × List (Effect F)
  on_rauc_completed d =
      (record d { rauc_update_pending = true; trigger_requested = true }, wake ∷ [])

  unfoldable pub request_shutdown : Daemon F → Daemon F × List (Effect F)
  request_shutdown d = (record d { shutdown_requested = true }, wake ∷ [])
