-- ===== src/Daemon/Callbacks/Limit.antt =====
-- The rate limit of TriggerSnapshot over a history of calls.
use edge_healthd.Prelude.{
  ℕ, ◌+◌, ◌≤◌, ◌<◌, ◌≡◌, true, false, Option, none, some, List, [], ◌∷◌, if◌then◌else◌, Bool-cases,
  inl, inr, arith,
}
use edge_healthd.Prelude.Int.{pos_part}
use edge_healthd.Daemon.Schedule.{seconds}
use edge_healthd.Daemon.State.{Daemon}
use edge_healthd.Daemon.Callbacks.{is_rate_limited, on_trigger}

-- Each time is at least `gap` after the one before, the first after `last`, if there is one.
abbrev pub IsSpaced : ℕ → Option ℕ → List ℕ → Type 0
IsSpaced gap last [] = Unit
IsSpaced gap none (t ∷ ts) = IsSpaced gap (some t) ts
IsSpaced gap (some last) (t ∷ ts) = (last + gap ≤ t) × IsSpaced gap (some t) ts

limited_lem :
    (gap now : ℕ) (last : Option ℕ)
    → is_rate_limited gap now last ≡ false
    → (ts : List ℕ) → 0 < gap
    → IsSpaced (seconds gap) (some now) ts
    → IsSpaced (seconds gap) last (now ∷ ts)
unfolding is_rate_limited
limited_lem gap now none h ts p spaced = spaced
limited_lem gap now (some last) h ts p spaced = (ground arith, spaced)

module _ {F : Type 0} where
  -- The times of the accepted calls among calls at these times.
  pub accepted : List ℕ → Daemon F → List ℕ
  accepted [] d = []
  accepted (now ∷ nows) d =
      let (d', answer, effects) = on_trigger now d in
      let rest = accepted nows d' in if answer then now ∷ rest else rest

  -- Where the configured minimum interval is above 0, two accepted calls of TriggerSnapshot are at
  -- least that interval apart, whatever calls are made, and the first is that long after the last
  -- accepted one before.
  pub accepted-IsSpaced :
      (nows : List ℕ) (d : Daemon F)
      → 0 < pos_part d.config.trigger_min_interval
      → IsSpaced
          (seconds (pos_part d.config.trigger_min_interval))
          d.last_trigger_time
          (accepted nows d)
  unfolding accepted on_trigger
  accepted-IsSpaced [] d h = tt
  accepted-IsSpaced (now ∷ nows) d h =
      let gap = pos_part d.config.trigger_min_interval in
      elim (Bool-cases (is_rate_limited gap now d.last_trigger_time)) [
        | inl e ↦ rw (e, on_trigger) (accepted-IsSpaced nows d h)
        | inr e ↦
            rw (e, on_trigger)
              (limited_lem gap now d.last_trigger_time e
                (accepted nows
                  (record d { last_trigger_time = some now; trigger_requested = true }))
                h
                (accepted-IsSpaced nows
                  (record d { last_trigger_time = some now; trigger_requested = true }) h))
      ]
