-- ===== src/Daemon/Watchdog/Fresh.antt =====
-- When systemd is told that the daemon is alive.
use edge_healthd.Prelude.{
  ℕ, ◌+◌, ◌≤◌, ◌≡◌, refl, ap, true, List, [], ◌∷◌, All, leb, arith, Bool-cases, inl, inr,
}
use edge_healthd.Daemon.Watchdog.{WatchdogEvent, heartbeat, wakeup, watchdog_loop}

abbrev pub IsWakeup : WatchdogEvent → Type 0
IsWakeup (heartbeat t) = ⊥
IsWakeup (wakeup t) = Unit

-- A main loop that hangs gives no heartbeat: it is not reported as alive later than the timeout after
-- its last one.
pub watchdog_loop-hung :
    (timeout last : ℕ) (events : List WatchdogEvent)
    → All IsWakeup events
    → All (λ t. t ≤ last + timeout) (watchdog_loop timeout last events)
unfolding watchdog_loop
watchdog_loop-hung timeout last [] h = tt
watchdog_loop-hung timeout last (heartbeat t ∷ events) h = absurd h.0
watchdog_loop-hung timeout last (wakeup t ∷ events) h = elim (Bool-cases (leb t (last + timeout))) [
  | inl e ↦ rw e (ground (arith, e), watchdog_loop-hung timeout last events h.1)
  | inr e ↦ rw e (watchdog_loop-hung timeout last events h.1)
]

-- At each wakeup the last heartbeat is at most the timeout old.
abbrev pub IsAlive : ℕ → ℕ → List WatchdogEvent → Type 0
IsAlive timeout last [] = Unit
IsAlive timeout last (heartbeat t ∷ events) = IsAlive timeout t events
IsAlive timeout last (wakeup t ∷ events) = (t ≤ last + timeout) × IsAlive timeout last events

abbrev pub wakeups : List WatchdogEvent → List ℕ
wakeups [] = []
wakeups (heartbeat t ∷ events) = wakeups events
wakeups (wakeup t ∷ events) = t ∷ wakeups events

-- A main loop that is alive is reported as alive at every wakeup.
pub watchdog_loop-wakeups :
    (timeout last : ℕ) (events : List WatchdogEvent)
    → IsAlive timeout last events
    → watchdog_loop timeout last events ≡ wakeups events
unfolding watchdog_loop
watchdog_loop-wakeups timeout last [] h = refl
watchdog_loop-wakeups timeout last (heartbeat t ∷ events) h =
    watchdog_loop-wakeups timeout t events h
watchdog_loop-wakeups timeout last (wakeup t ∷ events) h =
    let within : leb t (last + timeout) ≡ true = ground (arith, h.0) in
    rw within (ap (λ ts. t ∷ ts) (watchdog_loop-wakeups timeout last events h.1))
