-- ===== src/Daemon/Watchdog.antt =====
-- src/daemon.cpp: the watchdog thread. Its times are in microseconds of the monotonic clock, in which
-- no heartbeat is after a reading that follows it; a wakeup of the thread and a heartbeat of the main
-- loop are events in the order in which they happen.
pub mod Fresh
use edge_healthd.Prelude.{
  ℕ, ◌+◌, ◌/◌, ◌==◌, Bool, true, false, not, ◌&&◌, Option, none, some, List, [], ◌∷◌, leb,
  if◌then◌else◌,
}

pub data WatchdogEvent : Type 0 where
  heartbeat wakeup : ℕ → WatchdogEvent

-- The sleep between two wakeups.
unfoldable pub watchdog_interval : ℕ → ℕ
watchdog_interval timeout = if timeout / 2 == 0 then 1 else timeout / 2

-- The times at which systemd is told, from the last heartbeat on.
unfoldable pub watchdog_loop : ℕ → ℕ → List WatchdogEvent → List ℕ
watchdog_loop timeout last [] = []
watchdog_loop timeout last (heartbeat t ∷ events) = watchdog_loop timeout t events
watchdog_loop timeout last (wakeup t ∷ events) =
    let rest = watchdog_loop timeout last events in
    if leb t (last + timeout) then t ∷ rest else rest

pub record Started : Type 0 where
  -- collect_interval is not below half the timeout
  pub warns : Bool
  -- the timeout of the thread, where it is started
  pub thread : Option ℕ

-- `timeout` is 0 where systemd watches nothing.
unfoldable pub start_watchdog_thread : Bool → ℕ → ℕ → Bool → Started
start_watchdog_thread managed timeout collect_interval running =
    if managed && not (timeout == 0)
    then record {
      warns = leb (timeout / 2) collect_interval;
      thread = if running then none else some timeout;
    }
    else record { warns = false; thread = none }
