-- ===== src/Daemon/Cycle/Alarm.antt =====
-- src/daemon.cpp: collection_cycle(), the crash alarm and the fingerprint that can be acknowledged.
pub mod Latch
use edge_healthd.Prelude.{
  ℕ, Bool, not, ◌&&◌, Option, none, some, List, [], ◌∷◌, ◌++◌, Str, str, to_string, opt_str_eq,
  has_value, value_or, ltb, if◌then◌else◌,
}
use edge_healthd.Types.Enums.{Severity}
use edge_healthd.Types.Sections.{CrashStatus}
use edge_healthd.HealthManager.{Signal, emit_alarm}

-- What AcknowledgeCrash is compared with.
unfoldable pub panic_fingerprint : CrashStatus → Option Str
panic_fingerprint crash = if ltb 0 crash.panic_count then crash.fingerprint else none

unfoldable pub is_active_panic : CrashStatus → Bool
is_active_panic crash =
    ltb 0 crash.panic_count
    && not crash.acknowledged
    && crash.panic_current_boot
    && has_value crash.fingerprint

unfoldable pub panic_alarm : CrashStatus → Signal
panic_alarm crash =
    emit_alarm (str "crash")
      (str "kernel panic detected this boot: "
        ++ to_string crash.panic_count
        ++ str " panic artifact(s), fingerprint="
        ++ value_or crash.fingerprint [])
      Severity.crit

-- The latch `last_alarmed_crash_fp_` after the cycle, and the alarm.
unfoldable pub crash_alarm : CrashStatus → Option Str → Option Str × List Signal
unfolding is_active_panic
crash_alarm crash last_alarmed =
    if is_active_panic crash
    then if not (opt_str_eq last_alarmed crash.fingerprint)
      then (crash.fingerprint, panic_alarm crash ∷ [])
      else (last_alarmed, [])
    else (none, [])
