-- ===== src/Probe/TimeSync/Severities.antt =====
-- The severity of the time synchronization, from what timedated answers and the battery's voltage.
use edge_healthd.Prelude.{
  ℕ, ◌/◌, ◌%◌, ◌^◌, ◌≡◌, refl, Bool, false, not, ◌&&◌, ◌||◌, Option, none, some, ltb, if◌then◌else◌,
  arith,
}
use edge_healthd.Types.Enums.{Severity}
use edge_healthd.Config.{Config}
use edge_healthd.Probe.Result.{value}
use edge_healthd.Probe.TimeSync.{
  Timedate, RtcFiles, collect_ntp, collect_rtc, collected, evaluate_sync_severity, collect,
}

-- NTP is switched on and the clock is synchronized.
abbrev pub is_synchronized : Option Timedate → Bool
is_synchronized none = false
is_synchronized (some t) = t.ntp && t.synchronized

-- The battery is known, and its millivolts are below the limit.
abbrev pub is_below : ℕ → Option ℕ → Bool
is_below limit none = false
is_below limit (some uv) = ltb (uv / 1000 % 2 ^ 32) limit

module _ {F : Type 0} (cfg : Config F) where
  abbrev pub observed_severity : Option Timedate → RtcFiles → Severity
  observed_severity timedate files =
      if cfg.enable_rtc && is_below cfg.thresholds.rtc_voltage_crit_mv files.battery_voltage
      then Severity.crit
      else if (cfg.enable_ntp && not (is_synchronized timedate))
          || (cfg.enable_rtc && is_below cfg.thresholds.rtc_voltage_warn_mv files.battery_voltage)
      then Severity.warn
      else Severity.ok

  evaluate_sync_severity-observed :
      (now_usec now_sec : ℕ) (timedate : Option Timedate) (files : RtcFiles)
      → evaluate_sync_severity cfg (collected cfg now_usec now_sec timedate files)
        ≡ observed_severity timedate files
  unfolding evaluate_sync_severity collected collect_ntp collect_rtc
  evaluate_sync_severity-observed now_usec now_sec timedate files = ground arith

  -- The overall severity, from what was observed: critical where the clock's battery is watched and
  -- below the critical voltage, else a warning where NTP is watched and timedated does not answer,
  -- or says that NTP is off or not synchronized, or where the battery is below the warning voltage,
  -- else healthy. PTP has no part in it.
  pub collect-observed :
      (now_usec now_sec : ℕ) (timedate : Option Timedate) (files : RtcFiles)
      → collect cfg now_usec now_sec timedate files
        ≡ value (record (collected cfg now_usec now_sec timedate files) {
          overall = observed_severity timedate files;
        })
  unfolding collect
  collect-observed now_usec now_sec timedate files =
      rw (evaluate_sync_severity-observed now_usec now_sec timedate files) refl
