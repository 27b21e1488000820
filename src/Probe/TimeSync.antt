-- ===== src/Probe/TimeSync.antt =====
-- src/probes_dbus.cpp: TimeSyncProbe. What timedated answers on D-Bus and what the files of the clock
-- device hold are arguments: none where a call throws or a number cannot be read.
pub mod Severities
use edge_healthd.Prelude.{
  ℕ, ◌+◌, ◌-◌, ◌*◌, ◌/◌, ◌%◌, ◌^◌, Bool, true, false, ◌&&◌, ◌==◌, Option, none, some, ltb, leb,
  if◌then◌else◌,
}
use edge_healthd.Prelude.Int.{ℤ, pos, negsuc, sub_ℕ}
use edge_healthd.Types.Enums.{Severity, TimeSyncSource, TimeSyncState}
use edge_healthd.Types.Sections.{
  NtpStatus, RtcStatus, TimeSyncStatus, ntp_status_default, rtc_status_default, ptp_status_default,
  time_sync_status_default,
}
use edge_healthd.Config.{Config}
use edge_healthd.Probe.Result.{ProbeResult, value}

-- The properties NTP and NTPSynchronized.
pub record Timedate : Type 0 where
  pub ntp : Bool
  pub synchronized : Bool

-- The files hctosys, battery_voltage and since_epoch.
pub record RtcFiles : Type 0 where
  pub hctosys : Option ℤ
  pub battery_voltage : Option ℕ
  pub since_epoch : Option ℕ

abbrev pub is_one : ℤ → Bool
is_one (pos n) = n == 1
is_one (negsuc n) = false

-- `static_cast<int64_t>` of a uint64_t.
abbrev pub to_int64 : ℕ → ℤ
to_int64 n = if ltb n (2 ^ 63) then pos n else negsuc (2 ^ 64 - n - 1)

-- a - b.
abbrev pub sub_ℤ : ℤ → ℤ → ℤ
sub_ℤ (pos a) (pos b) = sub_ℕ a b
sub_ℤ (pos a) (negsuc b) = pos (a + b + 1)
sub_ℤ (negsuc a) (pos b) = negsuc (a + b)
sub_ℤ (negsuc a) (negsuc b) = sub_ℕ b a

abbrev pub has_been_set : Option ℤ → Bool
has_been_set none = false
has_been_set (some v) = is_one v

-- µV as mV, in a uint32_t.
abbrev pub millivolts : Option ℕ → Option ℕ
millivolts none = none
millivolts (some uv) = some (uv / 1000 % 2 ^ 32)

abbrev pub drift : ℕ → Option ℕ → Option ℤ
drift now none = none
drift now (some epoch) = some (sub_ℤ (to_int64 now) (to_int64 epoch))

-- `now` is the system clock, in seconds.
unfoldable pub collect_rtc : ℕ → RtcFiles → RtcStatus
collect_rtc now files = record {
  enabled = true;
  hctosys = has_been_set files.hctosys;
  voltage_mv = millivolts files.battery_voltage;
  drift_sec = drift now files.since_epoch;
}

-- `now` is the system clock, in microseconds.
unfoldable pub collect_ntp : ℕ → Option Timedate → NtpStatus
collect_ntp now none = ntp_status_default
collect_ntp now (some t) =
    if t.synchronized
    then record { enabled = t.ntp; state = some TimeSyncState.locked; last_sync_at = some now }
    else record {
      enabled = t.ntp;
      state = if t.ntp then some TimeSyncState.free_running else none;
      last_sync_at = none;
    }

abbrev pub is_locked : Option TimeSyncState → Bool
is_locked (some TimeSyncState.locked) = true
is_locked other = false

module _ {F : Type 0} (cfg : Config F) where
  -- The source's two tests that are about NTP.
  abbrev pub ntp_severity : TimeSyncSource → NtpStatus → Severity
  ntp_severity TimeSyncSource.no_source ntp = Severity.warn
  ntp_severity TimeSyncSource.ntp ntp = if is_locked ntp.state then Severity.ok else Severity.warn
  ntp_severity TimeSyncSource.ptp ntp = Severity.ok

  abbrev pub is_healthy : Severity → Bool
  is_healthy Severity.ok = true
  is_healthy other = false

  abbrev pub voltage_severity : Severity → Option ℕ → Severity
  voltage_severity sev none = sev
  voltage_severity sev (some mv) =
      if ltb mv cfg.thresholds.rtc_voltage_crit_mv
      then Severity.crit
      else if ltb mv cfg.thresholds.rtc_voltage_warn_mv && is_healthy sev
      then Severity.warn
      else sev

  unfoldable pub evaluate_sync_severity : TimeSyncStatus → Severity
  evaluate_sync_severity status =
      let sev = if cfg.enable_ntp then ntp_severity status.source status.ntp else Severity.ok in
      if cfg.enable_rtc then voltage_severity sev status.rtc.voltage_mv else sev

  unfoldable pub collected : ℕ → ℕ → Option Timedate → RtcFiles → TimeSyncStatus
  collected now_usec now_sec timedate files =
      let ntp = if cfg.enable_ntp then collect_ntp now_usec timedate else ntp_status_default in
      record time_sync_status_default {
        source =
            if cfg.enable_ntp && (ntp.enabled && is_locked ntp.state)
            then TimeSyncSource.ntp
            else TimeSyncSource.no_source;
        ntp = ntp;
        ptp = record ptp_status_default { enabled = cfg.enable_ptp };
        rtc = if cfg.enable_rtc then collect_rtc now_sec files else rtc_status_default;
      }

  unfoldable pub collect : ℕ → ℕ → Option Timedate → RtcFiles → ProbeResult TimeSyncStatus
  unfolding collected evaluate_sync_severity
  collect now_usec now_sec timedate files =
      let status = collected now_usec now_sec timedate files in
      value (record status { overall = evaluate_sync_severity status })
