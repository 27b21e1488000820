-- ===== src/Types/Sections/Events.antt =====
-- inc/types.hpp: the time synchronization, the updates, the journal and the crash artifacts.
use edge_healthd.Prelude.{ℕ, Bool, false, Option, none, List, [], Str}
use edge_healthd.Prelude.Int.{ℤ}
use edge_healthd.Types.Enums.{Severity, TimeSyncSource, TimeSyncState, UpdateResult}
use edge_healthd.Types.Sections.Host.{SectionFreshness, section_freshness_default}

pub record NtpStatus : Type 0 where
  pub enabled : Bool
  pub state : Option TimeSyncState
  pub last_sync_at : Option ℕ

abbrev pub ntp_status_default : NtpStatus
ntp_status_default = record { enabled = false; state = none; last_sync_at = none }

pub record PtpStatus : Type 0 where
  pub enabled : Bool
  pub interface : Option Str
  pub offset_ns : Option ℤ
  pub rms_ns : Option ℕ
  pub state : Option TimeSyncState
  pub last_sync_at : Option ℕ
  pub role : Option Str

abbrev pub ptp_status_default : PtpStatus
ptp_status_default = record {
  enabled = false;
  interface = none;
  offset_ns = none;
  rms_ns = none;
  state = none;
  last_sync_at = none;
  role = none;
}

pub record RtcStatus : Type 0 where
  pub enabled : Bool
  pub hctosys : Bool
  pub voltage_mv : Option ℕ
  pub drift_sec : Option ℤ

abbrev pub rtc_status_default : RtcStatus
rtc_status_default = record {
  enabled = false;
  hctosys = false;
  voltage_mv = none;
  drift_sec = none;
}

pub record TimeSyncStatus : Type 0 where
  pub freshness : SectionFreshness
  pub overall : Severity
  pub source : TimeSyncSource
  pub ntp : NtpStatus
  pub ptp : PtpStatus
  pub rtc : RtcStatus

abbrev pub time_sync_status_default : TimeSyncStatus
time_sync_status_default = record {
  freshness = section_freshness_default;
  overall = Severity.unknown;
  source = TimeSyncSource.no_source;
  ntp = ntp_status_default;
  ptp = ptp_status_default;
  rtc = rtc_status_default;
}

pub record LastUpdate : Type 0 where
  pub id : Str
  pub installed_at : Option ℕ
  pub result : UpdateResult
  pub detail : Option Str

abbrev pub last_update_default : LastUpdate
last_update_default = record {
  id = [];
  installed_at = none;
  result = UpdateResult.unknown;
  detail = none;
}

pub record UpdateStatus : Type 0 where
  pub freshness : SectionFreshness
  pub overall : Severity
  pub active_slot : Option Str
  pub last_update : Option LastUpdate

abbrev pub update_status_default : UpdateStatus
update_status_default = record {
  freshness = section_freshness_default;
  overall = Severity.unknown;
  active_slot = none;
  last_update = none;
}

pub record JournalStatus : Type 0 where
  pub freshness : SectionFreshness
  pub overall : Severity
  pub error_count : ℕ
  pub recent_errors : List Str

abbrev pub journal_status_default : JournalStatus
journal_status_default = record {
  freshness = section_freshness_default;
  overall = Severity.unknown;
  error_count = 0;
  recent_errors = [];
}

pub record CrashArtifact : Type 0 where
  pub name : Str
  pub size_bytes : ℕ
  pub mtime : Option ℕ
  pub kind : Str

pub record CrashStatus : Type 0 where
  pub freshness : SectionFreshness
  pub present : Bool
  pub source : Option Str
  pub last_panic_at : Option ℕ
  pub fingerprint : Option Str
  pub artifact_count : ℕ
  pub artifacts : List CrashArtifact
  pub acknowledged : Bool
  pub panic_count : ℕ
  pub panic_current_boot : Bool

abbrev pub crash_status_default : CrashStatus
crash_status_default = record {
  freshness = section_freshness_default;
  present = false;
  source = none;
  last_panic_at = none;
  fingerprint = none;
  artifact_count = 0;
  artifacts = [];
  acknowledged = false;
  panic_count = 0;
  panic_current_boot = false;
}
