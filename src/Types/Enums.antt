-- ===== src/Types/Enums.antt =====
-- The enumerations of inc/types.hpp and their schema strings.
use edge_healthd.Prelude.{◌≡◌, Str, str, arith}

pub data Severity : Type 0 where
  ok warn crit unknown unavailable stale : Severity

pub data ServiceState : Type 0 where
  active inactive failed activating deactivating unknown : ServiceState

pub data LinkState : Type 0 where
  up down unknown : LinkState

pub data Duplex : Type 0 where
  full half unknown : Duplex

pub data TimeSyncSource : Type 0 where
  no_source ntp ptp : TimeSyncSource

pub data TimeSyncState : Type 0 where
  locked free_running holdover unknown : TimeSyncState

pub data UpdateResult : Type 0 where
  success failed unknown : UpdateResult

unfoldable pub severity_to_string : Severity → Str
severity_to_string Severity.ok = str "ok"
severity_to_string Severity.warn = str "warn"
severity_to_string Severity.crit = str "crit"
severity_to_string Severity.unknown = str "unknown"
severity_to_string Severity.unavailable = str "unavailable"
severity_to_string Severity.stale = str "stale"

unfoldable pub service_state_to_string : ServiceState → Str
service_state_to_string ServiceState.active = str "active"
service_state_to_string ServiceState.inactive = str "inactive"
service_state_to_string ServiceState.failed = str "failed"
service_state_to_string ServiceState.activating = str "activating"
service_state_to_string ServiceState.deactivating = str "deactivating"
service_state_to_string ServiceState.unknown = str "unknown"

unfoldable pub link_state_to_string : LinkState → Str
link_state_to_string LinkState.up = str "up"
link_state_to_string LinkState.down = str "down"
link_state_to_string LinkState.unknown = str "unknown"

unfoldable pub duplex_to_string : Duplex → Str
duplex_to_string Duplex.full = str "full"
duplex_to_string Duplex.half = str "half"
duplex_to_string Duplex.unknown = str "unknown"

unfoldable pub time_sync_source_to_string : TimeSyncSource → Str
time_sync_source_to_string TimeSyncSource.no_source = str "none"
time_sync_source_to_string TimeSyncSource.ntp = str "ntp"
time_sync_source_to_string TimeSyncSource.ptp = str "ptp"

unfoldable pub time_sync_state_to_string : TimeSyncState → Str
time_sync_state_to_string TimeSyncState.locked = str "locked"
time_sync_state_to_string TimeSyncState.free_running = str "free_running"
time_sync_state_to_string TimeSyncState.holdover = str "holdover"
time_sync_state_to_string TimeSyncState.unknown = str "unknown"

unfoldable pub update_result_to_string : UpdateResult → Str
update_result_to_string UpdateResult.success = str "success"
update_result_to_string UpdateResult.failed = str "failed"
update_result_to_string UpdateResult.unknown = str "unknown"

-- Two severities with one schema string are the same.
pub severity_to_string-injective :
    (a b : Severity) → severity_to_string a ≡ severity_to_string b → a ≡ b
unfolding severity_to_string str
severity_to_string-injective a b h = ground arith
