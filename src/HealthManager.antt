-- ===== src/HealthManager.antt =====
-- inc/dbus_manager.hpp and src/dbus_manager.cpp: HealthManager. Registration of the D-Bus object
-- and the info logs are left out; a signal that a method emits is a value of `Signal`, in order.
pub mod Laws
use edge_healthd.Prelude.{
  ℕ, ◌++◌, min, Bool, true, false, not, ◌||◌, Option, none, some, List, [], ◌∷◌, length, take, Str,
  str, str_eq, ltb, ◌==◌, if◌then◌else◌,
}
use edge_healthd.Types.Enums.{Severity, severity_to_string}

pub data Signal : Type 0 where
  -- PropertiesChanged of one property
  properties_changed : Str → Signal
  -- component, message, severity
  health_alarm : Str → Str → Str → Signal

pub record HealthManager : Type 0 where
  pub severity_str : Str
  pub last_sev : Severity
  pub logs_cache : List Str

unfoldable pub health_manager_initial : HealthManager
health_manager_initial = record {
  severity_str = str "unknown";
  last_sev = Severity.unknown;
  logs_cache = [];
}

degradation_rank : Severity → ℕ
degradation_rank Severity.unknown = 0
degradation_rank Severity.ok = 1
degradation_rank Severity.stale = 2
degradation_rank Severity.unavailable = 3
degradation_rank Severity.warn = 4
degradation_rank Severity.crit = 5

unfoldable pub is_degradation : Severity → Severity → Bool
unfolding degradation_rank
is_degradation prev_sev new_sev = ltb (degradation_rank prev_sev) (degradation_rank new_sev)

unfoldable pub update_severity : Severity → Severity → HealthManager → HealthManager × List Signal
update_severity new_sev prev_sev m =
    let new_str = severity_to_string new_sev in
    let changed = not (str_eq m.severity_str new_str) in
    let msg = severity_to_string prev_sev ++ str " -> " ++ new_str in
    (
      record m { severity_str = if changed then new_str else m.severity_str; last_sev = new_sev },
      (if changed then properties_changed (str "OverallSeverity") ∷ [] else [])
          ++ (if is_degradation prev_sev new_sev
              then health_alarm (str "overall") msg new_str ∷ []
              else []),
    )

unfoldable pub update_recent_logs : List Str → HealthManager → HealthManager
update_recent_logs logs m = record m { logs_cache = logs }

unfoldable pub emit_alarm : Str → Str → Severity → Signal
emit_alarm component message severity = health_alarm component message (severity_to_string severity)

unfoldable pub overall_severity : HealthManager → Str
overall_severity m = m.severity_str

abbrev no_logs : List Str → Bool
no_logs [] = true
no_logs (l ∷ ls) = false

unfoldable pub get_recent_logs : ℕ → HealthManager → List Str
get_recent_logs max_lines m =
    if max_lines == 0 || no_logs m.logs_cache
    then []
    else take (min max_lines (length m.logs_cache)) m.logs_cache

-- `on_trigger_` and `on_acknowledge_` are empty or a callback, which has its own state S.
unfoldable pub trigger_snapshot : {S : Type 0} → Option (S → S × Bool) → S → S × Bool
trigger_snapshot none s = (s, false)
trigger_snapshot (some on_trigger) s = on_trigger s

unfoldable pub acknowledge_crash : {S : Type 0} → Option (Str → S → S × Bool) → Str → S → S × Bool
acknowledge_crash none fingerprint s = (s, false)
acknowledge_crash (some on_acknowledge) fingerprint s = on_acknowledge fingerprint s
