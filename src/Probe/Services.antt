-- ===== src/Probe/Services.antt =====
-- src/probes_dbus.cpp: ServicesProbe. What systemd answers on D-Bus is an argument; an answer is the
-- message of the sdbus::Error, where the call throws. A conversion that fails throws too.
pub mod Overall
use edge_healthd.Prelude.{
  ℕ, ◌+◌, ◌-◌, Bool, true, false, not, ◌&&◌, ◌||◌, Option, none, some, List, [], ◌∷◌, ◌++◌, map,
  Str, str, str_eq, is_empty, length, take, drop, ltb, leb, ◌==◌, any, if◌then◌else◌,
}
use edge_healthd.Types.Enums.{Severity, ServiceState}
use edge_healthd.Types.Sections.{
  ServiceUnit, ServicesStatus, service_unit_default, services_status_default,
}
use edge_healthd.Config.{Config}
use edge_healthd.Probe.Result.{ProbeResult, value}

pub data Answer (A : Type 0) : Type 0 where
  answer : A → Answer A
  bus_error : Str → Answer A

-- The calls of the probe: GetUnit of the manager, the properties of a unit's path.
pub record Systemd : Type 0 where
  pub get_unit : Str → Answer Str
  pub active_state : Str → Answer Str
  pub n_restarts : Str → Answer ℕ
  pub result : Str → Answer Str

abbrev between : ℕ → ℕ → ℕ → Bool
between low high c = leb low c && leb c high

abbrev pub is_alnum : ℕ → Bool
is_alnum c = between 48 57 c || between 65 90 c || between 97 122 c

-- A letter, a digit, or one of . - _ @ :
abbrev pub is_unit_char : ℕ → Bool
is_unit_char c = is_alnum c || c == 46 || c == 45 || c == 95 || c == 64 || c == 58

unfoldable pub is_safe_unit_name : Str → Bool
is_safe_unit_name name = not (is_empty name) && not (any (λ c. not (is_unit_char c)) name)

unfoldable pub state_of : Str → ServiceState
state_of s =
    if str_eq s (str "active")
    then ServiceState.active
    else if str_eq s (str "inactive")
    then ServiceState.inactive
    else if str_eq s (str "failed")
    then ServiceState.failed
    else if str_eq s (str "activating")
    then ServiceState.activating
    else if str_eq s (str "deactivating")
    then ServiceState.deactivating
    else ServiceState.unknown

-- "x.service" as x, where x is not empty.
abbrev pub service_stem : Str → Option Str
service_stem name =
    let n = length name - 8 in
    if ltb 8 (length name) && str_eq (drop n name) (str ".service")
    then some (take n name)
    else none

abbrev pub says_active : Answer Str → Bool
says_active (answer s) = str_eq s (str "active")
says_active (bus_error message) = false

abbrev pub path_then : {A : Type 0} → Answer Str → (Str → Answer A) → Answer A
path_then (answer path) f = f path
path_then (bus_error message) f = bus_error message

-- The socket of an inactive service is active.
abbrev pub is_socket_activated : Systemd → Str → Bool
is_socket_activated bus name = elim (service_stem name) [
  | none ↦ false
  | some stem ↦ says_active (path_then (bus.get_unit (stem ++ str ".socket")) bus.active_state)
]

-- ActiveState and the socket, on the unit so far.
abbrev pub with_state : Systemd → Str → Str → ServiceUnit → ServiceUnit
with_state bus name active_state unit =
    if str_eq active_state (str "inactive") && is_socket_activated bus name
    then record unit { state = ServiceState.active; result = some (str "socket-activated") }
    else record unit { state = state_of active_state }

abbrev pub with_restarts : Answer ℕ → ServiceUnit → ServiceUnit
with_restarts (answer n) unit = record unit { restart_count = n }
with_restarts (bus_error message) unit = record unit { restart_count = 0 }

abbrev pub with_result : Answer Str → ServiceUnit → ServiceUnit
with_result (answer r) unit = record unit { result = some r }
with_result (bus_error message) unit = unit

-- The excerpt of the journal, where there is a reader.
abbrev pub with_excerpt : Option (Str → List Str) → Str → ServiceUnit → ServiceUnit
with_excerpt none name unit = unit
with_excerpt (some excerpt) name unit = record unit { log_excerpt = excerpt name }

-- What follows ActiveState; the calls from there on catch their own errors.
unfoldable pub described :
    Systemd → Option (Str → List Str) → Str → Str → Str → ServiceUnit → ServiceUnit
described bus journal name path active_state unit = with_excerpt journal name (
    with_result (bus.result path)
      (with_restarts (bus.n_restarts path) (with_state bus name active_state unit)))

abbrev pub unit_named : Str → ServiceUnit
unit_named name = record service_unit_default { name = name }

unfoldable pub query_unit : Systemd → Option (Str → List Str) → Str → ServiceUnit
unfolding described
query_unit bus journal name =
    let unit = unit_named name in
    if not (is_safe_unit_name name)
    then record unit { detail = some (str "Invalid unit name") }
    else elim (bus.get_unit name) [
      | bus_error message ↦ record unit { detail = some message }
      | answer path ↦ elim (bus.active_state path) [
        | bus_error message ↦ record unit { detail = some message }
        | answer active_state ↦ described bus journal name path active_state unit
      ]
    ]

abbrev is_failed : ServiceState → Bool
is_failed ServiceState.failed = true
is_failed other = false

-- The severity of a state that no threshold is about.
abbrev pub severity_of_state : ServiceState → Severity
severity_of_state ServiceState.inactive = Severity.warn
severity_of_state ServiceState.active = Severity.ok
severity_of_state other = Severity.unknown

module _ {F : Type 0} (cfg : Config F) where
  unfoldable pub evaluate_unit_severity : ServiceUnit → Severity
  evaluate_unit_severity unit =
      if is_failed unit.state
      then Severity.crit
      else if leb cfg.thresholds.service_restart_crit unit.restart_count
      then Severity.crit
      else if leb cfg.thresholds.service_restart_warn unit.restart_count
      then Severity.warn
      else severity_of_state unit.state

  -- `status.overall` after a unit.
  abbrev pub raise : Severity → Severity → Severity
  raise overall Severity.crit = Severity.crit
  raise Severity.crit Severity.warn = Severity.crit
  raise overall Severity.warn = Severity.warn
  raise overall other = overall

  -- The loop, with the overall severity so far.
  collect_units :
      Systemd → Option (Str → List Str) → Severity → List Str → Severity × List ServiceUnit
  collect_units bus journal overall [] = (overall, [])
  collect_units bus journal overall (name ∷ names) =
      let queried = query_unit bus journal name in
      let severity = evaluate_unit_severity queried in
      let (last, units) = collect_units bus journal (raise overall severity) names in
      (last, record queried { severity = severity } ∷ units)

  abbrev pub unavailable_unit : Str → ServiceUnit
  unavailable_unit name = record service_unit_default {
    name = name;
    state = ServiceState.unknown;
    severity = Severity.unknown;
    detail = some (str "D-Bus unavailable");
  }

  -- The constructor's choice of the units.
  abbrev pub monitored_units : List Str → List Str
  monitored_units [] = cfg.monitored_services
  monitored_units (name ∷ names) = name ∷ names

  unfoldable pub collect :
      Option Systemd → Option (Str → List Str) → List Str → ProbeResult ServicesStatus
  unfolding collect_units
  collect none journal names = value (record services_status_default {
    overall = Severity.unknown;
    units = map unavailable_unit names;
  })
  collect (some bus) journal names =
      let (overall, units) = collect_units bus journal Severity.ok names in
      value (record services_status_default { overall = overall; units = units })
