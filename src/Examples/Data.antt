-- ===== src/Examples/Data.antt =====
-- The default configuration, section values and cycles that the examples share.
use edge_healthd.Prelude.{ℕ, ◌*◌, true, some, List, [], ◌∷◌, str}
use edge_healthd.Prelude.Int.{pos}
use edge_healthd.Prelude.Double.{milli}
use edge_healthd.Types.Sections.{
  ServiceUnit, ServicesStatus, ResourcesStatus, CrashStatus, device_info_default,
  boot_status_default, services_status_default, resources_status_default, update_status_default,
  crash_status_default, service_unit_default,
}
use edge_healthd.Types.Enums.{Severity, ServiceState}
use edge_healthd.Config.{Config, defaults}
use edge_healthd.Probe.Result.{value, failure, make_error}
use edge_healthd.Daemon.Schedule.{Reading}
use edge_healthd.Daemon.State.{Daemon, Inputs, initialize, written}
use edge_healthd.Daemon.Run.{Event, cycle, trigger, run}

abbrev pub config : Config ℕ
config = defaults 70000 85000

abbrev pub answers : {T : Type 0} → ℕ → T → Reading T
answers wall x = record { result = value x; read_at = wall }

abbrev pub fails : {T : Type 0} → Reading T
fails = record {
  result = failure (make_error (str "probe") (str "unavailable") (pos 0));
  read_at = 0;
}

abbrev pub panic : CrashStatus
panic = record crash_status_default {
  panic_count = 1;
  panic_current_boot = true;
  fingerprint = some (str "fp-1");
}

abbrev pub failed_unit : ServiceUnit
failed_unit = record service_unit_default {
  name = str "sshd.socket";
  state = ServiceState.failed;
  severity = Severity.crit;
}

abbrev pub services : ServicesStatus
services = record services_status_default { overall = Severity.crit; units = failed_unit ∷ [] }

abbrev pub resources : ResourcesStatus ℕ
resources = resources_status_default 0

-- A cycle at a time in seconds, with what the crash probe answers.
abbrev pub inputs : ℕ → CrashStatus → Inputs ℕ
inputs time crash = record {
  now = time * 1000000000;
  generated_at = time;
  cores = 4;
  device = answers time device_info_default;
  boot = answers time boot_status_default;
  services = answers time services;
  resources = answers time (resources_status_default 0);
  time_sync = fails;
  update = answers time update_status_default;
  journal = fails;
  crash = answers time crash;
  write_outcome = written;
}

abbrev pub history : List (Event ℕ)
history = cycle (inputs 10 panic) ∷ trigger 11000000000 ∷ cycle (inputs 11 panic) ∷ []

-- The daemon after two cycles with an active panic.
abbrev pub alarmed : Daemon ℕ
alarmed = (run milli history (initialize milli config true)).0
