-- ===== src/Types/Sections/Host.antt =====
-- inc/types.hpp: the device, the freshness of a section, the boot and the services.
use edge_healthd.Prelude.{ℕ, Bool, true, false, Option, none, List, [], Str, str}
use edge_healthd.Types.Enums.{Severity, ServiceState}

pub record OsInfo : Type 0 where
  pub distro : Str
  pub version : Str
  pub build_id : Str
  pub kernel : Str

unfoldable pub os_info_default : OsInfo
os_info_default = record {
  distro = str "unknown";
  version = [];
  build_id = [];
  kernel = str "unknown";
}

pub record DeviceInfo : Type 0 where
  pub device_id : Str
  pub hostname : Str
  pub platform : Str
  pub arch : Str
  pub os : OsInfo

unfoldable pub device_info_default : DeviceInfo
device_info_default = record {
  device_id = str "unknown";
  hostname = str "unknown";
  platform = str "unknown";
  arch = str "uknown";
  os = os_info_default;
}

pub record SectionFreshness : Type 0 where
  pub collected_at : Option ℕ
  pub stale : Bool

abbrev pub section_freshness_default : SectionFreshness
section_freshness_default = record { collected_at = none; stale = false }

pub record BootStatus : Type 0 where
  pub freshness : SectionFreshness
  pub boot_id : Str
  pub last_boot_at : ℕ
  pub uptime : ℕ
  pub boot_ok : Bool
  pub boot_fail_count : ℕ
  pub last_reboot_reason : Option Str

abbrev pub boot_status_default : BootStatus
boot_status_default = record {
  freshness = section_freshness_default;
  boot_id = [];
  last_boot_at = 0;
  uptime = 0;
  boot_ok = true;
  boot_fail_count = 0;
  last_reboot_reason = none;
}

pub record ServiceUnit : Type 0 where
  pub name : Str
  pub state : ServiceState
  pub severity : Severity
  pub since : Option ℕ
  pub restart_count : ℕ
  pub result : Option Str
  pub detail : Option Str
  pub log_excerpt : List Str

abbrev pub service_unit_default : ServiceUnit
service_unit_default = record {
  name = [];
  state = ServiceState.unknown;
  severity = Severity.unknown;
  since = none;
  restart_count = 0;
  result = none;
  detail = none;
  log_excerpt = [];
}

pub record ServicesStatus : Type 0 where
  pub freshness : SectionFreshness
  pub overall : Severity
  pub units : List ServiceUnit

abbrev pub services_status_default : ServicesStatus
services_status_default = record {
  freshness = section_freshness_default;
  overall = Severity.unknown;
  units = [];
}
