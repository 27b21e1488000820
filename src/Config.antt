-- ===== src/Config.antt =====
-- inc/config.hpp: the configuration. `Validate` has src/config.cpp's validate().
-- Durations are the signed counts that a configuration file may give, in the unit of their name.
pub mod Validate
pub mod Load
use edge_healthd.Prelude.{ℕ, Bool, true, false, Option, none, List, [], ◌∷◌, Str, str}
use edge_healthd.Prelude.Int.{ℤ, pos}

pub record Thresholds (F : Type 0) : Type 0 where
  pub cpu_load_warn : ℕ
  pub cpu_load_crit : ℕ
  pub mem_used_warn : ℕ
  pub mem_used_crit : ℕ
  pub disk_used_warn : ℕ
  pub disk_used_crit : ℕ
  pub temp_warn_c : F
  pub temp_crit_c : F
  pub service_restart_warn : ℕ
  pub service_restart_crit : ℕ
  pub boot_fail_warn : ℕ
  pub boot_fail_crit : ℕ
  pub ptp_offset_warn_ns : ℕ
  pub ptp_offset_crit_ns : ℕ
  pub rtc_voltage_warn_mv : ℕ
  pub rtc_voltage_crit_mv : ℕ

pub record Config (F : Type 0) : Type 0 where
  pub device_id : Str
  pub platform : Str
  pub snapshot_file : Str
  pub state_dir : Str
  pub config_file : Str
  pub collect_interval : ℤ
  pub sample_window_sec : ℕ
  pub time_sync_interval : ℤ
  pub update_check_interval : ℤ
  pub trigger_min_interval : ℤ
  pub monitored_services : List Str
  pub monitored_mounts : List Str
  pub monitored_interfaces : List Str
  pub enable_ntp : Bool
  pub enable_ptp : Bool
  pub enable_rtc : Bool
  pub rtc_device : Str
  pub enable_thermal : Bool
  pub enable_update_tracking : Bool
  pub thresholds : Thresholds F
  pub dbus_timeout : ℤ
  pub foreground : Bool
  pub log_level : Str
  pub verbose : Bool
  pub log_excerpt_max_lines : ℕ
  pub log_excerpt_min_priority : Option ℤ
  pub log_excerpt_window_sec : Option ℕ
  pub journal_scan_timeout : ℤ
  pub journal_buffer_max_entries : ℕ

-- The member initializers. The two temperatures, 70.0 and 85.0, are given.
abbrev pub thresholds_default : {F : Type 0} → F → F → Thresholds F
thresholds_default temp_warn temp_crit = record {
  cpu_load_warn = 80;
  cpu_load_crit = 95;
  mem_used_warn = 80;
  mem_used_crit = 95;
  disk_used_warn = 80;
  disk_used_crit = 95;
  temp_warn_c = temp_warn;
  temp_crit_c = temp_crit;
  service_restart_warn = 3;
  service_restart_crit = 10;
  boot_fail_warn = 1;
  boot_fail_crit = 3;
  ptp_offset_warn_ns = 10000;
  ptp_offset_crit_ns = 100000;
  rtc_voltage_warn_mv = 2700;
  rtc_voltage_crit_mv = 2500;
}

-- `Config::defaults()`.
abbrev pub defaults : {F : Type 0} → F → F → Config F
defaults temp_warn temp_crit = record {
  device_id = [];
  platform = [];
  snapshot_file = str "/run/health/state.json";
  state_dir = str "/data/edge/health";
  config_file = str "/etc/edge/healthd.conf";
  collect_interval = pos 60;
  sample_window_sec = 60;
  time_sync_interval = pos 300;
  update_check_interval = pos 1800;
  trigger_min_interval = pos 5;
  monitored_services = str "sshd.socket" ∷ str "NetworkManager.service" ∷ [];
  monitored_mounts = str "/" ∷ str "/data" ∷ [];
  monitored_interfaces = str "eth0" ∷ str "eth1" ∷ [];
  enable_ntp = true;
  enable_ptp = false;
  enable_rtc = true;
  rtc_device = str "/sys/class/rtc/rtc0";
  enable_thermal = true;
  enable_update_tracking = true;
  thresholds = thresholds_default temp_warn temp_crit;
  dbus_timeout = pos 2000;
  foreground = false;
  log_level = str "info";
  verbose = false;
  log_excerpt_max_lines = 20;
  log_excerpt_min_priority = none;
  log_excerpt_window_sec = none;
  journal_scan_timeout = pos 3000;
  journal_buffer_max_entries = 1000;
}
