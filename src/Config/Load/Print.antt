-- ===== src/Config/Load/Print.antt =====
-- src/config.cpp: the value that to_json_string() prints.
use edge_healthd.Prelude.{List, [], ◌∷◌, ◌++◌, Str, str}
use edge_healthd.Config.{Config, Thresholds}
use edge_healthd.Json.{Json, boolean, integer, real, string, natural, object_of, array_of, optional}

module _ {F : Type 0} where
  abbrev pub thresholds_fields : Thresholds F → List (Str × Json F)
  thresholds_fields t =
      (str "cpu_load_warn", natural t.cpu_load_warn)
      ∷ (str "cpu_load_crit", natural t.cpu_load_crit)
      ∷ (str "mem_used_warn", natural t.mem_used_warn)
      ∷ (str "mem_used_crit", natural t.mem_used_crit)
      ∷ (str "disk_used_warn", natural t.disk_used_warn)
      ∷ (str "disk_used_crit", natural t.disk_used_crit)
      ∷ (str "temp_warn_c", real t.temp_warn_c)
      ∷ (str "temp_crit_c", real t.temp_crit_c)
      ∷ (str "service_restart_warn", natural t.service_restart_warn)
      ∷ (str "service_restart_crit", natural t.service_restart_crit)
      ∷ (str "boot_fail_warn", natural t.boot_fail_warn)
      ∷ (str "boot_fail_crit", natural t.boot_fail_crit)
      ∷ (str "ptp_offset_warn_ns", natural t.ptp_offset_warn_ns)
      ∷ (str "ptp_offset_crit_ns", natural t.ptp_offset_crit_ns)
      ∷ (str "rtc_voltage_warn_mv", natural t.rtc_voltage_warn_mv)
      ∷ (str "rtc_voltage_crit_mv", natural t.rtc_voltage_crit_mv)
      ∷ []

  abbrev pub log_excerpt_fields : Config F → List (Str × Json F)
  log_excerpt_fields c =
      (str "max_lines", natural c.log_excerpt_max_lines)
      ∷ (optional (str "min_priority") integer c.log_excerpt_min_priority
          ++ (optional (str "window_sec") natural c.log_excerpt_window_sec
              ++ ((str "scan_timeout_ms", integer c.journal_scan_timeout)
                  ∷ (str "buffer_max_entries", natural c.journal_buffer_max_entries)
                  ∷ [])))

  abbrev pub to_json : Config F → Json F
  to_json c = object_of (
      (str "device_id", string c.device_id)
      ∷ (str "platform", string c.platform)
      ∷ (str "snapshot_file", string c.snapshot_file)
      ∷ (str "state_dir", string c.state_dir)
      ∷ (str "collect_interval_sec", integer c.collect_interval)
      ∷ (str "sample_window_sec", natural c.sample_window_sec)
      ∷ (str "time_sync_interval_sec", integer c.time_sync_interval)
      ∷ (str "update_check_interval_sec", integer c.update_check_interval)
      ∷ (str "trigger_min_interval_sec", integer c.trigger_min_interval)
      ∷ (str "log_level", string c.log_level)
      ∷ (str "dbus_timeout_ms", integer c.dbus_timeout)
      ∷ (str "monitored_services", array_of string c.monitored_services)
      ∷ (str "monitored_mounts", array_of string c.monitored_mounts)
      ∷ (str "monitored_interfaces", array_of string c.monitored_interfaces)
      ∷ (str "enable_ntp", boolean c.enable_ntp)
      ∷ (str "enable_ptp", boolean c.enable_ptp)
      ∷ (str "enable_rtc", boolean c.enable_rtc)
      ∷ (str "rtc_device", string c.rtc_device)
      ∷ (str "enable_thermal", boolean c.enable_thermal)
      ∷ (str "enable_update_tracking", boolean c.enable_update_tracking)
      ∷ (str "thresholds", object_of (thresholds_fields c.thresholds))
      ∷ (str "log_excerpt", object_of (log_excerpt_fields c))
      ∷ [])
