-- ===== src/Config/Load.antt =====
-- src/config.cpp: load(), load_or_default() and to_json_string(), on the value that the JSON library
-- parses from the file, or prints. An exception is none.
pub mod Print
pub mod RoundTrip
use edge_healthd.Prelude.{
  ℕ, ◌+◌, ◌%◌, Bool, true, false, ◌&&◌, ◌||◌, Option, none, some, List, [], ◌∷◌, ◌++◌, map, Str,
  str, str_eq, ltb, leb, if◌then◌else◌,
}
use edge_healthd.Prelude.Int.{ℤ, pos, negsuc}
use edge_healthd.Config.{Config, Thresholds, defaults}
use edge_healthd.Json.{
  Json, null, boolean, integer, real, string, array, object, natural, object_of, array_of, optional,
}
use edge_healthd.Json.Get.{Getters, member, assigned, if_there, read, and_then, run}

-- std::tolower of an unsigned char, in the C locale.
abbrev pub to_lower : ℕ → ℕ
to_lower c = if leb 65 c && leb c 90 then c + 32 else c

unfoldable pub normalize_log_level : Str → Str
normalize_log_level level = map to_lower level

abbrev pub is_one_of : Str → Str → Str → Bool
is_one_of s a b = str_eq s a || str_eq s b

-- -1 on an unknown name.
unfoldable pub priority_from_string : Str → ℤ
priority_from_string p =
    let s : Str = map to_lower p in
    if is_one_of s (str "emerg") (str "panic")
    then pos 0
    else if str_eq s (str "alert")
    then pos 1
    else if is_one_of s (str "crit") (str "critical")
    then pos 2
    else if is_one_of s (str "err") (str "error")
    then pos 3
    else if is_one_of s (str "warning") (str "warn")
    then pos 4
    else if str_eq s (str "notice")
    then pos 5
    else if is_one_of s (str "info") (str "informational")
    then pos 6
    else if str_eq s (str "debug")
    then pos 7
    else negsuc 0

-- 0 ≤ v and v ≤ 7.
abbrev pub is_priority : ℤ → Bool
is_priority (pos n) = leb n 7
is_priority (negsuc n) = false

-- The file: not there, not to be opened, not JSON, or a value.
pub data ConfigFile (F : Type 0) : Type 0 where
  missing unreadable malformed : ConfigFile F
  parsed : Json F → ConfigFile F

module _ {F : Type 0} (get : Getters F) where
  abbrev pub read_settings : Json F → List (Config F → Option (Config F))
  read_settings json =
      read json (str "device_id") get.get_string (λ v c. record c { device_id = v })
      ∷ read json (str "platform") get.get_string (λ v c. record c { platform = v })
      ∷ read json (str "snapshot_file") get.get_string (λ v c. record c { snapshot_file = v })
      ∷ read json (str "state_dir") get.get_string (λ v c. record c { state_dir = v })
      ∷ read json (str "collect_interval_sec") get.get_int
          (λ v c. record c { collect_interval = v })
      ∷ read json (str "sample_window_sec") (get.get_unsigned 32)
          (λ v c. record c { sample_window_sec = v })
      ∷ read json (str "time_sync_interval_sec") get.get_int
          (λ v c. record c { time_sync_interval = v })
      ∷ read json (str "update_check_interval_sec") get.get_int
          (λ v c. record c { update_check_interval = v })
      ∷ read json (str "trigger_min_interval_sec") get.get_int
          (λ v c. record c { trigger_min_interval = v })
      ∷ []

  abbrev pub read_items : Json F → List (Config F → Option (Config F))
  read_items json =
      read json (str "monitored_services") get.get_strings
        (λ v c. record c { monitored_services = v })
      ∷ read json (str "monitored_mounts") get.get_strings
          (λ v c. record c { monitored_mounts = v })
      ∷ read json (str "monitored_interfaces") get.get_strings
          (λ v c. record c { monitored_interfaces = v })
      ∷ read json (str "enable_ntp") get.get_bool (λ v c. record c { enable_ntp = v })
      ∷ read json (str "enable_ptp") get.get_bool (λ v c. record c { enable_ptp = v })
      ∷ read json (str "enable_rtc") get.get_bool (λ v c. record c { enable_rtc = v })
      ∷ read json (str "rtc_device") get.get_string (λ v c. record c { rtc_device = v })
      ∷ read json (str "enable_thermal") get.get_bool (λ v c. record c { enable_thermal = v })
      ∷ read json (str "enable_update_tracking") get.get_bool
          (λ v c. record c { enable_update_tracking = v })
      ∷ read json (str "log_level") get.get_string
          (λ v c. record c { log_level = normalize_log_level v })
      ∷ read json (str "dbus_timeout_ms") get.get_int (λ v c. record c { dbus_timeout = v })
      ∷ []

  abbrev pub with_priority : ℤ → Config F → Config F
  with_priority v c = if is_priority v then record c { log_excerpt_min_priority = some v } else c

  -- A name or a number; what is neither is ignored.
  abbrev pub read_priority : Json F → Config F → Option (Config F)
  read_priority (string s) = λ c.
      assigned (λ name. with_priority (priority_from_string name)) c (get.get_string (string s))
  read_priority (integer n) = λ c. assigned with_priority c (get.get_int (integer n))
  read_priority other = λ c. some c

  abbrev pub read_log_excerpt : Json F → List (Config F → Option (Config F))
  read_log_excerpt le =
      read le (str "max_lines") (get.get_unsigned 32)
        (λ v c. record c { log_excerpt_max_lines = v })
      ∷ if_there (member (str "min_priority") le) read_priority
      ∷ read le (str "window_sec") (get.get_unsigned 64)
          (λ v c. record c { log_excerpt_window_sec = some v })
      ∷ read le (str "scan_timeout_ms") get.get_int (λ v c. record c { journal_scan_timeout = v })
      ∷ read le (str "buffer_max_entries") (get.get_unsigned 32)
          (λ v c. record c { journal_buffer_max_entries = v })
      ∷ []

  abbrev pub read_thresholds : Json F → List (Thresholds F → Option (Thresholds F))
  read_thresholds t =
      read t (str "cpu_load_warn") (get.get_unsigned 8) (λ v c. record c { cpu_load_warn = v })
      ∷ read t (str "cpu_load_crit") (get.get_unsigned 8) (λ v c. record c { cpu_load_crit = v })
      ∷ read t (str "mem_used_warn") (get.get_unsigned 8) (λ v c. record c { mem_used_warn = v })
      ∷ read t (str "mem_used_crit") (get.get_unsigned 8) (λ v c. record c { mem_used_crit = v })
      ∷ read t (str "disk_used_warn") (get.get_unsigned 8) (λ v c. record c { disk_used_warn = v })
      ∷ read t (str "disk_used_crit") (get.get_unsigned 8) (λ v c. record c { disk_used_crit = v })
      ∷ read t (str "temp_warn_c") get.get_double (λ v c. record c { temp_warn_c = v })
      ∷ read t (str "temp_crit_c") get.get_double (λ v c. record c { temp_crit_c = v })
      ∷ read t (str "service_restart_warn") (get.get_unsigned 32)
          (λ v c. record c { service_restart_warn = v })
      ∷ read t (str "service_restart_crit") (get.get_unsigned 32)
          (λ v c. record c { service_restart_crit = v })
      ∷ read t (str "boot_fail_warn") (get.get_unsigned 32) (λ v c. record c { boot_fail_warn = v })
      ∷ read t (str "boot_fail_crit") (get.get_unsigned 32) (λ v c. record c { boot_fail_crit = v })
      ∷ read t (str "ptp_offset_warn_ns") (get.get_unsigned 32)
          (λ v c. record c { ptp_offset_warn_ns = v })
      ∷ read t (str "ptp_offset_crit_ns") (get.get_unsigned 32)
          (λ v c. record c { ptp_offset_crit_ns = v })
      ∷ read t (str "rtc_voltage_warn_mv") (get.get_unsigned 32)
          (λ v c. record c { rtc_voltage_warn_mv = v })
      ∷ read t (str "rtc_voltage_crit_mv") (get.get_unsigned 32)
          (λ v c. record c { rtc_voltage_crit_mv = v })
      ∷ []

  abbrev pub load_thresholds : Json F → Config F → Option (Config F)
  load_thresholds t c =
      assigned (λ v d. record d { thresholds = v }) c (run (read_thresholds t) c.thresholds)

  unfoldable pub load_json : Json F → Config F → Option (Config F)
  unfolding normalize_log_level priority_from_string
  load_json json c = and_then (run (read_settings json) c) (λ c1.
      and_then (run (read_items json) c1) (λ c2.
        and_then (if_there (member (str "log_excerpt") json) (λ le. run (read_log_excerpt le)) c2)
          (λ c3. if_there (member (str "thresholds") json) load_thresholds c3)))

  -- Config::load(), from defaults().
  abbrev pub load : F → F → ConfigFile F → Option (Config F)
  load temp_warn temp_crit (parsed json) = load_json json (defaults temp_warn temp_crit)
  load temp_warn temp_crit other = none

  abbrev pub or_defaults : F → F → Option (Config F) → Config F
  or_defaults temp_warn temp_crit none = defaults temp_warn temp_crit
  or_defaults temp_warn temp_crit (some c) = c

  abbrev pub load_or_default : F → F → ConfigFile F → Config F
  load_or_default temp_warn temp_crit file =
      or_defaults temp_warn temp_crit (load temp_warn temp_crit file)
