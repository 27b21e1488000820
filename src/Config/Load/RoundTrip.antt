-- ===== src/Config/Load/RoundTrip.antt =====
-- Loading what was printed.
use edge_healthd.Prelude.{
  ℕ, ◌<◌, ◌^◌, ◌≡◌, refl, true, false, Option, none, some, str, str_eq, arith,
}
use edge_healthd.Prelude.Int.{ℤ, pos, negsuc}
use edge_healthd.Config.{Config, Thresholds, defaults}
use edge_healthd.Json.{find, object_of}
use edge_healthd.Json.Get.{run, and_then, Getters, is_int, get_unsigned-fitting}
use edge_healthd.Config.Load.{
  read_settings, read_items, read_log_excerpt, read_thresholds, normalize_log_level, is_priority,
  load_thresholds, load, load_json, parsed,
}
use edge_healthd.Config.Load.Print.{thresholds_fields, log_excerpt_fields, to_json}

-- The thresholds fit their types.
pub record FitThresholds {F : Type 0} (t : Thresholds F) : Type 0 where
  pub cpu_load_warn : t.cpu_load_warn < 2 ^ 8
  pub cpu_load_crit : t.cpu_load_crit < 2 ^ 8
  pub mem_used_warn : t.mem_used_warn < 2 ^ 8
  pub mem_used_crit : t.mem_used_crit < 2 ^ 8
  pub disk_used_warn : t.disk_used_warn < 2 ^ 8
  pub disk_used_crit : t.disk_used_crit < 2 ^ 8
  pub service_restart_warn : t.service_restart_warn < 2 ^ 32
  pub service_restart_crit : t.service_restart_crit < 2 ^ 32
  pub boot_fail_warn : t.boot_fail_warn < 2 ^ 32
  pub boot_fail_crit : t.boot_fail_crit < 2 ^ 32
  pub ptp_offset_warn_ns : t.ptp_offset_warn_ns < 2 ^ 32
  pub ptp_offset_crit_ns : t.ptp_offset_crit_ns < 2 ^ 32
  pub rtc_voltage_warn_mv : t.rtc_voltage_warn_mv < 2 ^ 32
  pub rtc_voltage_crit_mv : t.rtc_voltage_crit_mv < 2 ^ 32

-- The settings fit their types, and the level and the priority are such as loading gives.
pub record FitSettings {F : Type 0} (c : Config F) : Type 0 where
  pub collect_interval : is_int c.collect_interval ≡ true
  pub sample_window_sec : c.sample_window_sec < 2 ^ 32
  pub time_sync_interval : is_int c.time_sync_interval ≡ true
  pub update_check_interval : is_int c.update_check_interval ≡ true
  pub trigger_min_interval : is_int c.trigger_min_interval ≡ true
  pub log_level : normalize_log_level c.log_level ≡ c.log_level
  pub dbus_timeout : is_int c.dbus_timeout ≡ true
  pub log_excerpt_max_lines : c.log_excerpt_max_lines < 2 ^ 32
  pub log_excerpt_min_priority :
      (v : ℤ) → c.log_excerpt_min_priority ≡ some v → is_priority v ≡ true
  pub log_excerpt_window_sec : (n : ℕ) → c.log_excerpt_window_sec ≡ some n → n < 2 ^ 64
  pub journal_scan_timeout : is_int c.journal_scan_timeout ≡ true
  pub journal_buffer_max_entries : c.journal_buffer_max_entries < 2 ^ 32
  pub thresholds : FitThresholds c.thresholds

-- `old` with what the three parts of the loading take from `c`.
abbrev with_settings : {F : Type 0} → Config F → Config F → Config F
with_settings c old = record old {
  device_id = c.device_id;
  platform = c.platform;
  snapshot_file = c.snapshot_file;
  state_dir = c.state_dir;
  collect_interval = c.collect_interval;
  sample_window_sec = c.sample_window_sec;
  time_sync_interval = c.time_sync_interval;
  update_check_interval = c.update_check_interval;
  trigger_min_interval = c.trigger_min_interval;
}

abbrev with_items : {F : Type 0} → Config F → Config F → Config F
with_items c old = record old {
  monitored_services = c.monitored_services;
  monitored_mounts = c.monitored_mounts;
  monitored_interfaces = c.monitored_interfaces;
  enable_ntp = c.enable_ntp;
  enable_ptp = c.enable_ptp;
  enable_rtc = c.enable_rtc;
  rtc_device = c.rtc_device;
  enable_thermal = c.enable_thermal;
  enable_update_tracking = c.enable_update_tracking;
  log_level = c.log_level;
  dbus_timeout = c.dbus_timeout;
}

abbrev with_log_excerpt : {F : Type 0} → Config F → Config F → Config F
with_log_excerpt c old = record old {
  log_excerpt_max_lines = c.log_excerpt_max_lines;
  log_excerpt_min_priority = c.log_excerpt_min_priority;
  log_excerpt_window_sec = c.log_excerpt_window_sec;
  journal_scan_timeout = c.journal_scan_timeout;
  journal_buffer_max_entries = c.journal_buffer_max_entries;
}

module _ {F : Type 0} (get : Getters F) where
  read_thresholds-printed :
      (t old : Thresholds F)
      → FitThresholds t
      → run (read_thresholds get (object_of (thresholds_fields t))) old ≡ some t
  unfolding find str str_eq
  read_thresholds-printed t old h =
      simp
        (
          get_unsigned-fitting get 8 t.cpu_load_warn h.cpu_load_warn,
          get_unsigned-fitting get 8 t.cpu_load_crit h.cpu_load_crit,
          get_unsigned-fitting get 8 t.mem_used_warn h.mem_used_warn,
          get_unsigned-fitting get 8 t.mem_used_crit h.mem_used_crit,
          get_unsigned-fitting get 8 t.disk_used_warn h.disk_used_warn,
          get_unsigned-fitting get 8 t.disk_used_crit h.disk_used_crit,
          get.double_lem,
          get_unsigned-fitting get 32 t.service_restart_warn h.service_restart_warn,
          get_unsigned-fitting get 32 t.service_restart_crit h.service_restart_crit,
          get_unsigned-fitting get 32 t.boot_fail_warn h.boot_fail_warn,
          get_unsigned-fitting get 32 t.boot_fail_crit h.boot_fail_crit,
          get_unsigned-fitting get 32 t.ptp_offset_warn_ns h.ptp_offset_warn_ns,
          get_unsigned-fitting get 32 t.ptp_offset_crit_ns h.ptp_offset_crit_ns,
          get_unsigned-fitting get 32 t.rtc_voltage_warn_mv h.rtc_voltage_warn_mv,
          get_unsigned-fitting get 32 t.rtc_voltage_crit_mv h.rtc_voltage_crit_mv,
        )
        refl

  read_settings-printed :
      (c old : Config F)
      → FitSettings c
      → run (read_settings get (to_json c)) old ≡ some (with_settings c old)
  unfolding find str str_eq
  read_settings-printed c old h =
      simp
        (
          get.string_lem,
          get.int_lem c.collect_interval h.collect_interval,
          get_unsigned-fitting get 32 c.sample_window_sec h.sample_window_sec,
          get.int_lem c.time_sync_interval h.time_sync_interval,
          get.int_lem c.update_check_interval h.update_check_interval,
          get.int_lem c.trigger_min_interval h.trigger_min_interval,
        )
        refl

  read_items-printed :
      (c old : Config F)
      → FitSettings c
      → run (read_items get (to_json c)) old ≡ some (with_items c old)
  unfolding find str str_eq
  read_items-printed c old h =
      simp
        (
          get.string_lem,
          get.strings_lem,
          get.bool_lem,
          h.log_level,
          get.int_lem c.dbus_timeout h.dbus_timeout,
        )
        refl

  priority-is_int : (v : ℤ) → is_priority v ≡ true → is_int v ≡ true
  priority-is_int (pos n) h = ground (arith, h)
  priority-is_int (negsuc n) h = absurd (ground (arith, h))

  and_then-some :
      {C : Type 0} (o : Option C) (f : C → Option C) (a : C) (r : Option C)
      → o ≡ some a
      → f a ≡ r
      → and_then o f ≡ r
  and_then-some o f a r e p = rw e p

  load_thresholds-printed :
      (t : Thresholds F) (c : Config F)
      → FitThresholds t
      → load_thresholds get (object_of (thresholds_fields t)) c ≡ some (record c { thresholds = t })
  load_thresholds-printed t c h = rw (read_thresholds-printed t c.thresholds h) refl

  -- By what the two optional settings are.
  read_log_excerpt-cases :
      (c old : Config F) (p : Option ℤ) (w : Option ℕ)
      → FitSettings c
      → c.log_excerpt_min_priority ≡ p
      → c.log_excerpt_window_sec ≡ w
      → old.log_excerpt_min_priority ≡ none
      → old.log_excerpt_window_sec ≡ none
      → run (read_log_excerpt get (object_of (log_excerpt_fields c))) old
        ≡ some (with_log_excerpt c old)
  unfolding find str str_eq
  read_log_excerpt-cases c old none none h ep ew op ow =
      simp
        (
          ep,
          ew,
          op,
          ow,
          get_unsigned-fitting get 32 c.log_excerpt_max_lines h.log_excerpt_max_lines,
          get.int_lem c.journal_scan_timeout h.journal_scan_timeout,
          get_unsigned-fitting get 32 c.journal_buffer_max_entries h.journal_buffer_max_entries,
        )
        refl
  read_log_excerpt-cases c old (some v) none h ep ew op ow =
      simp
        (
          ep,
          ew,
          ow,
          get_unsigned-fitting get 32 c.log_excerpt_max_lines h.log_excerpt_max_lines,
          get.int_lem v (priority-is_int v (h.log_excerpt_min_priority v ep)),
          h.log_excerpt_min_priority v ep,
          get.int_lem c.journal_scan_timeout h.journal_scan_timeout,
          get_unsigned-fitting get 32 c.journal_buffer_max_entries h.journal_buffer_max_entries,
        )
        refl
  read_log_excerpt-cases c old none (some n) h ep ew op ow =
      simp
        (
          ep,
          ew,
          op,
          get_unsigned-fitting get 32 c.log_excerpt_max_lines h.log_excerpt_max_lines,
          get_unsigned-fitting get 64 n (h.log_excerpt_window_sec n ew),
          get.int_lem c.journal_scan_timeout h.journal_scan_timeout,
          get_unsigned-fitting get 32 c.journal_buffer_max_entries h.journal_buffer_max_entries,
        )
        refl
  read_log_excerpt-cases c old (some v) (some n) h ep ew op ow =
      simp
        (
          ep,
          ew,
          get_unsigned-fitting get 32 c.log_excerpt_max_lines h.log_excerpt_max_lines,
          get.int_lem v (priority-is_int v (h.log_excerpt_min_priority v ep)),
          h.log_excerpt_min_priority v ep,
          get_unsigned-fitting get 64 n (h.log_excerpt_window_sec n ew),
          get.int_lem c.journal_scan_timeout h.journal_scan_timeout,
          get_unsigned-fitting get 32 c.journal_buffer_max_entries h.journal_buffer_max_entries,
        )
        refl

  -- What is printed loads as it was, but for what is not in a file: the file's own path and the
  -- options of the command line. The settings fit their types, and the level and the priority are such
  -- as loading gives.
  pub load-to_json :
      (c : Config F) (temp_warn temp_crit : F)
      → FitSettings c
      → load get temp_warn temp_crit (parsed (to_json c))
        ≡ some (record c {
          config_file = str "/etc/edge/healthd.conf";
          foreground = false;
          verbose = false;
        })
  unfolding find str str_eq load_json
  load-to_json c temp_warn temp_crit h =
      let c0 : Config F = defaults temp_warn temp_crit in
      let c1 = with_settings c c0 in
      let c2 = with_items c c1 in
      and_then-some _ _ c1 _ (read_settings-printed c c0 h) (
        and_then-some _ _ c2 _ (read_items-printed c c1 h) (
          and_then-some _ _ (with_log_excerpt c c2) _
            (read_log_excerpt-cases c c2 c.log_excerpt_min_priority c.log_excerpt_window_sec h refl
              refl refl refl)
            (load_thresholds-printed c.thresholds (with_log_excerpt c c2) h.thresholds)))
