-- ===== src/Config/Validate.antt =====
-- src/config.cpp: validate() and is_valid_log_level().
pub mod Bounds
use edge_healthd.Prelude.{
  Bool, not, ◌||◌, Option, none, some, Str, str, str_eq, ltb, leb, ◌==◌, if◌then◌else◌,
}
use edge_healthd.Prelude.Int.{pos, ltb_ℤ}
use edge_healthd.Prelude.Double.{Double}
use edge_healthd.Config.{Config, Thresholds}

is_valid_log_level : Str → Bool
is_valid_log_level level =
    str_eq level (str "debug")
    || str_eq level (str "info")
    || str_eq level (str "warn")
    || str_eq level (str "error")

module _ {F : Type 0} (fp : Double F) where
  -- The checks on the thresholds, which stand last in `validate`.
  validate_thresholds : Thresholds F → Option Str
  validate_thresholds t =
      if leb t.cpu_load_crit t.cpu_load_warn
      then some (str "cpu_load_warn must be less than cpu_load_crit")
      else if leb t.mem_used_crit t.mem_used_warn
      then some (str "mem_used_warn must be less than mem_used_crit")
      else if leb t.disk_used_crit t.disk_used_warn
      then some (str "disk_used_warn must be less than disk_used_crit")
      else if fp.geb t.temp_warn_c t.temp_crit_c
      then some (str "temp_warn_c must be less than temp_crit_c")
      else none

  -- `validate`: the message of the first check that fails.
  unfoldable pub validate : Config F → Option Str
  unfolding validate_thresholds is_valid_log_level
  validate c =
      if ltb_ℤ c.collect_interval (pos 1)
      then some (str "collect_interval must be at least 1 second")
      else if ltb_ℤ c.time_sync_interval (pos 1)
      then some (str "time_sync_interval_sec must be at least 1")
      else if ltb_ℤ c.update_check_interval (pos 1)
      then some (str "update_check_interval_sec must be at least 1")
      else if ltb_ℤ c.trigger_min_interval (pos 0)
      then some (str "trigger_min_interval_sec must be >= 0 (0 disables rate-limiting)")
      else if not (is_valid_log_level c.log_level)
      then some (str "log_level must be one of: debug, info, warn, error")
      else if ltb_ℤ c.dbus_timeout (pos 1)
      then some (str "dbus_timeout_ms must be at least 1")
      else if c.log_excerpt_max_lines == 0 || ltb 1000 c.log_excerpt_max_lines
      then some (str "log_excerpt.max_lines must be between 1 and 1000")
      else if ltb_ℤ c.journal_scan_timeout (pos 100)
      then some (str "log_excerpt.scan_timeout_ms must be at least 100")
      else if ltb 100000 c.journal_buffer_max_entries
      then some (str "log_excerpt.buffer_max_entries must be at most 100000")
      else validate_thresholds c.thresholds
