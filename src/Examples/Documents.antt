-- ===== src/Examples/Documents.antt =====
-- A snapshot that is serialized, and a configuration that is printed and loaded, with getters that
-- convert only what has the right type.
use edge_healthd.Prelude.{
  ℕ, ◌%◌, ◌^◌, ◌≡◌, refl, Bool, true, false, not, Option, none, some, List, [], ◌∷◌, Str, str,
  is_empty, arith, ap,
}
use edge_healthd.Prelude.Int.{ℤ, pos, negsuc}
use edge_healthd.Prelude.Double.{milli}
use edge_healthd.Types.Sections.{StorageMount, device_info_default, journal_status_default}
use edge_healthd.Types.Snapshot.{SnapshotState, snapshot_state_default}
use edge_healthd.Config.{Config}
use edge_healthd.Json.{
  Json, Items, null, boolean, integer, real, string, array, object, end_of_items, item, array_of,
}
use edge_healthd.Json.Get.{Getters}
use edge_healthd.Json.Serializer.{snapshot_json}
use edge_healthd.Json.Schema.{conforms}
use edge_healthd.Json.Schema.Snapshot.{snapshot_schema}
use edge_healthd.Json.Schema.Conforms.State.{IsPublishable, snapshot_json-conforms}
use edge_healthd.Config.Load.{load, parsed, normalize_log_level, is_priority}
use edge_healthd.Config.Load.Print.{to_json}
use edge_healthd.Config.Load.RoundTrip.{FitThresholds, FitSettings, load-to_json}
use edge_healthd.Examples.Data.{config, services}

abbrev reason_test : Str → Bool
reason_test s = not (is_empty s)

abbrev utc : ℕ → Str
utc t = str "2026-01-01T00:00:00Z"

abbrev root_mount : StorageMount
root_mount = record {
  mount = str "/";
  fs = str "ext4";
  available = true;
  used_pct = some 75;
  avail_mb = some 100;
}

abbrev published : SnapshotState ℕ
published =
    let s = snapshot_state_default 0 in
    record s {
      services = services;
      resources = record (s.resources) { storage = root_mount ∷ [] };
      journal = record journal_status_default { recent_errors = str "kernel: fault" ∷ [] };
    }

published-IsPublishable : IsPublishable milli reason_test published
unfolding snapshot_state_default device_info_default str
published-IsPublishable = record {
  named_device = refl;
  short_excerpts = ((refl, tt), tt);
  resources = (refl, ((λ h. refl), (λ h. refl), (λ h. refl)), ((λ n e. ground (arith, e)), tt));
  short_errors = (refl, tt);
  known_source = λ t e. absurd (ground (arith, e));
  reasons_match = (refl, tt);
}

snapshot_json-conforms_example :
    conforms milli reason_test (snapshot_json milli utc published) snapshot_schema ≡ true
snapshot_json-conforms_example =
    snapshot_json-conforms milli reason_test utc published (refl, refl) published-IsPublishable

abbrev as_string : Json ℕ → Option Str
as_string (string s) = some s
as_string other = none

abbrev as_bool : Json ℕ → Option Bool
as_bool (boolean b) = some b
as_bool other = none

abbrev as_int : Json ℕ → Option ℤ
as_int (integer n) = some n
as_int other = none

abbrev as_unsigned : ℕ → Json ℕ → Option ℕ
as_unsigned w (integer (pos n)) = some (n % 2 ^ w)
as_unsigned w other = none

abbrev as_double : Json ℕ → Option ℕ
as_double (real x) = some x
as_double other = none

abbrev cons_string : Option Str → Option (List Str) → Option (List Str)
cons_string (some x) (some xs) = some (x ∷ xs)
cons_string x xs = none

abbrev strings_in : Items ℕ → Option (List Str)
strings_in end_of_items = some []
strings_in (item x xs) = cons_string (as_string x) (strings_in xs)

abbrev as_strings : Json ℕ → Option (List Str)
as_strings (array xs) = strings_in xs
as_strings other = none

pub as_strings_lem : (xs : List Str) → as_strings (array_of string xs) ≡ some xs
as_strings_lem [] = refl
as_strings_lem (x ∷ xs) = ap (cons_string (some x)) (as_strings_lem xs)

pub as_string_only : (j : Json ℕ) (s : Str) → as_string j ≡ some s → j ≡ string s
as_string_only null s e = absurd (ground (arith, e))
as_string_only (boolean b) s e = absurd (ground (arith, e))
as_string_only (integer n) s e = absurd (ground (arith, e))
as_string_only (real x) s e = absurd (ground (arith, e))
as_string_only (string t) s e = ap (λ (u : Str). string u) (ground (arith, e))
as_string_only (array xs) s e = absurd (ground (arith, e))
as_string_only (object fs) s e = absurd (ground (arith, e))

pub as_bool_only : (j : Json ℕ) (b : Bool) → as_bool j ≡ some b → j ≡ boolean b
as_bool_only null b e = absurd (ground (arith, e))
as_bool_only (boolean c) b e = ap (λ (u : Bool). boolean u) (ground (arith, e))
as_bool_only (integer n) b e = absurd (ground (arith, e))
as_bool_only (real x) b e = absurd (ground (arith, e))
as_bool_only (string t) b e = absurd (ground (arith, e))
as_bool_only (array xs) b e = absurd (ground (arith, e))
as_bool_only (object fs) b e = absurd (ground (arith, e))

abbrev pub getters : Getters ℕ
getters = record {
  get_string = as_string;
  get_bool = as_bool;
  get_strings = as_strings;
  get_int = as_int;
  get_unsigned = as_unsigned;
  get_double = as_double;
  string_lem = λ s. refl;
  bool_lem = λ b. refl;
  strings_lem = as_strings_lem;
  int_lem = λ n h. refl;
  unsigned_lem = λ w n. refl;
  double_lem = λ x. refl;
  string_only = as_string_only;
  bool_only = as_bool_only;
}

abbrev stored : Config ℕ
stored = record config {
  device_id = str "edge-1";
  log_level = str "warn";
  log_excerpt_min_priority = some (pos 4);
  log_excerpt_window_sec = some 900;
}

thresholds_fit : FitThresholds stored.thresholds
thresholds_fit = record {
  cpu_load_warn = omega arith;
  cpu_load_crit = omega arith;
  mem_used_warn = omega arith;
  mem_used_crit = omega arith;
  disk_used_warn = omega arith;
  disk_used_crit = omega arith;
  service_restart_warn = omega arith;
  service_restart_crit = omega arith;
  boot_fail_warn = omega arith;
  boot_fail_crit = omega arith;
  ptp_offset_warn_ns = omega arith;
  ptp_offset_crit_ns = omega arith;
  rtc_voltage_warn_mv = omega arith;
  rtc_voltage_crit_mv = omega arith;
}

priority_of_stored : (v : ℤ) → ◌≡◌ {A = Option ℤ} (some (pos 4)) (some v) → is_priority v ≡ true
priority_of_stored (pos n) e = ground (arith, e)
priority_of_stored (negsuc n) e = absurd (ground (arith, e))

settings_fit : FitSettings stored
unfolding normalize_log_level str
settings_fit = record {
  collect_interval = refl;
  sample_window_sec = omega arith;
  time_sync_interval = refl;
  update_check_interval = refl;
  trigger_min_interval = refl;
  log_level = refl;
  dbus_timeout = refl;
  log_excerpt_max_lines = omega arith;
  log_excerpt_min_priority = priority_of_stored;
  log_excerpt_window_sec = λ n e. ground (arith, e);
  journal_scan_timeout = refl;
  journal_buffer_max_entries = omega arith;
  thresholds = thresholds_fit;
}

load-to_json_example :
    load getters 70000 85000 (parsed (to_json stored))
    ≡ some (record stored {
      config_file = str "/etc/edge/healthd.conf";
      foreground = false;
      verbose = false;
    })
load-to_json_example = load-to_json getters stored 70000 85000 settings_fit
