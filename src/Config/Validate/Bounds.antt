-- ===== src/Config/Validate/Bounds.antt =====
-- What src/config.cpp's validate() admits, said as bounds.
use edge_healthd.Prelude.{
  ℕ, suc, ◌≤◌, ◌<◌, ◌≡◌, ◌↔◌, ◌⊎◌, Bool, true, false, not, ◌||◌, Option, none, some, Str, str,
  str_eq_iff, ltb, leb, ◌==◌, if◌then◌else◌, arith,
}
use edge_healthd.Prelude.Int.{ℤ, pos, negsuc, ltb_ℤ, pos_part, neg_part}
use edge_healthd.Prelude.Double.{Double}
use edge_healthd.Config.{Config, Thresholds}
use edge_healthd.Config.Validate.{validate, validate_thresholds, is_valid_log_level}

-- The bounds on the thresholds.
abbrev pub AreOrdered : {F : Type 0} → Double F → Thresholds F → Type 0
AreOrdered fp t =
    (t.cpu_load_warn < t.cpu_load_crit)
    × ((t.mem_used_warn < t.mem_used_crit)
        × ((t.disk_used_warn < t.disk_used_crit) × (fp.geb t.temp_warn_c t.temp_crit_c ≡ false)))

abbrev pub IsLogLevel : Str → Type 0
IsLogLevel l = (l ≡ str "debug") ⊎ (l ≡ str "info") ⊎ (l ≡ str "warn") ⊎ (l ≡ str "error")

abbrev pub IsValid : {F : Type 0} → Double F → Config F → Type 0
IsValid fp c =
    (1 ≤ pos_part c.collect_interval)
    × ((1 ≤ pos_part c.time_sync_interval)
        × ((1 ≤ pos_part c.update_check_interval)
            × ((neg_part c.trigger_min_interval ≡ 0)
                × (IsLogLevel c.log_level
                    × ((1 ≤ pos_part c.dbus_timeout)
                        × (((1 ≤ c.log_excerpt_max_lines) × (c.log_excerpt_max_lines ≤ 1000))
                            × ((100 ≤ pos_part c.journal_scan_timeout)
                                × ((c.journal_buffer_max_entries ≤ 100000)
                                    × AreOrdered fp c.thresholds))))))))

check_iff :
    {P Q : Type 0} (b : Bool) (message : Str) (rest : Option Str)
    → (b ≡ false) ↔ P
    → (rest ≡ none) ↔ Q
    → ((if b then some message else rest) ≡ none) ↔ (P × Q)
check_iff true message rest p q = ground arith
check_iff false message rest p q = ground arith

last_check_iff :
    {P : Type 0} (b : Bool) (message : Str)
    → (b ≡ false) ↔ P
    → ((if b then some message else none) ≡ none) ↔ P
last_check_iff true message p = ground arith
last_check_iff false message p = ground arith

ltb_ℤ_pos : (z : ℤ) (n : ℕ) → (ltb_ℤ z (pos (suc n)) ≡ false) ↔ (suc n ≤ pos_part z)
ltb_ℤ_pos (pos m) n = ground arith
ltb_ℤ_pos (negsuc m) n = ground arith

ltb_ℤ_zero : (z : ℤ) → (ltb_ℤ z (pos 0) ≡ false) ↔ (neg_part z ≡ 0)
ltb_ℤ_zero (pos m) = ground arith
ltb_ℤ_zero (negsuc m) = ground arith

leb_flip : (a b : ℕ) → (leb b a ≡ false) ↔ (a < b)
leb_flip a b = ground arith

is_valid_log_level_lem : (l : Str) → (not (is_valid_log_level l) ≡ false) ↔ IsLogLevel l
unfolding is_valid_log_level
is_valid_log_level_lem l = ground (
  arith,
  str_eq_iff l (str "debug"),
  str_eq_iff l (str "info"),
  str_eq_iff l (str "warn"),
  str_eq_iff l (str "error"),
)

max_lines_iff : (n : ℕ) → ((n == 0 || ltb 1000 n) ≡ false) ↔ ((1 ≤ n) × (n ≤ 1000))
max_lines_iff n = ground arith

max_entries_iff : (n : ℕ) → (ltb 100000 n ≡ false) ↔ (n ≤ 100000)
max_entries_iff n = ground arith

validate_thresholds_iff :
    {F : Type 0} (fp : Double F) (t : Thresholds F)
    → (validate_thresholds fp t ≡ none) ↔ AreOrdered fp t
unfolding validate_thresholds
validate_thresholds_iff fp t = check_iff _ _ _ (leb_flip t.cpu_load_warn t.cpu_load_crit) (
    check_iff _ _ _ (leb_flip t.mem_used_warn t.mem_used_crit) (
      check_iff _ _ _ (leb_flip t.disk_used_warn t.disk_used_crit)
        (last_check_iff _ _ (λ h. h, λ h. h))))

-- A configuration is accepted exactly if its intervals and the D-Bus timeout are at least 1, the
-- trigger interval is not negative, the log level is one of the four, an excerpt has 1 to 1000
-- lines, the scan timeout is at least 100, the buffer has at most 100000 entries, and the warning
-- thresholds of load, memory and disk are below the critical ones and that of the temperature is not
-- at least the critical one. The other pairs of thresholds may be in any order.
pub validate_iff :
    {F : Type 0} (fp : Double F) (c : Config F) → (validate fp c ≡ none) ↔ IsValid fp c
unfolding validate
validate_iff fp c = check_iff _ _ _ (ltb_ℤ_pos c.collect_interval 0) (
    check_iff _ _ _ (ltb_ℤ_pos c.time_sync_interval 0) (
      check_iff _ _ _ (ltb_ℤ_pos c.update_check_interval 0) (
        check_iff _ _ _ (ltb_ℤ_zero c.trigger_min_interval) (
          check_iff _ _ _ (is_valid_log_level_lem c.log_level) (
            check_iff _ _ _ (ltb_ℤ_pos c.dbus_timeout 0) (
              check_iff _ _ _ (max_lines_iff c.log_excerpt_max_lines) (
                check_iff _ _ _ (ltb_ℤ_pos c.journal_scan_timeout 99) (
                  check_iff _ _ _ (max_entries_iff c.journal_buffer_max_entries)
                    (validate_thresholds_iff fp c.thresholds)))))))))
