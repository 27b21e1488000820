-- ===== src/Aggregator/Reasons.antt =====
-- src/aggregator.cpp: generate_reasons(), the machine-readable reason codes of the summary.
pub mod Codes
use edge_healthd.Prelude.{
  ℕ, Bool, true, false, not, ◌&&◌, Option, none, some, List, [], ◌∷◌, ◌++◌, Str, str, is_empty, ltb,
  leb, if◌then◌else◌,
}
use edge_healthd.Prelude.Double.{Double}
use edge_healthd.Types.Enums.{Severity, ServiceState, TimeSyncSource, UpdateResult}
use edge_healthd.Types.Sections.{
  BootStatus, ServiceUnit, ServicesStatus, MemoryUsage, StorageMount, ThermalSensor,
  ResourcesStatus, RtcStatus, TimeSyncStatus, LastUpdate, UpdateStatus, JournalStatus, CrashStatus,
}
use edge_healthd.Config.{Thresholds}
use edge_healthd.Aggregator.Evaluate.{mem_pct}

-- `if (b) reasons.push_back(code)`.
abbrev push_if : Bool → Str → List Str
push_if b code = if b then code ∷ [] else []

abbrev pub is_failed : ServiceState → Bool
is_failed ServiceState.failed = true
is_failed _ = false

abbrev pub is_no_source : TimeSyncSource → Bool
is_no_source TimeSyncSource.no_source = true
is_no_source _ = false

abbrev pub is_warn_or_crit : Severity → Bool
is_warn_or_crit Severity.warn = true
is_warn_or_crit Severity.crit = true
is_warn_or_crit _ = false

abbrev pub is_failed_update : Option LastUpdate → Bool
is_failed_update none = false
is_failed_update (some u) = elim u.result [ UpdateResult.failed ↦ true | _ ↦ false ]

-- `opt >= threshold`: an empty optional is below every value.
abbrev pub at_least : Option ℕ → ℕ → Bool
at_least none t = false
at_least (some v) t = leb t v

boot_reasons : BootStatus → List Str
boot_reasons boot = push_if (ltb 0 boot.boot_fail_count) (str "boot_failures")

service_reasons : List ServiceUnit → List Str
service_reasons [] = []
service_reasons (u ∷ us) =
    push_if (is_failed u.state) (str "svc_failed:" ++ u.name) ++ service_reasons us

module _ {F : Type 0} where
  memory_reasons : Thresholds F → MemoryUsage → List Str
  unfolding mem_pct
  memory_reasons t m =
      push_if (ltb 0 m.mem_total_mb && leb t.mem_used_warn (mem_pct m)) (str "mem_used_high")

  disk_reasons : Thresholds F → List StorageMount → List Str
  disk_reasons t [] = []
  disk_reasons t (m ∷ ms) =
      push_if (at_least m.used_pct t.disk_used_warn) (str "disk_used_high:" ++ m.mount)
      ++ disk_reasons t ms

  rtc_reasons : Thresholds F → RtcStatus → List Str
  rtc_reasons t rtc = elim rtc.voltage_mv [
    | none ↦ []
    | some mv ↦ push_if (rtc.enabled && ltb mv t.rtc_voltage_warn_mv) (str "rtc_battery_low")
  ]

time_reasons : TimeSyncStatus → List Str
time_reasons ts = push_if (is_no_source ts.source) (str "time_unsynced")

update_reasons : UpdateStatus → List Str
update_reasons u = push_if (is_failed_update u.last_update) (str "update_failed")

journal_reasons : JournalStatus → List Str
journal_reasons j = push_if (is_warn_or_crit j.overall) (str "journal_errors")

crash_reasons : CrashStatus → List Str
crash_reasons c =
    (if ltb 0 c.panic_count && not c.acknowledged && c.panic_current_boot
      then str "kernel_panic_detected" ∷ []
      else push_if (ltb 0 c.panic_count) (str "historical_crash_artifacts"))
    ++ push_if c.present (str "pstore_records_present")

module _ {F : Type 0} (fp : Double F) where
  abbrev pub temp_at_least : Option F → F → Bool
  temp_at_least none t = false
  temp_at_least (some v) t = fp.geb v t

  thermal_reasons : Thresholds F → List (ThermalSensor F) → List Str
  thermal_reasons t [] = []
  thermal_reasons t (s ∷ ss) =
      push_if (temp_at_least s.temp_c t.temp_warn_c)
        (if not (is_empty s.sensor) then str "temp_high:" ++ s.sensor else str "temp_high")
      ++ thermal_reasons t ss

  unfoldable pub generate_reasons :
      Thresholds F
      → BootStatus
      → ServicesStatus
      → ResourcesStatus F
      → TimeSyncStatus
      → UpdateStatus
      → JournalStatus
      → CrashStatus
      → List Str
  unfolding boot_reasons service_reasons memory_reasons disk_reasons thermal_reasons time_reasons
      rtc_reasons update_reasons journal_reasons crash_reasons
  generate_reasons t boot services resources time_sync update journal crash =
      boot_reasons boot
      ++ (service_reasons services.units
          ++ (memory_reasons t resources.memory
              ++ (disk_reasons t resources.storage
                  ++ (thermal_reasons t resources.thermal
                      ++ (time_reasons time_sync
                          ++ (rtc_reasons t time_sync.rtc
                              ++ (update_reasons update
                                  ++ (journal_reasons journal ++ crash_reasons crash))))))))
