-- ===== src/Json/Serializer/Sections.antt =====
-- src/json.cpp: to_json of the sections but the resources, and what they share. format_time() is a
-- parameter.
use edge_healthd.Prelude.{ℕ, List, [], ◌∷◌, ◌++◌, Str, str, is_empty, not, if◌then◌else◌}
use edge_healthd.Types.Enums.{
  Severity, severity_to_string, service_state_to_string, time_sync_source_to_string,
  time_sync_state_to_string, update_result_to_string,
}
use edge_healthd.Types.Sections.{
  SectionFreshness, OsInfo, DeviceInfo, BootStatus, ServiceUnit, ServicesStatus, NtpStatus,
  PtpStatus, RtcStatus, TimeSyncStatus, LastUpdate, UpdateStatus, JournalStatus, CrashArtifact,
  CrashStatus,
}
use edge_healthd.Json.{Json, boolean, integer, string, natural, object_of, array_of, optional, on}

module _ {F : Type 0} (format_time : ℕ → Str) where
  abbrev pub time : ℕ → Json F
  time t = string (format_time t)

  abbrev pub severity : Severity → Json F
  severity s = string (severity_to_string s)

  -- emit_freshness().
  abbrev pub freshness_fields : SectionFreshness → List (Str × Json F)
  freshness_fields f =
      optional (str "collected_at") time f.collected_at ++ (str "stale", boolean f.stale) ∷ []

  abbrev pub os_fields : OsInfo → List (Str × Json F)
  os_fields os =
      ((str "distro", string os.distro)
        ∷ (str "version", string os.version)
        ∷ (str "build_id", string os.build_id)
        ∷ (str "kernel", string os.kernel)
        ∷ [])

  abbrev pub os_json : OsInfo → Json F
  os_json os = object_of (os_fields os)

  abbrev pub device_fields : DeviceInfo → List (Str × Json F)
  device_fields device =
      ((str "device_id", string device.device_id)
        ∷ (str "hostname", string device.hostname)
        ∷ (str "platform", string device.platform)
        ∷ (str "arch", string device.arch)
        ∷ (str "os", os_json device.os)
        ∷ [])

  abbrev pub device_json : DeviceInfo → Json F
  device_json device = object_of (device_fields device)

  abbrev pub boot_fields : BootStatus → List (Str × Json F)
  boot_fields boot =
      (((str "boot_id", string boot.boot_id)
          ∷ (str "last_boot_at", time boot.last_boot_at)
          ∷ (str "uptime", natural boot.uptime)
          ∷ (str "boot_ok", boolean boot.boot_ok)
          ∷ (str "boot_fail_count", natural boot.boot_fail_count)
          ∷ [])
        ++ (optional (str "last_reboot_reason") string boot.last_reboot_reason
            ++ freshness_fields boot.freshness))

  abbrev pub boot_json : BootStatus → Json F
  boot_json boot = object_of (boot_fields boot)

  -- `if (!unit.log_excerpt.empty())`.
  abbrev pub log_excerpt_field : List Str → List (Str × Json F)
  log_excerpt_field [] = []
  log_excerpt_field (x ∷ xs) = (str "log_excerpt", array_of string (x ∷ xs)) ∷ []

  abbrev pub unit_fields : ServiceUnit → List (Str × Json F)
  unit_fields unit =
      (((str "name", string unit.name)
          ∷ (str "state", string (service_state_to_string unit.state))
          ∷ (str "severity", severity unit.severity)
          ∷ (str "restart_count", natural unit.restart_count)
          ∷ [])
        ++ (optional (str "since") time unit.since
            ++ (optional (str "result") string unit.result
                ++ (optional (str "detail") string unit.detail
                    ++ log_excerpt_field unit.log_excerpt))))

  abbrev pub unit_json : ServiceUnit → Json F
  unit_json unit = object_of (unit_fields unit)

  abbrev pub services_fields : ServicesStatus → List (Str × Json F)
  services_fields services =
      (((str "overall", severity services.overall)
          ∷ (str "units", array_of unit_json services.units)
          ∷ [])
        ++ freshness_fields services.freshness)

  abbrev pub services_json : ServicesStatus → Json F
  services_json services = object_of (services_fields services)

  abbrev pub ntp_fields : NtpStatus → List (Str × Json F)
  ntp_fields ntp =
      (((str "enabled", boolean ntp.enabled) ∷ [])
        ++ (optional (str "state") (λ s. string (time_sync_state_to_string s)) ntp.state
            ++ optional (str "last_sync_at") time ntp.last_sync_at))

  abbrev pub ntp_json : NtpStatus → Json F
  ntp_json ntp = object_of (ntp_fields ntp)

  abbrev pub ptp_fields : PtpStatus → List (Str × Json F)
  ptp_fields ptp =
      (((str "enabled", boolean ptp.enabled) ∷ [])
        ++ (optional (str "interface") string ptp.interface
            ++ (optional (str "offset_ns") integer ptp.offset_ns
                ++ (optional (str "rms_ns") natural ptp.rms_ns
                    ++ (optional (str "state") (λ s. string (time_sync_state_to_string s)) ptp.state
                        ++ (optional (str "last_sync_at") time ptp.last_sync_at
                            ++ optional (str "role") string ptp.role))))))

  abbrev pub ptp_json : PtpStatus → Json F
  ptp_json ptp = object_of (ptp_fields ptp)

  abbrev pub rtc_fields : RtcStatus → List (Str × Json F)
  rtc_fields rtc =
      (((str "enabled", boolean rtc.enabled) ∷ [])
        ++ (if rtc.enabled
            then ((str "hctosys", boolean rtc.hctosys) ∷ [])
              ++ (optional (str "voltage_mv") natural rtc.voltage_mv
                  ++ optional (str "drift_sec") integer rtc.drift_sec)
            else []))

  abbrev pub rtc_json : RtcStatus → Json F
  rtc_json rtc = object_of (rtc_fields rtc)

  abbrev pub time_sync_fields : TimeSyncStatus → List (Str × Json F)
  time_sync_fields time_sync =
      (((str "overall", severity time_sync.overall)
          ∷ (str "source", string (time_sync_source_to_string time_sync.source))
          ∷ (str "ntp", ntp_json time_sync.ntp)
          ∷ (str "ptp", ptp_json time_sync.ptp)
          ∷ (str "rtc", rtc_json time_sync.rtc)
          ∷ [])
        ++ freshness_fields time_sync.freshness)

  abbrev pub time_sync_json : TimeSyncStatus → Json F
  time_sync_json time_sync = object_of (time_sync_fields time_sync)

  abbrev pub last_update_fields : LastUpdate → List (Str × Json F)
  last_update_fields update =
      (((str "id", string update.id)
          ∷ (str "result", string (update_result_to_string update.result))
          ∷ [])
        ++ (optional (str "installed_at") time update.installed_at
            ++ optional (str "detail") string update.detail))

  abbrev pub last_update_json : LastUpdate → Json F
  last_update_json update = object_of (last_update_fields update)

  abbrev pub update_fields : UpdateStatus → List (Str × Json F)
  update_fields update =
      (((str "overall", severity update.overall) ∷ [])
        ++ (optional (str "active_slot") string update.active_slot
            ++ (optional (str "last_update") last_update_json update.last_update
                ++ freshness_fields update.freshness)))

  abbrev pub update_json : UpdateStatus → Json F
  update_json update = object_of (update_fields update)

  abbrev pub journal_fields : JournalStatus → List (Str × Json F)
  journal_fields journal =
      (((str "overall", severity journal.overall)
          ∷ (str "error_count", natural journal.error_count)
          ∷ (str "recent_errors", array_of string journal.recent_errors)
          ∷ [])
        ++ freshness_fields journal.freshness)

  abbrev pub journal_json : JournalStatus → Json F
  journal_json journal = object_of (journal_fields journal)

  abbrev pub artifact_fields : CrashArtifact → List (Str × Json F)
  artifact_fields artifact =
      (((str "name", string artifact.name) ∷ (str "size_bytes", natural artifact.size_bytes) ∷ [])
        ++ (on (not (is_empty artifact.kind)) (str "kind") (string artifact.kind)
            ++ optional (str "mtime") time artifact.mtime))

  abbrev pub artifact_json : CrashArtifact → Json F
  artifact_json artifact = object_of (artifact_fields artifact)

  abbrev pub crash_fields : CrashStatus → List (Str × Json F)
  crash_fields crash =
      (((str "present", boolean crash.present)
          ∷ (str "artifact_count", natural crash.artifact_count)
          ∷ (str "artifacts", array_of artifact_json crash.artifacts)
          ∷ (str "acknowledged", boolean crash.acknowledged)
          ∷ [])
        ++ (optional (str "source") string crash.source
            ++ (optional (str "last_panic_at") time crash.last_panic_at
                ++ (optional (str "fingerprint") string crash.fingerprint
                    ++ freshness_fields crash.freshness))))

  abbrev pub crash_json : CrashStatus → Json F
  crash_json crash = object_of (crash_fields crash)
