-- ===== src/Json/Schema/Snapshot.antt =====
-- schemas/edge.health.state.v1.1.json, which src/json.cpp is to follow.
use edge_healthd.Prelude.{true, false, none, some, [], ◌∷◌, str}
use edge_healthd.Json.Schema.{
  Schema, Properties, enumeration, text, pattern_text, flag, whole, number, nullable, sequence,
  structure, property, end_of_properties,
}

abbrev pub severity_schema : Schema
severity_schema =
    enumeration
      (str "ok" ∷ str "warn" ∷ str "crit" ∷ str "unknown" ∷ str "unavailable" ∷ str "stale" ∷ [])

abbrev pub service_state_schema : Schema
service_state_schema = enumeration (
    str "active"
    ∷ str "inactive"
    ∷ str "failed"
    ∷ str "activating"
    ∷ str "deactivating"
    ∷ str "unknown"
    ∷ [])

abbrev pub link_state_schema : Schema
link_state_schema = enumeration (str "up" ∷ str "down" ∷ str "unknown" ∷ [])

abbrev pub time_sync_source_schema : Schema
time_sync_source_schema = enumeration (str "none" ∷ str "ntp" ∷ str "ptp" ∷ [])

abbrev pub time_sync_state_schema : Schema
time_sync_state_schema =
    enumeration (str "locked" ∷ str "free_running" ∷ str "holdover" ∷ str "unknown" ∷ [])

abbrev pub update_result_schema : Schema
update_result_schema = enumeration (str "success" ∷ str "failed" ∷ str "unknown" ∷ [])

abbrev pub os_properties : Properties
os_properties = property (str "distro") (text 0 none) (
    property (str "version") (text 0 none) (
      property (str "build_id") (text 0 none)
        (property (str "kernel") (text 0 none) end_of_properties)))

abbrev pub os_schema : Schema
os_schema = structure (str "distro" ∷ str "kernel" ∷ []) os_properties true

abbrev pub device_properties : Properties
device_properties = property (str "device_id") (text 1 none) (
    property (str "hostname") (text 0 none) (
      property (str "platform") (text 0 none)
        (property (str "arch") (text 0 none) (property (str "os") os_schema end_of_properties))))

abbrev pub device_schema : Schema
device_schema =
    structure (str "device_id" ∷ str "hostname" ∷ str "platform" ∷ str "arch" ∷ str "os" ∷ [])
      device_properties true

abbrev pub boot_properties : Properties
boot_properties = property (str "boot_id") (text 0 none) (
    property (str "last_boot_at") (text 0 none) (
      property (str "uptime") (whole (some 0) none) (
        property (str "boot_ok") flag (
          property (str "boot_fail_count") (whole (some 0) none) (
            property (str "last_reboot_reason") (nullable (text 0 none)) (
              property (str "collected_at") (text 0 none)
                (property (str "stale") flag end_of_properties)))))))

abbrev pub boot_schema : Schema
boot_schema =
    structure
      (str "boot_id"
        ∷ str "last_boot_at"
        ∷ str "uptime"
        ∷ str "boot_ok"
        ∷ str "boot_fail_count"
        ∷ [])
      boot_properties true

abbrev pub unit_properties : Properties
unit_properties = property (str "name") (text 0 none) (
    property (str "state") service_state_schema (
      property (str "severity") severity_schema (
        property (str "since") (nullable (text 0 none)) (
          property (str "restart_count") (whole (some 0) none) (
            property (str "result") (nullable (text 0 none)) (
              property (str "detail") (nullable (text 0 none)) (
                property (str "log_excerpt") (sequence (text 0 (some 512)) (some 20))
                  end_of_properties)))))))

abbrev pub unit_schema : Schema
unit_schema =
    structure (str "name" ∷ str "state" ∷ str "severity" ∷ str "restart_count" ∷ []) unit_properties
      true

abbrev pub services_properties : Properties
services_properties = property (str "overall") severity_schema (
    property (str "units") (sequence unit_schema none)
      (property (str "collected_at") (text 0 none) (property (str "stale") flag end_of_properties)))

abbrev pub services_schema : Schema
services_schema = structure (str "overall" ∷ str "units" ∷ []) services_properties true

abbrev pub cpu_properties : Properties
cpu_properties =
    property (str "load1") (number true) (
      property (str "load5") (number true)
        (property (str "load15") (number true) end_of_properties))

abbrev pub cpu_schema : Schema
cpu_schema = structure (str "load1" ∷ str "load5" ∷ str "load15" ∷ []) cpu_properties true

abbrev pub memory_properties : Properties
memory_properties = property (str "mem_total_mb") (whole (some 0) none) (
    property (str "mem_used_mb") (whole (some 0) none)
      (property (str "swap_used_mb") (whole (some 0) none) end_of_properties))

abbrev pub memory_schema : Schema
memory_schema =
    structure (str "mem_total_mb" ∷ str "mem_used_mb" ∷ str "swap_used_mb" ∷ []) memory_properties
      true

abbrev pub mount_properties : Properties
mount_properties = property (str "mount") (text 0 none) (
    property (str "fs") (text 0 none) (
      property (str "used_pct") (whole (some 0) (some 100)) (
        property (str "avail_mb") (whole (some 0) none)
          (property (str "available") flag end_of_properties))))

abbrev pub mount_schema : Schema
mount_schema = structure (str "mount" ∷ str "available" ∷ []) mount_properties true

abbrev pub sensor_properties : Properties
sensor_properties =
    property (str "sensor") (text 0 none)
      (property (str "temp_c") (number false) (property (str "available") flag end_of_properties))

abbrev pub sensor_schema : Schema
sensor_schema = structure (str "sensor" ∷ str "available" ∷ []) sensor_properties true

abbrev pub duplex_schema : Schema
duplex_schema = enumeration (str "full" ∷ str "half" ∷ str "unknown" ∷ [])

abbrev pub interface_properties : Properties
interface_properties = property (str "ifname") (text 0 none) (
    property (str "link") link_state_schema (
      property (str "rx_bytes") (whole (some 0) none) (
        property (str "tx_bytes") (whole (some 0) none) (
          property (str "rx_packets") (whole (some 0) none) (
            property (str "tx_packets") (whole (some 0) none) (
              property (str "rx_dropped") (whole (some 0) none) (
                property (str "tx_dropped") (whole (some 0) none) (
                  property (str "rx_err") (whole (some 0) none) (
                    property (str "tx_err") (whole (some 0) none) (
                      property (str "ip") (nullable (text 0 none)) (
                        property (str "carrier") (nullable flag) (
                          property (str "speed_mbps") (nullable (whole (some 0) none)) (
                            property (str "duplex") (nullable duplex_schema)
                              end_of_properties)))))))))))))

abbrev pub interface_schema : Schema
interface_schema =
    structure
      (str "ifname"
        ∷ str "link"
        ∷ str "rx_bytes"
        ∷ str "tx_bytes"
        ∷ str "rx_packets"
        ∷ str "tx_packets"
        ∷ str "rx_dropped"
        ∷ str "tx_dropped"
        ∷ str "rx_err"
        ∷ str "tx_err"
        ∷ [])
      interface_properties true

abbrev pub resources_properties : Properties
resources_properties = property (str "sample_window_sec") (whole (some 1) none) (
    property (str "cpu") cpu_schema (
      property (str "memory") memory_schema (
        property (str "storage") (sequence mount_schema none) (
          property (str "thermal") (sequence sensor_schema none) (
            property (str "network") (sequence interface_schema none) (
              property (str "collected_at") (text 0 none)
                (property (str "stale") flag end_of_properties)))))))

abbrev pub resources_schema : Schema
resources_schema =
    structure (str "sample_window_sec" ∷ str "cpu" ∷ str "memory" ∷ str "network" ∷ [])
      resources_properties true

abbrev pub ntp_properties : Properties
ntp_properties = property (str "enabled") flag (
    property (str "state") time_sync_state_schema
      (property (str "last_sync_at") (nullable (text 0 none)) end_of_properties))

abbrev pub ntp_schema : Schema
ntp_schema = structure (str "enabled" ∷ []) ntp_properties true

abbrev pub ptp_properties : Properties
ptp_properties = property (str "enabled") flag (
    property (str "interface") (nullable (text 0 none)) (
      property (str "offset_ns") (nullable (whole none none)) (
        property (str "rms_ns") (nullable (whole (some 0) none)) (
          property (str "state") time_sync_state_schema (
            property (str "last_sync_at") (nullable (text 0 none))
              (property (str "role") (nullable (text 0 none)) end_of_properties))))))

abbrev pub ptp_schema : Schema
ptp_schema = structure (str "enabled" ∷ []) ptp_properties true

abbrev pub time_sync_properties : Properties
time_sync_properties = property (str "overall") severity_schema (
    property (str "source") time_sync_source_schema (
      property (str "ntp") ntp_schema (
        property (str "ptp") ptp_schema (
          property (str "collected_at") (text 0 none)
            (property (str "stale") flag end_of_properties)))))

abbrev pub time_sync_schema : Schema
time_sync_schema = structure (str "overall" ∷ str "source" ∷ []) time_sync_properties true

abbrev pub last_update_properties : Properties
last_update_properties = property (str "id") (text 0 none) (
    property (str "installed_at") (nullable (text 0 none)) (
      property (str "result") update_result_schema
        (property (str "detail") (nullable (text 0 none)) end_of_properties)))

abbrev pub last_update_schema : Schema
last_update_schema = structure (str "id" ∷ str "result" ∷ []) last_update_properties true

abbrev pub update_properties : Properties
update_properties = property (str "overall") severity_schema (
    property (str "active_slot") (nullable (text 0 none)) (
      property (str "last_update") (nullable last_update_schema) (
        property (str "collected_at") (text 0 none)
          (property (str "stale") flag end_of_properties))))

abbrev pub update_schema : Schema
update_schema = structure (str "overall" ∷ []) update_properties true

abbrev pub journal_properties : Properties
journal_properties = property (str "overall") severity_schema (
    property (str "error_count") (whole (some 0) none) (
      property (str "recent_errors") (sequence (text 0 (some 512)) none) (
        property (str "collected_at") (text 0 none)
          (property (str "stale") flag end_of_properties))))

abbrev pub journal_schema : Schema
journal_schema =
    structure (str "overall" ∷ str "error_count" ∷ str "recent_errors" ∷ []) journal_properties true

abbrev pub source_schema : Schema
source_schema = enumeration (str "pstore" ∷ [])

abbrev pub artifact_properties : Properties
artifact_properties = property (str "name") (text 0 none) (
    property (str "size_bytes") (whole (some 0) none)
      (property (str "mtime") (nullable (text 0 none)) end_of_properties))

abbrev pub artifact_schema : Schema
artifact_schema = structure (str "name" ∷ str "size_bytes" ∷ []) artifact_properties true

abbrev pub crash_properties : Properties
crash_properties = property (str "present") flag (
    property (str "source") (nullable source_schema) (
      property (str "last_panic_at") (nullable (text 0 none)) (
        property (str "fingerprint") (nullable (text 0 none)) (
          property (str "artifact_count") (whole (some 0) none) (
            property (str "artifacts") (sequence artifact_schema none) (
              property (str "acknowledged") flag (
                property (str "collected_at") (text 0 none)
                  (property (str "stale") flag end_of_properties))))))))

abbrev pub crash_schema : Schema
crash_schema =
    structure (str "present" ∷ str "artifact_count" ∷ str "artifacts" ∷ str "acknowledged" ∷ [])
      crash_properties true

abbrev pub domains_properties : Properties
domains_properties = property (str "boot") severity_schema (
    property (str "services") severity_schema (
      property (str "resources") severity_schema (
        property (str "time_sync") severity_schema (
          property (str "update") severity_schema (
            property (str "journal") severity_schema
              (property (str "crash") severity_schema end_of_properties))))))

abbrev pub domains_schema : Schema
domains_schema = structure [] domains_properties false

abbrev pub summary_properties : Properties
summary_properties = property (str "severity") severity_schema (
    property (str "domains") domains_schema (
      property (str "reasons") (sequence pattern_text none)
        (property (str "notes") (nullable (text 0 none)) end_of_properties)))

abbrev pub summary_schema : Schema
summary_schema = structure (str "severity" ∷ str "reasons" ∷ []) summary_properties true

abbrev pub snapshot_properties : Properties
snapshot_properties = property (str "schema") (enumeration (str "edge.health.state" ∷ [])) (
    property (str "schema_version") (enumeration (str "1.1" ∷ [])) (
      property (str "generated_at") (text 0 none) (
        property (str "device") device_schema (
          property (str "boot") boot_schema (
            property (str "services") services_schema (
              property (str "resources") resources_schema (
                property (str "time_sync") time_sync_schema (
                  property (str "update") update_schema (
                    property (str "journal") journal_schema (
                      property (str "crash") crash_schema
                        (property (str "summary") summary_schema end_of_properties)))))))))))

abbrev pub snapshot_schema : Schema
snapshot_schema =
    structure
      (str "schema"
        ∷ str "schema_version"
        ∷ str "generated_at"
        ∷ str "device"
        ∷ str "boot"
        ∷ str "services"
        ∷ str "resources"
        ∷ str "time_sync"
        ∷ str "update"
        ∷ str "journal"
        ∷ str "summary"
        ∷ [])
      snapshot_properties true
