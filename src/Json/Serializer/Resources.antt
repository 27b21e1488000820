-- ===== src/Json/Serializer/Resources.antt =====
-- src/json.cpp: finite_or_zero() and to_json of the resources.
use edge_healthd.Prelude.{ℕ, ◌||◌, not, List, [], ◌∷◌, ◌++◌, Str, str, is_empty, ltb, if◌then◌else◌}
use edge_healthd.Prelude.Int.{pos}
use edge_healthd.Prelude.Double.{Double}
use edge_healthd.Types.Enums.{link_state_to_string, duplex_to_string}
use edge_healthd.Types.Sections.{
  CpuLoad, MemoryUsage, StorageMount, ThermalSensor, NetworkInterface, ResourcesStatus,
}
use edge_healthd.Json.{Json, boolean, real, string, natural, object_of, array_of, optional, on}
use edge_healthd.Json.Serializer.Sections.{freshness_fields}

abbrev pub memory_fields : {F : Type 0} → MemoryUsage → List (Str × Json F)
memory_fields memory =
    ((str "mem_total_mb", natural memory.mem_total_mb)
      ∷ (str "mem_used_mb", natural memory.mem_used_mb)
      ∷ (str "swap_used_mb", natural memory.swap_used_mb)
      ∷ [])

abbrev pub memory_json : {F : Type 0} → MemoryUsage → Json F
memory_json memory = object_of (memory_fields memory)

abbrev pub mount_fields : {F : Type 0} → StorageMount → List (Str × Json F)
mount_fields mount =
    (((str "mount", string mount.mount)
        ∷ (str "fs", string mount.fs)
        ∷ (str "available", boolean mount.available)
        ∷ [])
      ++ (optional (str "used_pct") natural mount.used_pct
          ++ optional (str "avail_mb") natural mount.avail_mb))

abbrev pub mount_json : {F : Type 0} → StorageMount → Json F
mount_json mount = object_of (mount_fields mount)

-- `if (iface.key > 0) j[key] = iface.key`.
abbrev pub positive : {F : Type 0} → Str → ℕ → List (Str × Json F)
positive key n = on (ltb 0 n) key (natural n)

-- `if (!iface.key.empty()) j[key] = iface.key`.
abbrev pub non_empty : {F : Type 0} → Str → Str → List (Str × Json F)
non_empty key s = on (not (is_empty s)) key (string s)

-- What is emitted where it is known, in order.
abbrev pub metadata_fields : {F : Type 0} → NetworkInterface → List (Str × Json F)
metadata_fields iface =
    positive (str "mtu") iface.mtu
    ++ (non_empty (str "mac") iface.mac
        ++ (non_empty (str "operstate") iface.operstate
            ++ (positive (str "carrier_changes") iface.carrier_changes
                ++ (positive (str "carrier_up_count") iface.carrier_up_count
                    ++ (positive (str "carrier_down_count") iface.carrier_down_count
                        ++ (optional (str "speed_mbps") natural iface.speed_mbps
                            ++ optional (str "duplex") (λ d. string (duplex_to_string d))
                                iface.duplex))))))

abbrev pub interface_fields : {F : Type 0} → NetworkInterface → List (Str × Json F)
interface_fields iface =
    (((str "ifname", string iface.ifname)
        ∷ (str "link", string (link_state_to_string iface.link))
        ∷ (str "rx_bytes", natural iface.rx_bytes)
        ∷ (str "tx_bytes", natural iface.tx_bytes)
        ∷ (str "rx_packets", natural iface.rx_packets)
        ∷ (str "tx_packets", natural iface.tx_packets)
        ∷ (str "rx_dropped", natural iface.rx_dropped)
        ∷ (str "tx_dropped", natural iface.tx_dropped)
        ∷ (str "rx_err", natural iface.rx_err)
        ∷ (str "tx_err", natural iface.tx_err)
        ∷ [])
      ++ (optional (str "ip") string iface.ip
          ++ (((str "carrier", boolean iface.carrier) ∷ []) ++ metadata_fields iface)))

abbrev pub interface_json : {F : Type 0} → NetworkInterface → Json F
interface_json iface = object_of (interface_fields iface)

module _ {F : Type 0} (fp : Double F) where
  -- NaN and the infinities become 0.0.
  abbrev pub finite_or_zero : F → F
  finite_or_zero v = if fp.is_nan v || fp.is_inf v then fp.of_int (pos 0) else v

  abbrev pub cpu_fields : CpuLoad F → List (Str × Json F)
  cpu_fields cpu =
      ((str "load1", real (finite_or_zero cpu.load1))
        ∷ (str "load5", real (finite_or_zero cpu.load5))
        ∷ (str "load15", real (finite_or_zero cpu.load15))
        ∷ [])

  abbrev pub cpu_json : CpuLoad F → Json F
  cpu_json cpu = object_of (cpu_fields cpu)

  abbrev pub sensor_fields : ThermalSensor F → List (Str × Json F)
  sensor_fields sensor =
      (((str "sensor", string sensor.sensor) ∷ (str "available", boolean sensor.available) ∷ [])
        ++ optional (str "temp_c") (λ t. real (finite_or_zero t)) sensor.temp_c)

  abbrev pub sensor_json : ThermalSensor F → Json F
  sensor_json sensor = object_of (sensor_fields sensor)

  abbrev pub resources_fields : (ℕ → Str) → ResourcesStatus F → List (Str × Json F)
  resources_fields format_time resources =
      (((str "sample_window_sec", natural resources.sample_window_sec)
          ∷ (str "cpu", cpu_json resources.cpu)
          ∷ (str "memory", memory_json resources.memory)
          ∷ (str "storage", array_of mount_json resources.storage)
          ∷ (str "thermal", array_of sensor_json resources.thermal)
          ∷ (str "network", array_of interface_json resources.network)
          ∷ [])
        ++ freshness_fields format_time resources.freshness)

  abbrev pub resources_json : (ℕ → Str) → ResourcesStatus F → Json F
  resources_json format_time resources = object_of (resources_fields format_time resources)
