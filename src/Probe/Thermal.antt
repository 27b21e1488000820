-- ===== src/Probe/Thermal.antt =====
-- src/probes.cpp: the load and the sensors of ResourcesProbe, and its collect().
pub mod Plausible
use edge_healthd.Prelude.{
  ℕ, ◌+◌, Bool, true, false, ◌&&◌, Option, none, some, List, [], ◌∷◌, map, Str, str, starts_with,
  if◌then◌else◌,
}
use edge_healthd.Prelude.Int.{ℤ, pos, negsuc}
use edge_healthd.Prelude.Double.{Double}
use edge_healthd.Types.Sections.{
  CpuLoad, MemoryUsage, StorageMount, ThermalSensor, NetworkInterface, ResourcesStatus,
  resources_status_default,
}
use edge_healthd.Config.{Config}
use edge_healthd.Probe.Result.{ProbeResult, value, failure}

-- An entry of /sys/class/thermal: its name, the first line of `type`, the number in `temp`; none where
-- a file cannot be opened or a number read.
pub record ThermalEntry : Type 0 where
  pub name : Str
  pub type_line : Option Str
  pub millidegrees : Option ℤ

abbrev pub sensor_name : Str → Option Str → Str
sensor_name name none = name
sensor_name name (some line) = line

module _ {F : Type 0} (fp : Double F) where
  abbrev pub is_plausible : F → Bool
  is_plausible celsius =
      fp.geb celsius (fp.of_int (negsuc 39)) && fp.geb (fp.of_int (pos 150)) celsius

  unfoldable pub read_temp : Option ℤ → Bool × Option F
  read_temp none = (false, none)
  read_temp (some m) =
      let celsius = fp.div (fp.of_int m) (fp.of_int (pos 1000)) in
      if is_plausible celsius then (true, some celsius) else (false, none)

  unfoldable pub read_sensor : ThermalEntry → ThermalSensor F
  unfolding read_temp
  read_sensor entry =
      let (available, temp) = read_temp entry.millidegrees in
      record {
        sensor = sensor_name entry.name entry.type_line;
        available = available;
        temp_c = temp;
      }

  -- The directory's entries, none where it cannot be opened.
  abbrev read_sensors : List ThermalEntry → List (ThermalSensor F)
  read_sensors [] = []
  read_sensors (e ∷ es) =
      let rest = read_sensors es in
      if starts_with (str "thermal_zone") e.name then read_sensor e ∷ rest else rest

  unfoldable pub collect_thermal : Option (List ThermalEntry) → List (ThermalSensor F)
  unfolding read_sensor
  collect_thermal none = []
  collect_thermal (some entries) = read_sensors entries

  -- getloadavg(), where it answers three numbers.
  abbrev pub collect_cpu_load : Option (F × F × F) → CpuLoad F
  collect_cpu_load none =
      let zero_load = fp.of_int (pos 0) in
      record { load1 = zero_load; load5 = zero_load; load15 = zero_load }
  collect_cpu_load (some (a, b, c)) = record { load1 = a; load5 = b; load15 = c }

  -- The parts in the order of the code; a failure of the memory is that of the probe.
  unfoldable pub collect :
      Config F
      → Option (F × F × F)
      → ProbeResult MemoryUsage
      → List StorageMount
      → List (ThermalSensor F)
      → List NetworkInterface
      → ProbeResult (ResourcesStatus F)
  collect cfg load (failure e) storage thermal network = failure e
  collect cfg load (value memory) storage thermal network =
      value (record (resources_status_default (fp.of_int (pos 0))) {
        sample_window_sec = cfg.sample_window_sec;
        cpu = collect_cpu_load load;
        memory = memory;
        storage = storage;
        thermal = if cfg.enable_thermal then thermal else [];
        network = network;
      })
