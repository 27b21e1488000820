-- ===== src/Types/Sections/Resources.antt =====
-- inc/types.hpp: the resources: load, memory, storage, sensors and network interfaces.
use edge_healthd.Prelude.{ℕ, Bool, Option, List, [], Str}
use edge_healthd.Types.Enums.{LinkState, Duplex}
use edge_healthd.Types.Sections.Host.{SectionFreshness, section_freshness_default}

pub record CpuLoad (F : Type 0) : Type 0 where
  pub load1 : F
  pub load5 : F
  pub load15 : F

pub record MemoryUsage : Type 0 where
  pub mem_total_mb : ℕ
  pub mem_used_mb : ℕ
  pub swap_used_mb : ℕ

pub record StorageMount : Type 0 where
  pub mount : Str
  pub fs : Str
  pub available : Bool
  pub used_pct : Option ℕ
  pub avail_mb : Option ℕ

pub record ThermalSensor (F : Type 0) : Type 0 where
  pub sensor : Str
  pub available : Bool
  pub temp_c : Option F

pub record NetworkInterface : Type 0 where
  pub ifname : Str
  pub link : LinkState
  pub carrier : Bool
  pub ip : Option Str
  pub rx_bytes : ℕ
  pub tx_bytes : ℕ
  pub rx_packets : ℕ
  pub tx_packets : ℕ
  pub rx_dropped : ℕ
  pub tx_dropped : ℕ
  pub rx_err : ℕ
  pub tx_err : ℕ
  pub mtu : ℕ
  pub mac : Str
  pub operstate : Str
  pub carrier_changes : ℕ
  pub carrier_up_count : ℕ
  pub carrier_down_count : ℕ
  pub speed_mbps : Option ℕ
  pub duplex : Option Duplex

pub record ResourcesStatus (F : Type 0) : Type 0 where
  pub freshness : SectionFreshness
  pub sample_window_sec : ℕ
  pub cpu : CpuLoad F
  pub memory : MemoryUsage
  pub storage : List StorageMount
  pub thermal : List (ThermalSensor F)
  pub network : List NetworkInterface

-- The load averages start at 0.0, which the caller gives.
abbrev pub resources_status_default : {F : Type 0} → F → ResourcesStatus F
resources_status_default zero_load = record {
  freshness = section_freshness_default;
  sample_window_sec = 60;
  cpu = record { load1 = zero_load; load5 = zero_load; load15 = zero_load };
  memory = record { mem_total_mb = 0; mem_used_mb = 0; swap_used_mb = 0 };
  storage = [];
  thermal = [];
  network = [];
}
