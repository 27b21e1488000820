-- ===== src/Probe.antt =====
-- inc/probes.hpp: ProbeError and ProbeResult, what every probe's collect() returns.
pub mod Result
pub mod Boot
pub mod Crash
pub mod Resources
pub mod Device
pub mod Services
pub mod Thermal
pub mod TimeSync
pub mod Update
