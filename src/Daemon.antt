-- ===== src/Daemon.antt =====
-- inc/daemon.hpp and src/daemon.cpp: SnapshotDaemon. `Schedule` is when a probe is asked and a
-- section is stale, `State` the daemon's state, `Cycle` one collection, `Callbacks` what D-Bus calls
-- and signals do between the cycles, `Run` histories of these, `Loop` the main loop, `Watchdog` its
-- watch.
pub mod Schedule
pub mod State
pub mod Cycle
pub mod Callbacks
pub mod Run
pub mod Loop
pub mod Watchdog
