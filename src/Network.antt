-- ===== src/Network.antt =====
-- src/netlink_monitor.cpp, and the network part of ResourcesProbe (src/probes.cpp).
pub mod Monitor
pub mod Interfaces
pub mod Ethtool
