-- ===== src/Network/Interfaces.antt =====
-- src/probes.cpp: ResourcesProbe::collect_network(), over the cache of the monitor and the answers of
-- the ethtool query.
use edge_healthd.Prelude.{
  ℕ, Bool, false, not, ◌&&◌, ◌==◌, Option, none, some, List, [], ◌∷◌, map, Str, str, str_eq, any,
  is_empty, if◌then◌else◌,
}
use edge_healthd.Types.Enums.{LinkState, Duplex}
use edge_healthd.Types.Sections.{NetworkInterface}
use edge_healthd.Probe.Services.{is_unit_char}
use edge_healthd.Network.Monitor.{NetlinkInterfaceStats}

-- inc/ethtool_link.hpp.
pub record EthtoolLink : Type 0 where
  pub speed_mbps : Option ℕ
  pub duplex : Option Duplex

-- The same characters as in a unit's name.
unfoldable pub is_safe_ifname : Str → Bool
is_safe_ifname name = not (is_empty name) && not (any (λ c. not (is_unit_char c)) name)

unfoldable pub operstate_to_string : ℕ → Str
operstate_to_string state =
    if state == 1
    then str "notpresent"
    else if state == 2
    then str "down"
    else if state == 3
    then str "lowerlayerdown"
    else if state == 4
    then str "testing"
    else if state == 5
    then str "dormant"
    else if state == 6
    then str "up"
    else str "unknown"

-- `nl_map[stats.name]`, where the last entry of a name stands.
unfoldable pub find_stats : Str → List NetlinkInterfaceStats → Option NetlinkInterfaceStats
find_stats name [] = none
find_stats name (s ∷ rest) = elim (find_stats name rest) [
  | some t ↦ some t
  | none ↦ if str_eq s.name name then some s else none
]

-- The names to report: those monitored, or every interface but "lo".
abbrev all_but_lo : List NetlinkInterfaceStats → List Str
all_but_lo [] = []
all_but_lo (s ∷ rest) =
    let names = all_but_lo rest in if str_eq s.name (str "lo") then names else s.name ∷ names

abbrev pub iface_list : List Str → List NetlinkInterfaceStats → List Str
iface_list [] stats = all_but_lo stats
iface_list (name ∷ names) stats = name ∷ names

abbrev pub unknown_interface : Str → NetworkInterface
unknown_interface name = record {
  ifname = name;
  link = LinkState.unknown;
  carrier = false;
  ip = none;
  rx_bytes = 0;
  tx_bytes = 0;
  rx_packets = 0;
  tx_packets = 0;
  rx_dropped = 0;
  tx_dropped = 0;
  rx_err = 0;
  tx_err = 0;
  mtu = 0;
  mac = [];
  operstate = [];
  carrier_changes = 0;
  carrier_up_count = 0;
  carrier_down_count = 0;
  speed_mbps = none;
  duplex = none;
}

abbrev pub with_stats : Option NetlinkInterfaceStats → NetworkInterface → NetworkInterface
with_stats none iface = iface
with_stats (some nl) iface = record iface {
  link = if nl.running then LinkState.up else LinkState.down;
  carrier = nl.carrier_up;
  rx_bytes = nl.counters.rx_bytes;
  tx_bytes = nl.counters.tx_bytes;
  rx_packets = nl.counters.rx_packets;
  tx_packets = nl.counters.tx_packets;
  rx_dropped = nl.counters.rx_dropped;
  tx_dropped = nl.counters.tx_dropped;
  rx_err = nl.counters.rx_errors;
  tx_err = nl.counters.tx_errors;
  mtu = nl.mtu;
  mac = nl.mac;
  operstate = operstate_to_string nl.operstate;
  carrier_changes = nl.carrier_changes;
  carrier_up_count = nl.carrier_up_count;
  carrier_down_count = nl.carrier_down_count;
  ip = nl.ipv4_addr;
}

abbrev pub with_ethtool : Option EthtoolLink → NetworkInterface → NetworkInterface
with_ethtool none iface = iface
with_ethtool (some e) iface = record iface { speed_mbps = e.speed_mbps; duplex = e.duplex }

unfoldable pub interface_of :
    List NetlinkInterfaceStats → (Str → Option EthtoolLink) → Str → NetworkInterface
unfolding find_stats operstate_to_string
interface_of stats ethtool name =
    if not (is_safe_ifname name)
    then unknown_interface name
    else with_ethtool (ethtool name) (with_stats (find_stats name stats) (unknown_interface name))

-- `ethtool` is what the query answers for the listed names.
unfoldable pub collect_network :
    List Str → List NetlinkInterfaceStats → (Str → Option EthtoolLink) → List NetworkInterface
unfolding interface_of
collect_network monitored stats ethtool =
    map (interface_of stats ethtool) (iface_list monitored stats)
