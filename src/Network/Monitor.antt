-- ===== src/Network/Monitor.antt =====
-- inc/netlink_monitor.hpp and src/netlink_monitor.cpp: the cache of the interfaces under link and
-- address messages. Parsing the bytes is libmnl's: a message is its header, its index and its
-- attributes. inet_ntop is a parameter. The cache, a std::map, is a list in the order of its keys.
pub mod Cached
use edge_healthd.Prelude.{
  ℕ, ◌+◌, ◌/◌, ◌%◌, Bool, true, false, not, Option, none, some, List, [], ◌∷◌, ◌++◌, map, Str, str,
  is_empty, length, ltb, ◌==◌, if◌then◌else◌,
}

pub record LinkStats64 : Type 0 where
  pub rx_bytes : ℕ
  pub tx_bytes : ℕ
  pub rx_packets : ℕ
  pub tx_packets : ℕ
  pub rx_errors : ℕ
  pub tx_errors : ℕ
  pub rx_dropped : ℕ
  pub tx_dropped : ℕ

pub record NetlinkInterfaceStats : Type 0 where
  pub name : Str
  pub ifindex : Option ℕ
  pub counters : LinkStats64
  pub link_up : Bool
  pub running : Bool
  pub carrier_up : Bool
  pub mtu : ℕ
  pub mac : Str
  pub operstate : ℕ
  pub carrier_changes : ℕ
  pub carrier_up_count : ℕ
  pub carrier_down_count : ℕ
  pub ipv4_addr : Option Str

-- The member initializers; an index of -1 is none.
abbrev pub stats_default : NetlinkInterfaceStats
stats_default = record {
  name = [];
  ifindex = none;
  counters = record {
    rx_bytes = 0;
    tx_bytes = 0;
    rx_packets = 0;
    tx_packets = 0;
    rx_errors = 0;
    tx_errors = 0;
    rx_dropped = 0;
    tx_dropped = 0;
  };
  link_up = false;
  running = false;
  carrier_up = false;
  mtu = 0;
  mac = [];
  operstate = 0;
  carrier_changes = 0;
  carrier_up_count = 0;
  carrier_down_count = 0;
  ipv4_addr = none;
}

-- The attributes that are read; the statistics where they have the size of their struct.
pub data LinkAttr : Type 0 where
  stats64 : Option LinkStats64 → LinkAttr
  ifname : Str → LinkAttr
  carrier : ℕ → LinkAttr
  link_mtu : ℕ → LinkAttr
  address : List ℕ → LinkAttr
  oper_state : ℕ → LinkAttr
  changes : ℕ → LinkAttr
  up_count : ℕ → LinkAttr
  down_count : ℕ → LinkAttr
  other_link_attr : LinkAttr

pub data AddrAttr : Type 0 where
  ifa_address : List ℕ → AddrAttr
  ifa_local : List ℕ → AddrAttr
  other_addr_attr : AddrAttr

pub data Message : Type 0 where
  -- RTM_NEWLINK and RTM_DELLINK: the index, the flags
  new_link : ℕ → ℕ → List LinkAttr → Message
  del_link : ℕ → ℕ → List LinkAttr → Message
  -- RTM_NEWADDR and RTM_DELADDR: whether the family is AF_INET, the index
  new_addr : Bool → ℕ → List AddrAttr → Message
  del_addr : Bool → ℕ → List AddrAttr → Message
  -- NLMSG_DONE and NLMSG_ERROR
  done error : Message
  other_message : Message

abbrev hex_digit : ℕ → ℕ
hex_digit n = if ltb n 10 then 48 + n else 87 + n

-- "%02x".
abbrev pub hex_byte : ℕ → Str
hex_byte b = hex_digit (b / 16) ∷ hex_digit (b % 16) ∷ []

abbrev pub colon_join : List Str → Str
colon_join [] = []
colon_join (x ∷ []) = x
colon_join (x ∷ y ∷ ys) = x ++ (58 ∷ colon_join (y ∷ ys))

unfoldable pub format_mac : List ℕ → Str
format_mac bytes = if length bytes == 6 then colon_join (map hex_byte bytes) else []

abbrev pub with_mac : Str → NetlinkInterfaceStats → NetlinkInterfaceStats
with_mac mac stats = if is_empty mac then stats else record stats { mac = mac }

-- IFF_UP and IFF_RUNNING.
abbrev pub has_flag : ℕ → ℕ → Bool
has_flag flag flags = flags / flag % 2 == 1

unfoldable pub parse_rtnl_stats : LinkAttr → NetlinkInterfaceStats → NetlinkInterfaceStats
unfolding format_mac
parse_rtnl_stats (stats64 none) stats = stats
parse_rtnl_stats (stats64 (some s)) stats = record stats { counters = s }
parse_rtnl_stats (ifname n) stats = record stats { name = n }
parse_rtnl_stats (carrier c) stats = record stats { carrier_up = not (c == 0) }
parse_rtnl_stats (link_mtu n) stats = record stats { mtu = n }
parse_rtnl_stats (address bytes) stats = with_mac (format_mac bytes) stats
parse_rtnl_stats (oper_state n) stats = record stats { operstate = n }
parse_rtnl_stats (changes n) stats = record stats { carrier_changes = n }
parse_rtnl_stats (up_count n) stats = record stats { carrier_up_count = n }
parse_rtnl_stats (down_count n) stats = record stats { carrier_down_count = n }
parse_rtnl_stats other_link_attr stats = stats

abbrev pub parse_attrs : List LinkAttr → NetlinkInterfaceStats → NetlinkInterfaceStats
parse_attrs [] stats = stats
parse_attrs (a ∷ more) stats = parse_attrs more (parse_rtnl_stats a stats)

-- What data_cb() makes of an entry.
abbrev pub linked : ℕ → ℕ → List LinkAttr → NetlinkInterfaceStats → NetlinkInterfaceStats
linked index flags attrs stats =
    parse_attrs attrs (record stats {
      ifindex = some index;
      link_up = has_flag 1 flags;
      running = has_flag 64 flags;
    })

abbrev pub Cache : Type 0
Cache = List (ℕ × NetlinkInterfaceStats)

-- `(*cache)[index]`, changed.
unfoldable pub update_entry : ℕ → (NetlinkInterfaceStats → NetlinkInterfaceStats) → Cache → Cache
update_entry k f [] = (k, f stats_default) ∷ []
update_entry k f ((j, s) ∷ rest) =
    let later = update_entry k f rest in
    if k == j
    then (j, f s) ∷ rest
    else if ltb k j
    then (k, f stats_default) ∷ (j, s) ∷ rest
    else (j, s) ∷ later

-- `cache->find(index)`, and the entry changed where it is there.
unfoldable pub change_entry : ℕ → (NetlinkInterfaceStats → NetlinkInterfaceStats) → Cache → Cache
change_entry k f [] = []
change_entry k f ((j, s) ∷ rest) =
    let later = change_entry k f rest in if k == j then (j, f s) ∷ rest else (j, s) ∷ later

unfoldable pub data_cb : ℕ → ℕ → List LinkAttr → Cache → Cache
unfolding update_entry
data_cb index flags attrs cache = update_entry index (linked index flags attrs) cache

module _ (inet_ntop : List ℕ → Option Str) where
  abbrev text_of : Option Str → Str
  text_of none = []
  text_of (some t) = t

  unfoldable pub format_addr : List ℕ → Str
  format_addr bytes = if length bytes == 4 then text_of (inet_ntop bytes) else []

  -- `addr_str` and `local_str` after the attributes.
  abbrev pub addr_texts : List AddrAttr → Str × Str → Str × Str
  addr_texts [] texts = texts
  addr_texts (ifa_address bytes ∷ more) (addr, local) = addr_texts more (format_addr bytes, local)
  addr_texts (ifa_local bytes ∷ more) (addr, local) = addr_texts more (addr, format_addr bytes)
  addr_texts (other_addr_attr ∷ more) texts = addr_texts more texts

  -- The local address rather than the other; nothing where both are empty.
  abbrev pub with_addr : Str × Str → NetlinkInterfaceStats → NetlinkInterfaceStats
  with_addr (addr, local) stats =
      let chosen = if is_empty local then addr else local in
      if is_empty chosen then stats else record stats { ipv4_addr = some chosen }

  abbrev pub addressed : List AddrAttr → NetlinkInterfaceStats → NetlinkInterfaceStats
  addressed attrs stats = with_addr (addr_texts attrs ([], [])) stats

  abbrev pub unaddressed : NetlinkInterfaceStats → NetlinkInterfaceStats
  unaddressed stats = record stats { ipv4_addr = none }

  unfoldable pub addr_data_cb : Bool → Bool → ℕ → List AddrAttr → Cache → Cache
  unfolding change_entry format_addr
  addr_data_cb deleted is_inet index attrs cache =
      if is_inet
      then change_entry index (if deleted then unaddressed else addressed attrs) cache
      else cache

  -- One message, by its type.
  unfoldable pub dispatch : Message → Cache → Cache
  unfolding data_cb addr_data_cb
  dispatch (new_link index flags attrs) cache = data_cb index flags attrs cache
  dispatch (del_link index flags attrs) cache = data_cb index flags attrs cache
  dispatch (new_addr is_inet index attrs) cache = addr_data_cb false is_inet index attrs cache
  dispatch (del_addr is_inet index attrs) cache = addr_data_cb true is_inet index attrs cache
  dispatch done cache = cache
  dispatch error cache = cache
  dispatch other_message cache = cache

  -- The messages of one buffer: process_incoming().
  unfoldable pub process_incoming : List Message → Cache → Cache
  unfolding dispatch
  process_incoming [] cache = cache
  process_incoming (m ∷ ms) cache = process_incoming ms (dispatch m cache)

  -- drain_events(), with the buffers that can be received.
  unfoldable pub drain_events : List (List Message) → Cache → Cache
  unfolding process_incoming
  drain_events [] cache = cache
  drain_events (buffer ∷ buffers) cache = drain_events buffers (process_incoming buffer cache)

  abbrev pub ends_response : Message → Bool
  ends_response done = true
  ends_response error = true
  ends_response other = false

  -- One buffer of a response, and whether it ends.
  abbrev respond : List Message → Cache → Cache × Bool
  respond [] cache = (cache, false)
  respond (m ∷ ms) cache =
      let rest = respond ms (dispatch m cache) in if ends_response m then (cache, true) else rest

  -- drain_response(), with the buffers that arrive in time.
  unfoldable pub drain_response : List (List Message) → Cache → Cache
  unfolding dispatch
  drain_response [] cache = cache
  drain_response (buffer ∷ buffers) cache =
      let (cache', ended) = respond buffer cache in
      let rest = drain_response buffers cache' in if ended then cache' else rest

  -- The two dumps of init(), the links first.
  abbrev pub init_cache : List (List Message) → List (List Message) → Cache
  init_cache links addrs = drain_response addrs (drain_response links [])

abbrev pub get_all_stats : Cache → List NetlinkInterfaceStats
get_all_stats cache = map (λ e. e.1) cache
