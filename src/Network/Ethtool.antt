-- ===== src/Network/Ethtool.antt =====
-- inc/ethtool_link.hpp and src/ethtool_link.cpp: EthtoolQuerier. The socket's calls are a parameter on
-- the state of the kernel. What is received for a request is finite, since the kernel ends it with an
-- acknowledgement. The sequence numbers and the port, by which libmnl matches replies, are left out.
pub mod Answered
pub mod Socket
use edge_healthd.Prelude.{
  ℕ, ◌-◌, ◌^◌, Bool, true, false, not, ◌&&◌, ◌||◌, ◌==◌, Option, none, some, has_value, List, [],
  ◌∷◌, ◌++◌, Str, str, if◌then◌else◌,
}
use edge_healthd.Types.Enums.{Duplex}
use edge_healthd.Network.Interfaces.{EthtoolLink}

-- The attributes of a reply, in the numbering of the family that was asked, where they have the size
-- of their type.
pub data Attr : Type 0 where
  family_id : ℕ → Attr
  speed : ℕ → Attr
  duplex_code : ℕ → Attr
  other_attr : Attr

-- What the calls of mnl_socket_recvfrom() give, and mnl_cb_run() on it, with the attributes that it
-- passes on.
pub data Answer : Type 0 where
  receive_error receive_end : Answer
  stopped : List Attr → Answer
  refused : List Attr → Answer
  more : List Attr → Answer → Answer

pub data ReqStatus : Type 0 where
  request_ok msg_error socket_error : ReqStatus

pub data Request : Type 0 where
  get_family : Str → Request
  linkmodes_get : ℕ → Str → Request

pub record Genl (K : Type 0) : Type 0 where
  pub open_socket : K → K × Bool
  pub bind : K → K × Bool
  pub close : K → K
  -- mnl_socket_sendto(), and what is received after it
  pub send : Request → K → K × Option Answer

pub record Querier (K : Type 0) : Type 0 where
  pub has_socket : Bool
  pub family : ℕ
  pub kernel : K

-- DUPLEX_HALF is 0 and DUPLEX_FULL is 1.
abbrev pub with_duplex : ℕ → EthtoolLink → EthtoolLink
with_duplex code info =
    if code == 1
    then record info { duplex = some Duplex.full }
    else if code == 0
    then record info { duplex = some Duplex.half }
    else info

-- SPEED_UNKNOWN is -1 as a uint32_t.
unfoldable pub linkmodes_attr : Attr → EthtoolLink → EthtoolLink
linkmodes_attr (speed n) info =
    if not (n == 0) && not (n == 2 ^ 32 - 1) then record info { speed_mbps = some n } else info
linkmodes_attr (duplex_code n) info = with_duplex n info
linkmodes_attr (family_id n) info = info
linkmodes_attr other_attr info = info

abbrev pub linkmodes : List Attr → EthtoolLink → EthtoolLink
linkmodes [] info = info
linkmodes (a ∷ rest) info = linkmodes rest (linkmodes_attr a info)

abbrev pub family_attr : Attr → ℕ → ℕ
family_attr (family_id n) family = n
family_attr (speed n) family = family
family_attr (duplex_code n) family = family
family_attr other_attr family = family

abbrev pub family_of : List Attr → ℕ → ℕ
family_of [] family = family
family_of (a ∷ rest) family = family_of rest (family_attr a family)

abbrev pub receive : Answer → List Attr × ReqStatus
receive receive_error = ([], socket_error)
receive receive_end = ([], request_ok)
receive (stopped attrs) = (attrs, request_ok)
receive (refused attrs) = (attrs, msg_error)
receive (more attrs answer) = let (rest, status) = receive answer in (attrs ++ rest, status)

-- The attributes that reach the callback, and the outcome.
abbrev pub run_request : Option Answer → List Attr × ReqStatus
run_request none = ([], socket_error)
run_request (some answer) = receive answer

abbrev pub no_link : EthtoolLink
no_link = record { speed_mbps = none; duplex = none }

abbrev pub if_ok : ReqStatus → EthtoolLink → Option EthtoolLink
if_ok request_ok info = some info
if_ok msg_error info = none
if_ok socket_error info = none

module _ {K : Type 0} (genl : Genl K) where
  abbrev pub resolve_family : Str → K → K × ℕ
  resolve_family name k =
      let (k', answer) = genl.send (get_family name) k in (k', family_of (run_request answer).0 0)

  abbrev pub query_one : ℕ → Str → K → K × ReqStatus × Option EthtoolLink
  query_one family name k =
      let (k', answer) = genl.send (linkmodes_get family name) k in
      let (attrs, status) = run_request answer in
      (k', status, if_ok status (linkmodes attrs no_link))

  abbrev pub reset : Querier K → Querier K
  reset q = record {
    has_socket = false;
    family = 0;
    kernel = if q.has_socket then genl.close q.kernel else q.kernel;
  }

  abbrev with_family : Querier K → Querier K × Bool
  with_family q =
      let (k, family) = resolve_family (str "ethtool") q.kernel in
      if q.family == 0
      then (record q { family = family; kernel = k }, not (family == 0))
      else (q, true)

  abbrev after_bind : Querier K → K × Bool → Querier K × Bool
  after_bind q (k, true) = with_family (record q { kernel = k })
  after_bind q (k, false) = (reset (record q { kernel = k }), false)

  abbrev after_open : Querier K → K × Bool → Querier K × Bool
  after_open q (k, true) = after_bind (record q { has_socket = true; kernel = k }) (genl.bind k)
  after_open q (k, false) = (record q { kernel = k }, false)

  abbrev if_open : Bool → Querier K → Querier K × Bool
  if_open true q = with_family q
  if_open false q = after_open q (genl.open_socket q.kernel)

  unfoldable pub ensure_ready : Querier K → Querier K × Bool
  ensure_ready q = if_open q.has_socket q

  abbrev pub is_known : EthtoolLink → Bool
  is_known info = has_value info.speed_mbps || has_value info.duplex

  abbrev pub add_link :
      Str → Option EthtoolLink → List (Str × EthtoolLink) → List (Str × EthtoolLink)
  add_link name none out = out
  add_link name (some info) out = if is_known info then (name, info) ∷ out else out

  -- One answer, and what follows for the names that are left.
  abbrev pub after_query :
      (Querier K → List (Str × EthtoolLink) → Querier K × List (Str × EthtoolLink))
      → Str
      → ReqStatus
      → Option EthtoolLink
      → Querier K
      → List (Str × EthtoolLink)
      → Querier K × List (Str × EthtoolLink)
  after_query loop name request_ok info q out = loop q (add_link name info out)
  after_query loop name msg_error info q out = loop q (add_link name info out)
  after_query loop name socket_error info q out = (reset q, out)

  -- The loop, with what the names before it gave, the last name first.
  unfoldable pub query_all :
      List Str → Querier K → List (Str × EthtoolLink) → Querier K × List (Str × EthtoolLink)
  unfolding linkmodes_attr
  query_all [] q out = (q, out)
  query_all (name ∷ names) q out =
      let (k, status, info) = query_one q.family name q.kernel in
      after_query (query_all names) name status info (record q { kernel = k }) out

  abbrev pub if_ready : List Str → Querier K × Bool → Querier K × List (Str × EthtoolLink)
  if_ready names (q, true) = query_all names q []
  if_ready names (q, false) = (q, [])

  unfoldable pub query : List Str → Querier K → Querier K × List (Str × EthtoolLink)
  unfolding ensure_ready query_all
  query [] q = (q, [])
  query (name ∷ names) q = if_ready (name ∷ names) (ensure_ready q)

  -- ethtool_query_links(): a querier for one batch, which its destructor closes.
  unfoldable pub ethtool_query_links : List Str → K → K × List (Str × EthtoolLink)
  unfolding query
  ethtool_query_links names k =
      let (q, links) = query names (record { has_socket = false; family = 0; kernel = k }) in
      ((reset q).kernel, links)
