-- ===== src/Network/Ethtool/Answered.antt =====
-- What a query reports.
use edge_healthd.Prelude.{
  ℕ, ◌-◌, ◌^◌, ◌≡◌, Bool, true, false, not, ◌&&◌, ◌==◌, Option, none, some, List, [], ◌∷◌, All, Str,
  arith, Bool-cases, inl, inr,
}
use edge_healthd.Network.Interfaces.{EthtoolLink}
use edge_healthd.Network.Ethtool.{
  Attr, family_id, speed, duplex_code, other_attr, ReqStatus, request_ok, msg_error, socket_error,
  Genl, Querier, with_duplex, linkmodes_attr, linkmodes, no_link, if_ok, run_request, linkmodes_get,
  query_one, ensure_ready, is_known, add_link, after_query, query_all, if_ready, query,
}

-- A speed that is reported is one.
abbrev pub IsSpeed : Option ℕ → Type 0
IsSpeed none = Unit
IsSpeed (some n) = (not (n == 0) && not (n == 2 ^ 32 - 1)) ≡ true

with_duplex-speed :
    (code : ℕ) (info : EthtoolLink) → (with_duplex code info).speed_mbps ≡ info.speed_mbps
with_duplex-speed code info = ground arith

linkmodes_attr-IsSpeed :
    (a : Attr) (info : EthtoolLink)
    → IsSpeed info.speed_mbps
    → IsSpeed (linkmodes_attr a info).speed_mbps
unfolding linkmodes_attr
linkmodes_attr-IsSpeed (speed n) info h =
    elim (Bool-cases (not (n == 0) && not (n == 2 ^ 32 - 1))) [ inl e ↦ rw e e | inr e ↦ rw e h ]
linkmodes_attr-IsSpeed (duplex_code n) info h = rw (with_duplex-speed n info) h
linkmodes_attr-IsSpeed (family_id n) info h = h
linkmodes_attr-IsSpeed other_attr info h = h

linkmodes-IsSpeed :
    (attrs : List Attr) (info : EthtoolLink)
    → IsSpeed info.speed_mbps
    → IsSpeed (linkmodes attrs info).speed_mbps
linkmodes-IsSpeed [] info h = h
linkmodes-IsSpeed (a ∷ more) info h =
    linkmodes-IsSpeed more (linkmodes_attr a info) (linkmodes_attr-IsSpeed a info h)

module _ {K : Type 0} (genl : Genl K) where
  -- The speed is one, and something is known of the link.
  abbrev pub IsInformative : Str × EthtoolLink → Type 0
  IsInformative (name, info) = IsSpeed info.speed_mbps × (is_known genl info ≡ true)

  -- What query_one() gives, where it gives something.
  abbrev IsMeasured : Option EthtoolLink → Type 0
  IsMeasured none = Unit
  IsMeasured (some info) = IsSpeed info.speed_mbps

  if_ok-IsMeasured :
      (status : ReqStatus) (info : EthtoolLink)
      → IsSpeed info.speed_mbps
      → IsMeasured (if_ok status info)
  if_ok-IsMeasured request_ok info s = s
  if_ok-IsMeasured msg_error info s = tt
  if_ok-IsMeasured socket_error info s = tt

  add_link-IsInformative :
      (name : Str) (info : Option EthtoolLink) (out : List (Str × EthtoolLink))
      → IsMeasured info
      → All IsInformative out
      → All IsInformative (add_link genl name info out)
  add_link-IsInformative name none out s h = h
  add_link-IsInformative name (some info) out s h = elim (Bool-cases (is_known genl info)) [
    | inl e ↦ rw e ((s, e), h)
    | inr e ↦ rw e h
  ]

  abbrev Loop : Type 0
  Loop = Querier K → List (Str × EthtoolLink) → Querier K × List (Str × EthtoolLink)

  abbrev Keeps : Loop → Type 0
  Keeps loop =
      (q : Querier K) (out : List (Str × EthtoolLink))
      → All IsInformative out
      → All IsInformative (loop q out).1

  after_query-IsInformative :
      (loop : Loop) (name : Str) (status : ReqStatus) (info : Option EthtoolLink) (q : Querier K)
      (out : List (Str × EthtoolLink))
      → Keeps loop
      → IsMeasured info
      → All IsInformative out
      → All IsInformative (after_query genl loop name status info q out).1
  after_query-IsInformative loop name request_ok info q out ih s h =
      ih q (add_link genl name info out) (add_link-IsInformative name info out s h)
  after_query-IsInformative loop name msg_error info q out ih s h =
      ih q (add_link genl name info out) (add_link-IsInformative name info out s h)
  after_query-IsInformative loop name socket_error info q out ih s h = h

  query_all-IsInformative :
      (names : List Str) (q : Querier K) (out : List (Str × EthtoolLink))
      → All IsInformative out
      → All IsInformative (query_all genl names q out).1
  unfolding query_all
  query_all-IsInformative [] q out h = h
  query_all-IsInformative (name ∷ names) q out h =
      let (k, status, info) = query_one genl q.family name q.kernel in
      let attrs = (run_request (genl.send (linkmodes_get q.family name) q.kernel).1).0 in
      after_query-IsInformative (query_all genl names) name status info (record q { kernel = k })
        out (query_all-IsInformative names)
        (if_ok-IsMeasured status (linkmodes attrs no_link) (linkmodes-IsSpeed attrs no_link tt)) h

  if_ready-IsInformative :
      (names : List Str) (r : Querier K × Bool) → All IsInformative (if_ready genl names r).1
  if_ready-IsInformative names (q, true) = query_all-IsInformative names q [] tt
  if_ready-IsInformative names (q, false) = tt

  -- Whatever the kernel answers, a link that is reported has a speed or a duplex mode, and the speed is
  -- neither 0 nor the unknown speed.
  pub query-IsInformative :
      (names : List Str) (q : Querier K) → All IsInformative (query genl names q).1
  unfolding query
  query-IsInformative [] q = tt
  query-IsInformative (name ∷ names) q = if_ready-IsInformative (name ∷ names) (ensure_ready genl q)
