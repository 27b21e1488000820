-- ===== src/Network/Ethtool/Socket.antt =====
-- The sockets that a querier holds.
use edge_healthd.Prelude.{
  ℕ, ◌+◌, ◌-◌, ◌==◌, ◌≡◌, refl, Bool, true, false, ◌∙◌, Option, List, [], ◌∷◌, Str, str, arith,
  Bool-cases, inl, inr,
}
use edge_healthd.Network.Interfaces.{EthtoolLink}
use edge_healthd.Network.Ethtool.{
  Request, ReqStatus, request_ok, msg_error, socket_error, Genl, Querier, reset, with_family,
  after_bind, after_open, if_open, get_family, ensure_ready, linkmodes_get, query_one, add_link,
  after_query, query_all, if_ready, query, ethtool_query_links,
}

abbrev pub held : Bool → ℕ
held true = 1
held false = 0

-- What the calls do to the number of open sockets: opening adds one where it succeeds, closing takes
-- one away, and nothing else changes it.
pub record SocketLaws {K : Type 0} (genl : Genl K) (sockets : K → ℕ) : Type 0 where
  pub open_lem : (k : K) → sockets (genl.open_socket k).0 ≡ sockets k + held (genl.open_socket k).1
  pub bind_lem : (k : K) → sockets (genl.bind k).0 ≡ sockets k
  pub close_lem : (k : K) → sockets (genl.close k) ≡ sockets k - 1
  pub send_lem : (request : Request) (k : K) → sockets (genl.send request k).0 ≡ sockets k

module _ {K : Type 0} (genl : Genl K) (sockets : K → ℕ) (laws : SocketLaws genl sockets)
    (n : ℕ) where
  -- Beside the `n` sockets of others there is the one that the querier holds, if it holds one.
  abbrev pub IsBalanced : Querier K → Type 0
  IsBalanced q = sockets q.kernel ≡ n + held q.has_socket

  reset-IsBalanced : (q : Querier K) → IsBalanced q → IsBalanced (reset genl q)
  reset-IsBalanced q h = elim (Bool-cases q.has_socket) [
    | inl e ↦ rw e (ground (arith, h, e, laws.close_lem q.kernel))
    | inr e ↦ rw e (ground (arith, h, e))
  ]

  with_family-IsBalanced : (q : Querier K) → IsBalanced q → IsBalanced (with_family genl q).0
  with_family-IsBalanced q h = elim (Bool-cases (q.family == 0)) [
    | inl e ↦ rw e (laws.send_lem (get_family (str "ethtool")) q.kernel ∙ h)
    | inr e ↦ rw e h
  ]

  after_bind-IsBalanced :
      (q : Querier K) (r : K × Bool)
      → IsBalanced (record q { kernel = r.0 })
      → IsBalanced (after_bind genl q r).0
  after_bind-IsBalanced q (k, true) h = with_family-IsBalanced (record q { kernel = k }) h
  after_bind-IsBalanced q (k, false) h = reset-IsBalanced (record q { kernel = k }) h

  after_open-IsBalanced :
      (q : Querier K) (r : K × Bool)
      → sockets r.0 ≡ n + held r.1
      → q.has_socket ≡ false
      → IsBalanced (after_open genl q r).0
  after_open-IsBalanced q (k, true) h e =
      after_bind-IsBalanced (record q { has_socket = true; kernel = k }) (genl.bind k)
        (laws.bind_lem k ∙ h)
  after_open-IsBalanced q (k, false) h e = rw e h

  if_open-IsBalanced :
      (open_already : Bool) (q : Querier K)
      → q.has_socket ≡ open_already
      → IsBalanced q
      → IsBalanced (if_open genl open_already q).0
  if_open-IsBalanced true q e h = with_family-IsBalanced q h
  if_open-IsBalanced false q e h =
      after_open-IsBalanced q (genl.open_socket q.kernel)
        (ground (arith, e, h, laws.open_lem q.kernel)) e

  ensure_ready-IsBalanced : (q : Querier K) → IsBalanced q → IsBalanced (ensure_ready genl q).0
  unfolding ensure_ready
  ensure_ready-IsBalanced q h = if_open-IsBalanced q.has_socket q refl h

  abbrev Loop : Type 0
  Loop = Querier K → List (Str × EthtoolLink) → Querier K × List (Str × EthtoolLink)

  after_query-IsBalanced :
      (loop : Loop) (name : Str) (status : ReqStatus) (info : Option EthtoolLink) (q : Querier K)
      (out : List (Str × EthtoolLink))
      → ((p : Querier K) (found : List (Str × EthtoolLink))
          → IsBalanced p
          → IsBalanced (loop p found).0)
      → IsBalanced q
      → IsBalanced (after_query genl loop name status info q out).0
  after_query-IsBalanced loop name request_ok info q out ih h = ih q (add_link genl name info out) h
  after_query-IsBalanced loop name msg_error info q out ih h = ih q (add_link genl name info out) h
  after_query-IsBalanced loop name socket_error info q out ih h = reset-IsBalanced q h

  query_all-IsBalanced :
      (names : List Str) (q : Querier K) (out : List (Str × EthtoolLink))
      → IsBalanced q
      → IsBalanced (query_all genl names q out).0
  unfolding query_all
  query_all-IsBalanced [] q out h = h
  query_all-IsBalanced (name ∷ names) q out h =
      let (k, status, info) = query_one genl q.family name q.kernel in
      after_query-IsBalanced (query_all genl names) name status info (record q { kernel = k }) out
        (query_all-IsBalanced names) (laws.send_lem (linkmodes_get q.family name) q.kernel ∙ h)

  if_ready-IsBalanced :
      (names : List Str) (r : Querier K × Bool)
      → IsBalanced r.0
      → IsBalanced (if_ready genl names r).0
  if_ready-IsBalanced names (q, true) h = query_all-IsBalanced names q [] h
  if_ready-IsBalanced names (q, false) h = h

  -- Where opening and closing a socket change the number of open sockets by one and the other calls do
  -- not: a query leaves open the sockets of others and the one that the querier then holds, whatever
  -- fails in it.
  pub query-IsBalanced :
      (names : List Str) (q : Querier K) → IsBalanced q → IsBalanced (query genl names q).0
  unfolding query
  query-IsBalanced [] q h = h
  query-IsBalanced (name ∷ names) q h =
      if_ready-IsBalanced (name ∷ names) (ensure_ready genl q) (ensure_ready-IsBalanced q h)

  -- The one-shot query leaves no socket open, whatever fails in it, where opening and closing a socket
  -- change the number of open sockets by one and the other calls do not.
  pub ethtool_query_links-closed :
      (names : List Str) (k : K) → sockets k ≡ n → sockets (ethtool_query_links genl names k).0 ≡ n
  unfolding ethtool_query_links
  ethtool_query_links-closed names k h =
      let fresh : Querier K = record { has_socket = false; family = 0; kernel = k } in
      ground (
        arith,
        reset-IsBalanced (query genl names fresh).0
            (query-IsBalanced names fresh (ground (arith, h))),
      )
