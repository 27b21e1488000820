-- ===== src/Network/Monitor/Cached.antt =====
-- What the cache has for an interface, from the messages about that interface.
use edge_healthd.Prelude.{
  ℕ, ◌<◌, ◌≡◌, refl, sym, ap, ◌∙◌, Bool, true, false, ◌&&◌, Option, none, some, value_or, List, [],
  ◌∷◌, ◌++◌, Str, ltb, ◌==◌, if◌then◌else◌, arith, Bool-cases, inl, inr,
}
use edge_healthd.Network.Monitor.{
  NetlinkInterfaceStats, stats_default, LinkAttr, Message, new_link, del_link, new_addr, del_addr,
  done, error, other_message, linked, Cache, update_entry, change_entry, data_cb, addressed,
  unaddressed, addr_data_cb, dispatch, process_incoming, drain_events,
}

abbrev pub find_entry : ℕ → Cache → Option NetlinkInterfaceStats
find_entry j [] = none
find_entry j ((k, s) ∷ rest) = let later = find_entry j rest in if k == j then some s else later

-- Every key is above the bound.
abbrev pub IsAbove : ℕ → Cache → Type 0
IsAbove k [] = Unit
IsAbove k ((j, s) ∷ rest) = (k < j) × IsAbove k rest

-- The keys ascend.
abbrev pub IsSorted : Cache → Type 0
IsSorted [] = Unit
IsSorted ((k, s) ∷ rest) = IsAbove k rest × IsSorted rest

IsAbove-trans : (a b : ℕ) (m : Cache) → a < b → IsAbove b m → IsAbove a m
IsAbove-trans a b [] h p = tt
IsAbove-trans a b ((k, s) ∷ m) h p = (omega (arith, h, p.0), IsAbove-trans a b m h p.1)

find_above : (j : ℕ) (m : Cache) → IsAbove j m → find_entry j m ≡ none
find_above j [] p = refl
find_above j ((k, s) ∷ m) p = ground (arith, p.0, find_above j m p.1)

abbrev Change : Type 0
Change = NetlinkInterfaceStats → NetlinkInterfaceStats

find_entry-update :
    (j k : ℕ) (f : Change) (m : Cache)
    → IsSorted m
    → find_entry j (update_entry k f m)
      ≡ (if k == j then some (f (value_or (find_entry k m) stats_default)) else find_entry j m)
unfolding update_entry
find_entry-update j k f [] p = ground arith
find_entry-update j k f ((i, s) ∷ m) p = elim (Bool-cases (k == i)) [
  | inl e ↦ rw e (ground (arith, e))
  | inr e ↦ elim (Bool-cases (ltb k i)) [
    | inl l ↦
        rw (e, l) (ground (arith, e, find_above k m (IsAbove-trans k i m (ground (arith, l)) p.0)))
    | inr l ↦ rw (e, l) (ground (arith, e, l, find_entry-update j k f m p.1))
  ]
]

IsAbove-update :
    (a k : ℕ) (f : Change) (m : Cache) → a < k → IsAbove a m → IsAbove a (update_entry k f m)
unfolding update_entry
IsAbove-update a k f [] h p = (h, tt)
IsAbove-update a k f ((i, s) ∷ m) h p = elim (Bool-cases (k == i)) [
  | inl e ↦ rw e p
  | inr e ↦ elim (Bool-cases (ltb k i)) [
    | inl l ↦ rw (e, l) (h, p)
    | inr l ↦ rw (e, l) (p.0, IsAbove-update a k f m h p.1)
  ]
]

update-IsSorted : (k : ℕ) (f : Change) (m : Cache) → IsSorted m → IsSorted (update_entry k f m)
unfolding update_entry
update-IsSorted k f [] p = (tt, tt)
update-IsSorted k f ((i, s) ∷ m) p = elim (Bool-cases (k == i)) [
  | inl e ↦ rw e p
  | inr e ↦ elim (Bool-cases (ltb k i)) [
    | inl l ↦ rw (e, l) ((ground (arith, l), IsAbove-trans k i m (ground (arith, l)) p.0), p)
    | inr l ↦
        rw (e, l) (IsAbove-update i k f m (ground (arith, e, l)) p.0, update-IsSorted k f m p.1)
  ]
]

abbrev map_option : Change → Option NetlinkInterfaceStats → Option NetlinkInterfaceStats
map_option f none = none
map_option f (some s) = some (f s)

find_entry-change :
    (j k : ℕ) (f : Change) (m : Cache)
    → find_entry j (change_entry k f m)
      ≡ (if k == j then map_option f (find_entry j m) else find_entry j m)
unfolding change_entry
find_entry-change j k f [] = ground arith
find_entry-change j k f ((i, s) ∷ m) = elim (Bool-cases (k == i)) [
  | inl e ↦ rw e (ground (arith, e))
  | inr e ↦ rw e (ground (arith, e, find_entry-change j k f m))
]

IsAbove-change : (a k : ℕ) (f : Change) (m : Cache) → IsAbove a m → IsAbove a (change_entry k f m)
unfolding change_entry
IsAbove-change a k f [] p = tt
IsAbove-change a k f ((i, s) ∷ m) p = elim (Bool-cases (k == i)) [
  | inl e ↦ rw e p
  | inr e ↦ rw e (p.0, IsAbove-change a k f m p.1)
]

change-IsSorted : (k : ℕ) (f : Change) (m : Cache) → IsSorted m → IsSorted (change_entry k f m)
unfolding change_entry
change-IsSorted k f [] p = tt
change-IsSorted k f ((i, s) ∷ m) p = elim (Bool-cases (k == i)) [
  | inl e ↦ rw e p
  | inr e ↦ rw e (IsAbove-change i k f m p.0, change-IsSorted k f m p.1)
]

-- The messages in the order of their buffers.
abbrev pub concat : List (List Message) → List Message
concat [] = []
concat (b ∷ bs) = b ++ concat bs

module _ (inet_ntop : List ℕ → Option Str) where
  -- What a message does to the entry of interface `j`, if there is one: a link message about it
  -- creates and changes it, an address message about it changes it, and no other message does.
  abbrev pub told : ℕ → Message → Option NetlinkInterfaceStats → Option NetlinkInterfaceStats
  told j (new_link k flags attrs) o =
      if k == j then some (linked k flags attrs (value_or o stats_default)) else o
  told j (del_link k flags attrs) o =
      if k == j then some (linked k flags attrs (value_or o stats_default)) else o
  told j (new_addr is_inet k attrs) o =
      if is_inet && (k == j) then map_option (addressed inet_ntop attrs) o else o
  told j (del_addr is_inet k attrs) o =
      if is_inet && (k == j) then map_option (unaddressed inet_ntop) o else o
  told j done o = o
  told j error o = o
  told j other_message o = o

  abbrev pub told_all :
      ℕ → List Message → Option NetlinkInterfaceStats → Option NetlinkInterfaceStats
  told_all j [] o = o
  told_all j (m ∷ ms) o = told_all j ms (told j m o)

  find_entry-linked :
      (j k flags : ℕ) (attrs : List LinkAttr) (c : Cache)
      → IsSorted c
      → find_entry j (update_entry k (linked k flags attrs) c) ≡ (
          if k == j
          then some (linked k flags attrs (value_or (find_entry j c) stats_default))
          else find_entry j c)
  find_entry-linked j k flags attrs c p =
      find_entry-update j k (linked k flags attrs) c p ∙ (elim (Bool-cases (k == j)) [
        | inl e ↦ rw e (
            ap (λ (t : ℕ). some (linked k flags attrs (value_or (find_entry t c) stats_default)))
              (ground (arith, e)))
        | inr e ↦ rw e refl
      ])

  find_entry-addressed :
      (j k : ℕ) (is_inet : Bool) (f : Change) (c : Cache)
      → find_entry j (if is_inet then change_entry k f c else c)
        ≡ (if is_inet && (k == j) then map_option f (find_entry j c) else find_entry j c)
  find_entry-addressed j k true f c = find_entry-change j k f c
  find_entry-addressed j k false f c = refl

  find_entry-dispatch :
      (j : ℕ) (m : Message) (c : Cache)
      → IsSorted c
      → find_entry j (dispatch inet_ntop m c) ≡ told j m (find_entry j c)
  unfolding dispatch data_cb addr_data_cb
  find_entry-dispatch j (new_link k flags attrs) c p = find_entry-linked j k flags attrs c p
  find_entry-dispatch j (del_link k flags attrs) c p = find_entry-linked j k flags attrs c p
  find_entry-dispatch j (new_addr is_inet k attrs) c p =
      find_entry-addressed j k is_inet (addressed inet_ntop attrs) c
  find_entry-dispatch j (del_addr is_inet k attrs) c p =
      find_entry-addressed j k is_inet (unaddressed inet_ntop) c
  find_entry-dispatch j done c p = refl
  find_entry-dispatch j error c p = refl
  find_entry-dispatch j other_message c p = refl

  if-IsSorted :
      (is_inet : Bool) (k : ℕ) (f : Change) (c : Cache)
      → IsSorted c
      → IsSorted (if is_inet then change_entry k f c else c)
  if-IsSorted true k f c p = change-IsSorted k f c p
  if-IsSorted false k f c p = p

  dispatch-IsSorted : (m : Message) (c : Cache) → IsSorted c → IsSorted (dispatch inet_ntop m c)
  unfolding dispatch data_cb addr_data_cb
  dispatch-IsSorted (new_link k flags attrs) c p = update-IsSorted k (linked k flags attrs) c p
  dispatch-IsSorted (del_link k flags attrs) c p = update-IsSorted k (linked k flags attrs) c p
  dispatch-IsSorted (new_addr is_inet k attrs) c p =
      if-IsSorted is_inet k (addressed inet_ntop attrs) c p
  dispatch-IsSorted (del_addr is_inet k attrs) c p =
      if-IsSorted is_inet k (unaddressed inet_ntop) c p
  dispatch-IsSorted done c p = p
  dispatch-IsSorted error c p = p
  dispatch-IsSorted other_message c p = p

  abbrev Tells : ℕ → List Message → (Cache → Cache) → Type 0
  Tells j ms f =
      (c : Cache)
      → IsSorted c
      → (find_entry j (f c) ≡ told_all j ms (find_entry j c)) × IsSorted (f c)

  process_incoming-Tells : (j : ℕ) (ms : List Message) → Tells j ms (process_incoming inet_ntop ms)
  unfolding process_incoming
  process_incoming-Tells j [] c p = (refl, p)
  process_incoming-Tells j (m ∷ ms) c p =
      let (e, q) = process_incoming-Tells j ms (dispatch inet_ntop m c) (dispatch-IsSorted m c p) in
      (e ∙ ap (told_all j ms) (find_entry-dispatch j m c p), q)

  told_all-append :
      (j : ℕ) (ms ns : List Message) (o : Option NetlinkInterfaceStats)
      → told_all j (ms ++ ns) o ≡ told_all j ns (told_all j ms o)
  told_all-append j [] ns o = refl
  told_all-append j (m ∷ ms) ns o = told_all-append j ms ns (told j m o)

  -- After drain_events(), the cache has for each interface what the messages about that interface say,
  -- in their order, however they are spread over buffers: no interface disturbs another. A link
  -- message about an interface, also one that says that it is gone, leaves an entry. The keys ascend
  -- before and after.
  pub drain_events-told :
      (j : ℕ) (buffers : List (List Message)) (c : Cache)
      → IsSorted c
      → (find_entry j (drain_events inet_ntop buffers c)
          ≡ told_all j (concat buffers) (find_entry j c))
        × IsSorted (drain_events inet_ntop buffers c)
  unfolding drain_events
  drain_events-told j [] c p = (refl, p)
  drain_events-told j (b ∷ bs) c p =
      let (e, q) = process_incoming-Tells j b c p in
      let (e', q') = drain_events-told j bs (process_incoming inet_ntop b c) q in
      (
        e'
            ∙ (ap (told_all j (concat bs)) e
                ∙ sym (told_all-append j b (concat bs) (find_entry j c))),
        q',
      )
