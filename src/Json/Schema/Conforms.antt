-- ===== src/Json/Schema/Conforms.antt =====
-- Conformance of objects and arrays from that of their parts.
pub mod Sections
pub mod Resources
pub mod State
use edge_healthd.Prelude.{
  ℕ, Bool, true, false, ◌≡◌, refl, ◌&&◌, Option, none, some, List, [], ◌∷◌, ◌++◌, map, All, Str,
  str, length, str_eq, any, arith,
}
use edge_healthd.Prelude.Int.{ℤ, pos, negsuc}
use edge_healthd.Prelude.Double.{Double}
use edge_healthd.Types.Enums.{
  Severity, severity_to_string, ServiceState, service_state_to_string, LinkState,
  link_state_to_string, Duplex, duplex_to_string, TimeSyncSource, time_sync_source_to_string,
  TimeSyncState, time_sync_state_to_string, UpdateResult, update_result_to_string,
}
use edge_healthd.Json.{Json, string, object, object_of, array_of, items, fields, optional, on, find}
use edge_healthd.Json.Schema.{
  Schema, Properties, sequence, structure, nullable, find_property, has_keys, count_items, is_below,
  text, whole, accepts_integer, accepts_text, conforms, conforms_items, conforms_fields,
}
use edge_healthd.Json.Schema.Snapshot.{
  severity_schema, service_state_schema, link_state_schema, time_sync_source_schema,
  time_sync_state_schema, update_result_schema, duplex_schema,
}

module _ {F : Type 0} (fp : Double F) (matches : Str → Bool) where
  -- A field fits the property of its name.
  abbrev pub Fits : Properties → Bool → Str × Json F → Type 0
  Fits props additional (k, v) =
      (elim (find_property k props) [ none ↦ additional | some s ↦ conforms fp matches v s ]) ≡ true

  fields-conforms :
      (props : Properties) (additional : Bool) (l : List (Str × Json F))
      → All (Fits props additional) l
      → conforms_fields fp matches (fields l) props additional ≡ true
  unfolding conforms
  fields-conforms props additional [] h = refl
  fields-conforms props additional ((k, v) ∷ l) h =
      rw (h.0) (fields-conforms props additional l h.1)

  pub object-conforms :
      (keys : List Str) (props : Properties) (additional : Bool) (l : List (Str × Json F))
      → has_keys keys (fields l) ≡ true
      → All (Fits props additional) l
      → conforms fp matches (object_of l) (structure keys props additional) ≡ true
  unfolding conforms
  object-conforms keys props additional l e h = rw (e, fields-conforms props additional l h) refl

  pub optional-Fits :
      {A : Type 0} (props : Properties) (additional : Bool) (key : Str) (f : A → Json F)
      (o : Option A)
      → ((a : A) → o ≡ some a → Fits props additional (key, f a))
      → All (Fits props additional) (optional key f o)
  optional-Fits props additional key f none h = tt
  optional-Fits props additional key f (some a) h = (h a refl, tt)

  pub on-Fits :
      (props : Properties) (additional : Bool) (test : Bool) (key : Str) (v : Json F)
      → Fits props additional (key, v)
      → All (Fits props additional) (on test key v)
  on-Fits props additional true key v h = (h, tt)
  on-Fits props additional false key v h = tt

  abbrev pub Accepted : {A : Type 0} → (A → Json F) → Schema → A → Type 0
  Accepted f s a = conforms fp matches (f a) s ≡ true

  items-conforms :
      {A : Type 0} (f : A → Json F) (s : Schema) (l : List A)
      → All (Accepted f s) l
      → conforms_items fp matches (items (map f l)) s ≡ true
  unfolding conforms
  items-conforms f s [] h = refl
  items-conforms f s (x ∷ l) h = rw (h.0) (items-conforms f s l h.1)

  pub array-conforms :
      {A : Type 0} (f : A → Json F) (s : Schema) (l : List A)
      → All (Accepted f s) l
      → conforms fp matches (array_of f l) (sequence s none) ≡ true
  unfolding conforms
  array-conforms f s l h = items-conforms f s l h

  count_items-map :
      {A : Type 0} (f : A → Json F) (l : List A) → count_items (items (map f l)) ≡ length l
  count_items-map f [] = refl
  count_items-map f (x ∷ l) = omega (arith, count_items-map f l)

  pub short_array-conforms :
      {A : Type 0} (f : A → Json F) (s : Schema) (limit : ℕ) (l : List A)
      → is_below (some limit) (length l) ≡ true
      → All (Accepted f s) l
      → conforms fp matches (array_of f l) (sequence s (some limit)) ≡ true
  unfolding conforms
  short_array-conforms f s limit l e h = rw (count_items-map f l, e) (items-conforms f s l h)

  pub All-every : {A : Type 0} (P : A → Type 0) → ((a : A) → P a) → (l : List A) → All P l
  All-every P h [] = tt
  All-every P h (x ∷ l) = (h x, All-every P h l)

  -- The enumerations of the code are those of the schema.
  pub severity-conforms :
      (s : Severity) → accepts_text fp matches (severity_to_string s) severity_schema ≡ true
  unfolding severity_to_string str str_eq
  severity-conforms Severity.ok = refl
  severity-conforms Severity.warn = refl
  severity-conforms Severity.crit = refl
  severity-conforms Severity.unknown = refl
  severity-conforms Severity.unavailable = refl
  severity-conforms Severity.stale = refl

  pub service_state-conforms :
      (s : ServiceState)
      → accepts_text fp matches (service_state_to_string s) service_state_schema ≡ true
  unfolding service_state_to_string str str_eq
  service_state-conforms ServiceState.active = refl
  service_state-conforms ServiceState.inactive = refl
  service_state-conforms ServiceState.failed = refl
  service_state-conforms ServiceState.activating = refl
  service_state-conforms ServiceState.deactivating = refl
  service_state-conforms ServiceState.unknown = refl

  pub link_state-conforms :
      (s : LinkState) → accepts_text fp matches (link_state_to_string s) link_state_schema ≡ true
  unfolding link_state_to_string str str_eq
  link_state-conforms LinkState.up = refl
  link_state-conforms LinkState.down = refl
  link_state-conforms LinkState.unknown = refl

  pub time_sync_source-conforms :
      (s : TimeSyncSource)
      → accepts_text fp matches (time_sync_source_to_string s) time_sync_source_schema ≡ true
  unfolding time_sync_source_to_string str str_eq
  time_sync_source-conforms TimeSyncSource.no_source = refl
  time_sync_source-conforms TimeSyncSource.ntp = refl
  time_sync_source-conforms TimeSyncSource.ptp = refl

  pub time_sync_state-conforms :
      (s : TimeSyncState)
      → accepts_text fp matches (time_sync_state_to_string s) time_sync_state_schema ≡ true
  unfolding time_sync_state_to_string str str_eq
  time_sync_state-conforms TimeSyncState.locked = refl
  time_sync_state-conforms TimeSyncState.free_running = refl
  time_sync_state-conforms TimeSyncState.holdover = refl
  time_sync_state-conforms TimeSyncState.unknown = refl

  pub update_result-conforms :
      (r : UpdateResult)
      → accepts_text fp matches (update_result_to_string r) update_result_schema ≡ true
  unfolding update_result_to_string str str_eq
  update_result-conforms UpdateResult.success = refl
  update_result-conforms UpdateResult.failed = refl
  update_result-conforms UpdateResult.unknown = refl

  pub string-conforms : (t : Str) → accepts_text fp matches t (text 0 none) ≡ true
  string-conforms t = ground arith

  pub natural-conforms : (n : ℕ) → accepts_integer (pos n) (whole (some 0) none) ≡ true
  natural-conforms n = ground arith

  pub integer-conforms : (n : ℤ) → accepts_integer n (whole none none) ≡ true
  integer-conforms (pos n) = refl
  integer-conforms (negsuc n) = refl

  pub duplex-conforms :
      (d : Duplex) → accepts_text fp matches (duplex_to_string d) duplex_schema ≡ true
  unfolding duplex_to_string str str_eq
  duplex-conforms Duplex.full = refl
  duplex-conforms Duplex.half = refl
  duplex-conforms Duplex.unknown = refl
