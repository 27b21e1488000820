-- ===== src/Json/Schema.antt =====
-- JSON Schema as far as schemas/edge.health.state.v1.1.json uses it, and its validation: an independent
-- description of what the serializer promises. Formats are not checked, as in the validator of the
-- repository, scripts/validate_schema.py. `Snapshot` has the schema itself.
pub mod Snapshot
pub mod Conforms
use edge_healthd.Prelude.{
  ℕ, ◌+◌, if◌then◌else◌, Bool, true, false, not, ◌&&◌, ◌||◌, Option, none, some, List, [], ◌∷◌, Str,
  str_eq, length, leb, any,
}
use edge_healthd.Prelude.Int.{ℤ, pos, negsuc}
use edge_healthd.Prelude.Double.{Double}
use edge_healthd.Json.{
  Json, Items, Fields, null, boolean, integer, real, string, array, object, end_of_items, item,
  end_of_fields, field, find,
}

mutual
  pub data Schema : Type 0 where
    -- `const` and `enum`
    enumeration : List Str → Schema
    -- `type: string` with `minLength` and `maxLength`
    text : ℕ → Option ℕ → Schema
    -- `type: string` with a `pattern`
    pattern_text : Schema
    flag : Schema
    -- `type: integer` with `minimum` and `maximum`
    whole : Option ℕ → Option ℕ → Schema
    -- `type: number`, with `minimum: 0`
    number : Bool → Schema
    -- `anyOf` with `type: null`
    nullable : Schema → Schema
    -- `items`, `maxItems`
    sequence : Schema → Option ℕ → Schema
    -- `required`, `properties`, and whether other properties are allowed
    structure : List Str → Properties → Bool → Schema

  pub data Properties : Type 0 where
    end_of_properties : Properties
    property : Str → Schema → Properties → Properties

unfoldable pub find_property : Str → Properties → Option Schema
find_property key end_of_properties = none
find_property key (property k s rest) = if str_eq k key then some s else find_property key rest

abbrev pub is_below : Option ℕ → ℕ → Bool
is_below none n = true
is_below (some limit) n = leb n limit

abbrev pub is_above : Option ℕ → ℤ → Bool
is_above none n = true
is_above (some limit) (pos n) = leb limit n
is_above (some limit) (negsuc n) = false

abbrev pub count_items : {F : Type 0} → Items F → ℕ
count_items end_of_items = 0
count_items (item x xs) = 1 + count_items xs

-- Every required key is there.
abbrev pub has_keys : {F : Type 0} → List Str → Fields F → Bool
has_keys [] fs = true
has_keys (k ∷ ks) fs = elim (find k fs) [ none ↦ false | some v ↦ has_keys ks fs ]

-- What a schema asks of an array and of an object.
abbrev pub as_sequence : Schema → Option (Schema × Option ℕ)
as_sequence (sequence s limit) = some (s, limit)
as_sequence (nullable s) = as_sequence s
as_sequence other = none

abbrev pub as_structure : Schema → Option (List Str × Properties × Bool)
as_structure (structure keys props additional) = some (keys, props, additional)
as_structure (nullable s) = as_structure s
as_structure other = none

abbrev pub accepts_null : Schema → Bool
accepts_null (nullable s) = true
accepts_null other = false

abbrev pub accepts_flag : Schema → Bool
accepts_flag flag = true
accepts_flag (nullable s) = accepts_flag s
accepts_flag other = false

abbrev pub accepts_integer : ℤ → Schema → Bool
accepts_integer n (whole low high) =
    is_above low n && (elim n [ pos k ↦ is_below high k | negsuc k ↦ true ])
accepts_integer n (nullable s) = accepts_integer n s
accepts_integer n other = false

-- `double` with its comparison, and the pattern of the reasons, whose regular expressions are the
-- validator's.
module _ {F : Type 0} (fp : Double F) (matches : Str → Bool) where
  abbrev pub is_finite : F → Bool
  is_finite v = not (fp.is_nan v || fp.is_inf v)

  -- A number that is not finite is written as `null`.
  abbrev pub accepts_real : F → Schema → Bool
  accepts_real v (number false) = is_finite v
  accepts_real v (number true) = is_finite v && fp.geb v (fp.of_int (pos 0))
  accepts_real v (nullable s) = accepts_real v s
  accepts_real v other = false

  abbrev pub accepts_text : Str → Schema → Bool
  accepts_text t (enumeration xs) = any (str_eq t) xs
  accepts_text t (text low high) = leb low (length t) && is_below high (length t)
  accepts_text t pattern_text = matches t
  accepts_text t (nullable s) = accepts_text t s
  accepts_text t other = false

  unfoldable mutual
    pub conforms : Json F → Schema → Bool
    conforms null s = accepts_null s
    conforms (boolean b) s = accepts_flag s
    conforms (integer n) s = accepts_integer n s
    conforms (real v) s = accepts_real v s
    conforms (string t) s = accepts_text t s
    conforms (array xs) s = elim (as_sequence s) [
      | none ↦ false
      | some (each, limit) ↦ is_below limit (count_items xs) && conforms_items xs each
    ]
    conforms (object fs) s = elim (as_structure s) [
      | none ↦ false
      | some (keys, props, additional) ↦ has_keys keys fs && conforms_fields fs props additional
    ]

    pub conforms_items : Items F → Schema → Bool
    conforms_items end_of_items s = true
    conforms_items (item x xs) s = conforms x s && conforms_items xs s

    pub conforms_fields : Fields F → Properties → Bool → Bool
    conforms_fields end_of_fields props additional = true
    conforms_fields (field k v fs) props additional =
        (elim (find_property k props) [ none ↦ additional | some s ↦ conforms v s ])
        && conforms_fields fs props additional
