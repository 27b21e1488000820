-- ===== src/Json.antt =====
-- nlohmann::json as the source uses it: values, objects as their fields in the order in which they are
-- given, and the initializer lists that src/json.cpp and src/config.cpp write. The text of a value is
-- the library's and is not modelled.
pub mod Serializer
pub mod Schema
pub mod Get
use edge_healthd.Prelude.{
  Bool, Option, none, some, List, [], ◌∷◌, map, Str, str_eq, if◌then◌else◌, ℕ,
}
use edge_healthd.Prelude.Int.{ℤ, pos}

mutual
  pub data Json (F : Type 0) : Type 0 where
    null : Json F
    boolean : Bool → Json F
    integer : ℤ → Json F
    real : F → Json F
    string : Str → Json F
    array : Items F → Json F
    object : Fields F → Json F

  pub data Items (F : Type 0) : Type 0 where
    end_of_items : Items F
    item : Json F → Items F → Items F

  pub data Fields (F : Type 0) : Type 0 where
    end_of_fields : Fields F
    field : Str → Json F → Fields F → Fields F

module _ {F : Type 0} where
  abbrev pub items : List (Json F) → Items F
  items [] = end_of_items
  items (x ∷ xs) = item x (items xs)

  abbrev pub fields : List (Str × Json F) → Fields F
  fields [] = end_of_fields
  fields ((k, v) ∷ xs) = field k v (fields xs)

  -- `nlohmann::json{{"a", x}, ...}` and what `j["b"] = y` adds with keys that are not there yet.
  abbrev pub object_of : List (Str × Json F) → Json F
  object_of xs = object (fields xs)

  abbrev pub array_of : {A : Type 0} → (A → Json F) → List A → Json F
  array_of f xs = array (items (map f xs))

  abbrev pub natural : ℕ → Json F
  natural n = integer (pos n)

  -- `if (x) j[key] = *x`.
  abbrev pub optional : {A : Type 0} → Str → (A → Json F) → Option A → List (Str × Json F)
  optional key f none = []
  optional key f (some a) = (key, f a) ∷ []

  -- `if (test) j[key] = value`.
  abbrev pub on : Bool → Str → Json F → List (Str × Json F)
  on test key value = if test then (key, value) ∷ [] else []

  -- The value of a key: `j[key]`, where it is there.
  unfoldable pub find : Str → Fields F → Option (Json F)
  find key end_of_fields = none
  find key (field k v rest) = if str_eq k key then some v else find key rest
