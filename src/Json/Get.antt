-- ===== src/Json/Get.antt =====
-- The conversions of nlohmann::json, get<T>(), and contains(): what the library documents of them. A
-- conversion that throws answers none.
use edge_healthd.Prelude.{
  ℕ, ◌%◌, ◌^◌, ◌<◌, ◌≡◌, ◌∙◌, ap, Bool, true, Option, none, some, List, [], ◌∷◌, Str, ltb, arith,
}
use edge_healthd.Prelude.Int.{ℤ, pos, negsuc}
use edge_healthd.Json.{Json, boolean, integer, real, string, object, array_of, find}

-- The value of a key; only objects have keys.
abbrev pub member : {F : Type 0} → Str → Json F → Option (Json F)
member key (object fs) = find key fs
member key other = none

-- A number that `int` holds.
abbrev pub is_int : ℤ → Bool
is_int (pos n) = ltb n (2 ^ 31)
is_int (negsuc n) = ltb n (2 ^ 31)

pub record Getters (F : Type 0) : Type 0 where
  pub get_string : Json F → Option Str
  pub get_bool : Json F → Option Bool
  pub get_strings : Json F → Option (List Str)
  pub get_int : Json F → Option ℤ
  -- into an unsigned type of so many bits
  pub get_unsigned : ℕ → Json F → Option ℕ
  pub get_double : Json F → Option F
  pub string_lem : (s : Str) → get_string (string s) ≡ some s
  pub bool_lem : (b : Bool) → get_bool (boolean b) ≡ some b
  pub strings_lem : (xs : List Str) → get_strings (array_of string xs) ≡ some xs
  pub int_lem : (n : ℤ) → is_int n ≡ true → get_int (integer n) ≡ some n
  -- the conversion is a static_cast
  pub unsigned_lem : (w n : ℕ) → get_unsigned w (integer (pos n)) ≡ some (n % 2 ^ w)
  pub double_lem : (x : F) → get_double (real x) ≡ some x
  -- the types that are refused
  pub string_only : (j : Json F) (s : Str) → get_string j ≡ some s → j ≡ string s
  pub bool_only : (j : Json F) (b : Bool) → get_bool j ≡ some b → j ≡ boolean b

-- A number that the type holds is read as it is.
pub get_unsigned-fitting :
    {F : Type 0} (get : Getters F) (w n : ℕ)
    → n < 2 ^ w
    → get.get_unsigned w (integer (pos n)) ≡ some n
get_unsigned-fitting get w n h = get.unsigned_lem w n ∙ ap (λ (k : ℕ). some k) (grind (arith, h))

-- `if (json.contains(key)) config.x = json[key].get<T>()`.
abbrev pub assigned : {A C : Type 0} → (A → C → C) → C → Option A → Option C
assigned set config none = none
assigned set config (some a) = some (set a config)

abbrev pub if_there : {F C : Type 0} → Option (Json F) → (Json F → C → Option C) → C → Option C
if_there none f config = some config
if_there (some v) f config = f v config

abbrev pub read : {F A C : Type 0} → Json F → Str → (Json F → Option A) → (A → C → C) → C → Option C
read json key getter set = if_there (member key json) (λ v config. assigned set config (getter v))

-- One after the other; the first exception ends the loading.
abbrev pub and_then : {C : Type 0} → Option C → (C → Option C) → Option C
and_then none f = none
and_then (some c) f = f c

abbrev pub run : {C : Type 0} → List (C → Option C) → C → Option C
run [] c = some c
run (f ∷ fs) c = and_then (f c) (run fs)
