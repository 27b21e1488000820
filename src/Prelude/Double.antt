-- ===== src/Prelude/Double.antt =====
-- `double`: the type and its operations are a parameter of the model, with the two laws of IEEE 754
-- comparison that proofs use. `Milli` is an instance for concrete inputs.
use Prim.Native.Nat.{ℕ, ◌*◌, ◌/◌}
use mathlib.Core.Path.{◌≡◌}
use mathlib.Core.Bool.{Bool, true, false}
use native.Mathlib.Omega.{arith}
use edge_healthd.Prelude.Tests.{leb}
use edge_healthd.Prelude.Int.{ℤ, pos_part}

pub record Double (F : Type 0) : Type 0 where
  pub of_int : ℤ → F
  pub div : F → F → F
  pub mul : F → F → F
  -- a >= b, which is false where a or b is not a number
  pub geb : F → F → Bool
  pub is_nan : F → Bool
  pub is_inf : F → Bool
  pub geb_trans : (a b c : F) → geb a b ≡ true → geb b c ≡ true → geb a c ≡ true
  pub geb_total : (a b : F) → is_nan a ≡ false → is_nan b ≡ false → geb a b ≡ false → geb b a ≡ true

pub leb_flip_trans : (a b c : ℕ) → leb b a ≡ true → leb c b ≡ true → leb c a ≡ true
leb_flip_trans a b c p q = ground arith

pub leb_flip_total : (a b : ℕ) → leb b a ≡ false → leb a b ≡ true
leb_flip_total a b p = ground arith

-- Thousandths, for values that are not negative.
abbrev pub milli : Double ℕ
milli = record {
  of_int = λ n. pos_part n * 1000;
  div = λ a b. a * 1000 / b;
  mul = λ a b. a * b / 1000;
  geb = λ a b. leb b a;
  is_nan = λ a. false;
  is_inf = λ a. false;
  geb_trans = leb_flip_trans;
  geb_total = λ a b _ _ p. leb_flip_total a b p;
}
