-- ===== src/Prelude.antt =====
-- The names that the other modules share: the libraries' names in use, passed on, and the
-- children's Boolean tests, lists, byte texts, integers and floating-point interface.
mod Tests
mod Lists
mod Text
pub mod Int
pub mod Double
pub use Tests.*
pub use Lists.*
unfoldable pub use Text.*
pub use Prim.Native.Nat.{ℕ, zero, suc, ◌+◌, ◌-◌, ◌*◌, ◌/◌, ◌%◌, ◌^◌, ◌≤◌, ◌<◌, min, max}
pub use mathlib.Core.Path.{◌≡◌, refl, sym, ap, ◌∙◌}
pub use mathlib.Core.Logic.{◌≢◌, ◌↔◌, ◌⊎◌, inl, inr}
pub use mathlib.Core.Bool.{Bool, true, false, not, ◌&&◌, ◌||◌}
pub use mathlib.Core.Option.{Option, none, some}
pub use mathlib.Core.List.{List, [], ◌∷◌, ◌++◌, map, reverse, Perm, Mem, Memᴰ}
pub use native.Mathlib.Omega.{arith}
