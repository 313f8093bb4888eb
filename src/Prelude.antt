-- ===== src/Prelude.antt =====
-- The names that all modules share: those of the libraries, passed on, and those of the children:
-- Boolean tests, lists over the native numbers, ordered maps.
mod Tests
mod Lists
mod Slices
mod Text
pub mod Maps
pub mod Digits
pub mod Int
pub use Tests.*
pub use Lists.*
pub use Slices.*
pub use Text.*
pub use Prim.Native.Nat.{ℕ, zero, suc, ◌+◌, ◌-◌, ◌*◌, ◌/◌, ◌%◌, ◌^◌, ◌≤◌, ◌<◌}
pub use mathlib.Core.Path.{◌≡◌, refl, sym, ap, ◌∙◌}
pub use mathlib.Core.Logic.{◌≢◌, ◌↔◌, ◌⊎◌, inl, inr}
pub use mathlib.Core.Bool.{Bool, true, false, ◌&&◌, ◌||◌, not}
pub use mathlib.Core.Option.{Option, none, some}
pub use mathlib.Core.List.{List, [], ◌∷◌, ◌++◌, map}
pub use native.Mathlib.Omega.{arith}
