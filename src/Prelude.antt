-- ===== src/Prelude.antt =====
-- The names that every component shares: the libraries' own, passed on, and those of the children.
mod Tests
mod Lists
mod Instances
mod Texts
mod Ints
mod Decimal
mod Split
pub mod HashMap
pub use Tests.*
pub use Lists.*
pub use Instances.*
unfoldable pub use Texts.*
unfoldable pub use Ints.*
unfoldable pub use Decimal.*
pub use Decimal.Padded.{zeroes, digits, tens, zeroes-show_usize}
unfoldable pub use Split.*
pub use Prim.Native.Nat.{ℕ, zero, suc, ◌+◌, ◌-◌, ◌*◌, ◌/◌, ◌%◌, ◌^◌, ◌≤◌, ◌<◌, min, max}
pub use mathlib.Core.Path.{◌≡◌, refl, sym, ap, subst, ◌∙◌}
pub use mathlib.Core.Logic.{◌≢◌, ◌↔◌, ◌⊎◌, inl, inr}
pub use mathlib.Core.Bool.{Bool, true, false, not, ◌&&◌, ◌||◌}
pub use mathlib.Core.Option.{Option, none, some}
pub use mathlib.Core.List.{List, [], ◌∷◌, ◌++◌, map}
pub use native.Mathlib.Omega.{arith}
