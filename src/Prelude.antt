-- ===== src/Prelude.antt =====
-- What the components share: the libraries' names, Boolean tests, list helpers and total orders.
-- None of it models a file of the repository by itself; it stands for the parts of Python and of its
-- standard library that the modelled code relies on.
mod Tests
mod Lists
pub mod Order
pub mod Sorting
pub mod Dict
pub mod Perms
pub mod Within
pub mod Prefixes
pub mod Keyed
pub mod Groups
pub mod Bits
pub mod Int
pub use Tests.*
pub use Lists.*
pub use Prim.Native.Nat.{ℕ, zero, suc, ◌+◌, ◌-◌, ◌*◌, ◌/◌, ◌%◌, ◌^◌, ◌≤◌, ◌<◌, min, max}
pub use mathlib.Core.Path.{◌≡◌, refl, sym, ap, ◌∙◌, subst}
pub use mathlib.Core.Logic.{◌≢◌, ◌↔◌, ◌⊎◌, inl, inr}
pub use mathlib.Core.Bool.{Bool, true, false, ◌&&◌, ◌||◌, not}
pub use mathlib.Core.Option.{Option, none, some}
pub use mathlib.Core.List.{List, [], ◌∷◌, ◌++◌, map, Perm}
pub use native.Mathlib.Omega.{arith}
