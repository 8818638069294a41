-- ===== src/Common.antt =====
-- Names and helpers that every component shares: the libraries' names passed on, tests and
-- equality, JavaScript strings, lists, and what a request returns.
mod Tests
mod Texts
mod Lists
mod Members
mod Results
mod Ints
pub use Tests.*
unfoldable pub use Texts.*
unfoldable pub use Lists.*
pub use Members.*
pub use Results.*
unfoldable pub use Ints.*
pub use Prim.Native.Nat.{ℕ, zero, suc, ◌+◌, ◌-◌, ◌*◌, ◌/◌, ◌%◌, ◌≤◌, ◌<◌, max, min}
pub use Prim.Native.String.{String}
pub use mathlib.Core.Path.{◌≡◌, refl, sym, ap, ◌∙◌, subst}
pub use mathlib.Core.Logic.{◌≢◌, ◌↔◌, ◌⊎◌, inl, inr}
pub use mathlib.Core.Bool.{Bool, true, false, not, ◌&&◌, ◌||◌}
pub use mathlib.Core.Option.{Option, none, some}
pub use mathlib.Core.List.{List, [], ◌∷◌, ◌++◌, map}
pub use native.Mathlib.Omega.{arith}
