-- ===== src/Base.antt =====
-- Shared names: the libraries', passed on, and those of the children. `Tests` has the Boolean
-- tests, `Lists` the predicates on lists, `Results` the model of `Result`, `Rules` checks that stop
-- at the first fault, `Strings` the model of `str`, `Search` what its searches decide, `Order` the
-- order of texts, `Sets` and `Maps` the ordered sets and maps, `Dicts` those of Python, `Perms` permutations. `Decimal`,
-- numbers in print, is used under its own name.
mod Tests
mod Lists
mod Results
mod Rules
mod Strings
mod Search
mod Order
mod Sets
mod Maps
mod Dicts
mod Perms
pub mod Decimal
pub use Tests.*
pub use Lists.*
pub use Perms.*
pub use Results.*
pub use Rules.*
pub use Search.*
unfoldable pub use Order.*
unfoldable pub use Sets.*
unfoldable pub use Maps.*
unfoldable pub use Dicts.*
unfoldable pub use Strings.*
pub use Prim.Native.Nat.{ℕ, zero, suc, ◌+◌, ◌-◌, ◌≤◌, ◌<◌}
pub use mathlib.Core.Path.{◌≡◌, refl, sym, ap, ◌∙◌, subst}
pub use mathlib.Core.Logic.{◌≢◌, ◌↔◌, ◌⊎◌, inl, inr}
pub use mathlib.Core.Bool.{Bool, true, false, not, ◌&&◌, ◌||◌}
pub use mathlib.Core.Option.{Option, none, some}
pub use mathlib.Core.List.{List, [], ◌∷◌, ◌++◌, map}
pub use native.Mathlib.Omega.{arith}
