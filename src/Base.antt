-- ===== src/Base.antt =====
-- The names that the other modules share: the library's, passed on, and those of the children.
mod Tests
pub mod Equality
pub mod Effects
pub mod Lists
pub mod Text
pub mod Dict
pub mod Sorting
pub mod Int
pub mod FilePath
pub mod Results
pub mod Hoare
pub use Tests.*
pub use Equality.{Eq, ◌==◌, string_eq, ==_iff}
pub use Effects.{Result, ok, err}
pub use Lists.{length, is_empty}
pub use Prim.Native.Nat.{ℕ, zero, suc, ◌+◌, ◌-◌, ◌≤◌, ◌<◌}
pub use Prim.Native.String.{String}
pub use mathlib.Core.Path.{◌≡◌, refl, sym, ap, ◌∙◌, subst}
pub use mathlib.Core.Logic.{◌≢◌, ◌↔◌, ◌⊎◌, inl, inr}
pub use mathlib.Core.Bool.{Bool, true, false, not, ◌&&◌, ◌||◌}
pub use mathlib.Core.Option.{Option, none, some}
pub use mathlib.Core.List.{List, [], ◌∷◌, ◌++◌, map}
pub use native.Mathlib.Omega.{arith}
