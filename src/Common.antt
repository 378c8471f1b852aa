-- ===== src/Common.antt =====
-- What the components share: library names passed on, tests, generic equality, lists and maps.
pub mod Tests
pub mod Lists
pub mod JsMap
pub mod CodeUnits
pub mod Rows
pub mod Decimal
pub use Tests.*
pub use Lists.*
pub use CodeUnits.*
pub use Rows.*
pub use Decimal.*
pub use Prim.Native.Nat.{ℕ, zero, suc, ◌+◌, ◌-◌, ◌≤◌, ◌<◌}
pub use Prim.Native.String.{String}
pub use mathlib.Core.Path.{◌≡◌, refl, sym, ap, ◌∙◌, subst}
pub use mathlib.Core.Logic.{◌≢◌, ◌↔◌, ◌⊎◌, inl, inr}
pub use mathlib.Core.Bool.{Bool, true, false, not, ◌&&◌, ◌||◌}
pub use mathlib.Core.Option.{Option, none, some}
pub use mathlib.Core.List.{List, [], ◌∷◌, ◌++◌, map}
pub use native.Mathlib.Omega.{arith}
