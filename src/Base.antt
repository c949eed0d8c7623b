-- ===== src/Base.antt =====
-- The names that every component shares: the libraries', passed on, Boolean tests, lists measured by
-- native numbers, the tables of the database and the monad of a service method.
mod Tests
mod Lists
mod Tables
mod Service
mod Texts
mod Slices
mod Sql
pub use Tests.*
pub use Lists.*
unfoldable pub use Tables.*
pub use Service.*
pub use Texts.*
pub use Slices.*
pub use Sql.*
pub use Prim.Native.Nat.{ℕ, zero, suc, ◌+◌, ◌-◌, ◌*◌, ◌/◌, ◌%◌, ◌≤◌, ◌<◌, min, max}
pub use Prim.Native.String.{String}
pub use mathlib.Core.Path.{◌≡◌, refl, sym, ap, ◌∙◌, subst}
pub use mathlib.Core.Logic.{◌≢◌, ◌↔◌, ◌⊎◌, inl, inr}
pub use mathlib.Core.Bool.{Bool, true, false, not, ◌&&◌, ◌||◌}
pub use mathlib.Core.Option.{Option, none, some}
pub use mathlib.Core.List.{List, [], ◌∷◌, ◌++◌, map}
pub use native.Mathlib.Omega.{arith}
unfoldable pub use text.Mathlib.Text.{◌==◌}
pub use text.Mathlib.TextEquality.{eq_iff}
pub use text.Mathlib.TextPositions.{eq_refl}
