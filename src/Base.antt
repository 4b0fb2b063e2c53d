-- ===== src/Base.antt =====
-- The names that all modules share: the libraries', passed on, Boolean tests on numbers, signed
-- amounts, effects with errors, database transactions and tables of rows.
mod Tests
mod Int
mod Monad
mod Rows
mod Counts
mod Invariants
pub use Tests.*
unfoldable pub use Int.*
pub use Monad.*
unfoldable pub use Rows.*
pub use Counts.*
pub use Invariants.*
pub use Prim.Native.Nat.{ℕ, zero, suc, ◌+◌, ◌-◌, ◌*◌, ◌/◌, ◌%◌, ◌^◌, ◌≤◌, ◌<◌}
pub use Prim.Native.String.{String}
pub use mathlib.Core.Path.{◌≡◌, refl, sym, ap, ◌∙◌, subst}
pub use mathlib.Core.Logic.{◌≢◌, ◌↔◌, ◌⊎◌, inl, inr}
pub use mathlib.Core.Bool.{Bool, true, false, not, ◌&&◌, ◌||◌}
pub use mathlib.Core.Option.{Option, none, some}
pub use mathlib.Core.List.{List, [], ◌∷◌, ◌++◌, map}
pub use native.Mathlib.Omega.{arith}
unfoldable pub use text.Mathlib.Text.{◌==◌ as str_eq}
