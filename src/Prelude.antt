-- ===== src/Prelude.antt =====
-- Shared by all modules: library names passed on, tests, tables, texts, integers and errors.
mod Tests
mod Tables
mod Texts
mod Raising
mod Rounding
mod Keys
mod Trim
mod Sorting
pub mod Int
pub use Tests.*
unfoldable pub use Tables.*
unfoldable pub use Texts.*
pub use Raising.*
unfoldable pub use Rounding.*
pub use Keys.*
pub use Trim.*
unfoldable pub use Sorting.*
pub use Prim.Native.Nat.{ℕ, zero, suc, ◌+◌, ◌-◌, ◌*◌, ◌/◌, ◌%◌, ◌≤◌, ◌<◌, max, min}
pub use Prim.Native.String.{String}
pub use mathlib.Core.Path.{◌≡◌, refl, sym, ap, ◌∙◌, subst, fun_ext}
pub use mathlib.Core.Logic.{◌≢◌, ◌↔◌, ◌⊎◌, inl, inr}
pub use mathlib.Core.Bool.{Bool, true, false, ◌&&◌, ◌||◌, not}
pub use mathlib.Core.Option.{Option, none, some}
pub use mathlib.Core.List.{List, [], ◌∷◌, ◌++◌, map}
pub use native.Mathlib.Omega.{arith}
pub use text.Mathlib.Text.{◌==◌ as str_eq}
pub use text.Mathlib.TextEquality.{eq_iff as str_eq_iff}
