-- ===== src/Prelude.antt =====
-- The names that the other modules share: those of the libraries, Boolean tests on numbers, and
-- the children's lists, texts, integers, results and JSON values.
pub mod Lists
pub mod Sorting
pub mod Texts
pub mod Int
pub mod Results
pub mod Json
pub mod Library
pub mod JsonEquality
mod Tests
pub use Tests.*
pub use Lists.{length, take, All, all, contains}
unfoldable pub use Lists.{filter, sort_by}
pub use Texts.{is_empty, concat, join}
unfoldable pub use Texts.{strip, take_chars, last_chars, decimal, decimal_int}
pub use Int.{ℤ, pos, negsuc, is_zero}
pub use Results.{Result, ok, err, Exception}
pub use Prim.Native.Nat.{ℕ, zero, suc, ◌+◌, ◌-◌, ◌*◌, ◌/◌, ◌%◌, ◌≤◌, ◌<◌}
pub use Prim.Native.String.{String}
pub use mathlib.Core.Path.{◌≡◌, refl, sym, ap, ap₂, subst, ◌∙◌}
pub use mathlib.Core.Logic.{◌≢◌, ◌↔◌, ◌⊎◌, inl, inr}
pub use mathlib.Core.Bool.{Bool, true, false, not, ◌&&◌, ◌||◌}
pub use mathlib.Core.Option.{Option, none, some}
pub use mathlib.Core.List.{List, [], ◌∷◌, ◌++◌, map}
pub use native.Mathlib.Omega.{arith}
pub use text.Mathlib.Text.{◌==◌}
pub use text.Mathlib.TextEquality.{eq_iff}
pub use text.Mathlib.TextPositions.{eq_refl}
