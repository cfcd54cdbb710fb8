-- ===== src/Prelude.antt =====
-- The names that the other modules share: the libraries' names passed on, the Boolean tests,
-- and the names of four children: texts, tables of rows and integers.
mod Tests
mod Text
mod Rows
mod Int
mod Sorting
mod Updates
mod Anys
mod Take
mod Ends
mod SortMap
mod Single
pub use Tests.*
unfoldable pub use Text.*
unfoldable pub use Rows.*
pub use Int.*
pub use Sorting.*
pub use Updates.*
pub use Anys.*
unfoldable pub use Take.*
pub use Ends.*
pub use SortMap.*
pub use Single.*
pub use Prim.Native.Nat.{ℕ, zero, suc, ◌+◌, ◌-◌, ◌*◌, ◌≤◌, ◌<◌}
pub use Prim.Native.String.{String}
pub use mathlib.Core.Path.{◌≡◌, refl, sym, ap, ◌∙◌}
pub use mathlib.Core.Logic.{◌≢◌, ◌↔◌, ◌⊎◌, inl, inr}
pub use mathlib.Core.Bool.{Bool, true, false, not, ◌&&◌, ◌||◌}
pub use mathlib.Core.Option.{Option, none, some}
pub use mathlib.Core.List.{List, [], ◌∷◌, ◌++◌, map, Memᴰ}
pub use native.Mathlib.Omega.{arith}
pub use text.Mathlib.Text.{◌==◌}
pub use text.Mathlib.TextEquality.{eq_iff}
pub use text.Mathlib.TextPositions.{eq_refl}
