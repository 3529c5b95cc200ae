-- ===== src/Common.antt =====
-- The names that the other modules share: the libraries', passed on, and those of the children.
mod Tests
mod Lists
mod Chars
mod Order
mod Join
mod Outcome
mod Decimal
mod Rows
pub use Tests.*
pub use Lists.*
unfoldable pub use Chars.*
unfoldable pub use Order.{text_lt, sort, compact, is_sorted}
pub use Order.{text_lt_trans, text_lt_irrefl, text_lt_asymm, text_lt_antisymm, StrictlySorted}
pub use Order.Laws.{
  compact-sort-StrictlySorted, sort-of-StrictlySorted, compact-of-StrictlySorted,
  contains-compact-sort, length-compact-le,
}
unfoldable pub use Join.*
unfoldable pub use Decimal.*
pub use Rows.*
pub use Outcome.*
pub use Prim.Native.Nat.{ℕ, zero, suc, ◌+◌, ◌-◌, ◌*◌, ◌/◌, ◌%◌, ◌≤◌, ◌<◌}
pub use Prim.Native.Char.{Char, code}
pub use Prim.Native.String.{String}
pub use mathlib.Core.Path.{◌≡◌, refl, sym, ap, subst, ◌∙◌, ◌≡⟨◌⟩◌, ◌∎}
pub use mathlib.Core.Logic.{◌≢◌, ◌↔◌, ◌⊎◌, inl, inr}
pub use mathlib.Core.Bool.{Bool, true, false, not, ◌&&◌, ◌||◌}
pub use mathlib.Core.Option.{Option, none, some}
pub use mathlib.Core.List.{List, [], ◌∷◌, ◌++◌, map}
pub use native.Mathlib.Omega.{arith}
pub use text.Mathlib.Text.{◌==◌}
pub use text.Mathlib.TextEquality.{eq_iff}
pub use text.Mathlib.TextPositions.{eq_refl}
