-- ===== src/Prelude.antt =====
-- The names that the other modules share: the libraries' names, passed on, and the tests on
-- numbers, the list functions, the text functions and the members of lists of its children.
mod Tests
mod Lists
mod Members
mod Text
mod Split
mod TextLaws
pub use Tests.*
pub use Lists.*
pub use Members.*
unfoldable pub use Text.*
unfoldable pub use Split.*
pub use TextLaws.*
pub use Text.Digits.*
pub use Prim.Native.Nat.{ℕ, zero, suc, ◌+◌, ◌-◌, ◌*◌, ◌/◌, ◌%◌, ◌≤◌, ◌<◌, min, max}
pub use Prim.Native.String.{String}
pub use mathlib.Core.Path.{◌≡◌, refl, sym, ap, ◌∙◌, subst}
pub use mathlib.Core.Logic.{◌≢◌, ◌↔◌, ◌⊎◌, inl, inr}
pub use mathlib.Core.Bool.{Bool, true, false, not, ◌&&◌, ◌||◌}
pub use mathlib.Core.Option.{Option, none, some}
pub use mathlib.Core.List.{List, [], ◌∷◌, ◌++◌, map, reverse, Memᴰ}
pub use native.Mathlib.Omega.{arith}
pub use text.Mathlib.Text.{◌==◌}
pub use text.Mathlib.TextEquality.{eq_iff}
pub use text.Mathlib.TextPositions.{eq_refl}
