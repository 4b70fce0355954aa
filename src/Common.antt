-- ===== src/Common.antt =====
-- The names that the other modules share: the libraries', passed on, and those of the children.
mod Tests
mod Lists
mod Ints
mod Strings
mod Maps
mod Strconv
mod Order
mod Blank
mod Unused
pub use Tests.*
pub use Lists.*
pub use Ints.*
unfoldable pub use Strings.*
unfoldable pub use Maps.*
unfoldable pub use Strconv.*
unfoldable pub use Order.{before, sorted, keys}
pub use Order.{before_irreflexive, before_trans, before_split}
unfoldable pub use Blank.{is_blank, trim_space, rune_count}
pub use Unused.{AreDifferent, AreDifferent-within, some_unused}
pub use Prim.Native.Nat.{ℕ, zero, suc, ◌+◌, ◌-◌, ◌*◌, ◌/◌, ◌%◌, ◌^◌, ◌≤◌, ◌<◌, min, max}
pub use mathlib.Core.Path.{◌≡◌, refl, sym, ap, subst, ◌∙◌}
pub use mathlib.Core.Logic.{◌≢◌, ◌↔◌, ◌⊎◌, inl, inr}
pub use mathlib.Core.Bool.{Bool, true, false, not, ◌&&◌, ◌||◌}
pub use mathlib.Core.Option.{Option, none, some}
pub use mathlib.Core.List.{List, [], ◌∷◌, ◌++◌, map, reverse}
pub use native.Mathlib.Omega.{arith}
unfoldable pub use native.Mathlib.Decide.{ℕ_discrete, dec_lt}
