-- ===== src/Common.antt =====
-- The names that the other modules share: the libraries', passed on, and those of the children.
mod Tests
mod Lists
mod First
mod Unique
mod Assoc
mod Sort
mod Text
mod Names
mod Maps
pub use Tests.*
unfoldable pub use Lists.{any, keep}
pub use Lists.*
unfoldable pub use First.{find?, update_first, delete_first}
pub use First.*
pub use Unique.*
pub use Maps.*
unfoldable pub use Assoc.{lookup, insert, remove}
pub use Assoc.*
unfoldable pub use Sort.{sort}
pub use Sort.*
unfoldable pub use Text.{to_lower, trim_space, equal_fold, text_less}
pub use Text.*
unfoldable pub use Names.{matches_name}
pub use Prim.Native.Nat.{ℕ, zero, suc, ◌+◌, ◌-◌, ◌*◌, ◌≤◌, ◌<◌, max}
pub use Prim.Native.String.{String}
pub use mathlib.Core.Path.{◌≡◌, refl, sym, ap, ◌∙◌}
pub use mathlib.Core.Logic.{◌≢◌, ◌↔◌, ◌⊎◌, inl, inr}
pub use mathlib.Core.Bool.{Bool, true, false, not, ◌&&◌, ◌||◌}
pub use mathlib.Core.Option.{Option, none, some}
pub use mathlib.Core.List.{List, [], ◌∷◌, ◌++◌, map}
pub use native.Mathlib.Omega.{arith}
pub use text.Mathlib.Text.{◌==◌}
pub use text.Mathlib.TextEquality.{eq_iff}
pub use text.Mathlib.TextPositions.{eq_refl}
