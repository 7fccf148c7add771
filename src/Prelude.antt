-- ===== src/Prelude.antt =====
-- The names that the other modules share: the libraries', and those of the children.
pub mod Tests
pub mod Lists
pub mod Results
pub mod Words
pub mod Texts
pub mod Maps
pub mod Solid
pub mod Decimal
pub mod Sorting
pub use Tests.*
pub use Lists.*
pub use Results.*
pub use Words.*
pub use Texts.*
pub use Maps.*
pub use Solid.*
pub use Decimal.*
pub use Sorting.*
unfoldable pub use Decimal.{decimal}
unfoldable pub use Sorting.{text_le, insert_by, sort_by, sort_strings, keys, join, member}
unfoldable pub use Maps.{lookup, insert, remove, has}
unfoldable pub use Texts.{same, trim_space}
unfoldable pub use Words.{put_be, get_be}
pub use Prim.Native.Nat.{ℕ, zero, suc, ◌+◌, ◌-◌, ◌*◌, ◌/◌, ◌%◌, ◌^◌, ◌≤◌, ◌<◌}
pub use mathlib.Core.Path.{◌≡◌, refl, sym, ap, ◌∙◌, ap₂, subst, fun_ext}
pub use mathlib.Core.Logic.{◌≢◌, ◌↔◌, ◌⊎◌, inl, inr}
pub use mathlib.Core.Bool.{Bool, true, false, not, ◌&&◌, ◌||◌}
pub use mathlib.Core.Option.{Option, none, some}
pub use mathlib.Core.List.{List, [], ◌∷◌, ◌++◌, map, reverse, append-nil, append_assoc}
pub use native.Mathlib.Omega.{arith}
