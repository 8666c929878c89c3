-- ===== src/Base.antt =====
-- The names that the other modules share: the libraries', passed on, and those of the children.
pub mod Tests
pub mod Lists
pub mod Search
pub mod Finds
pub mod Keys
pub mod Oldest
pub mod Text
pub mod Words
pub mod Sort
pub mod Trim
pub mod Decimal
pub mod Results
pub use Tests.*
pub use Lists.*
unfoldable pub use Search.{any, find, retain, modify_first, modify_last}
pub use Keys.{has, lacks, Distinct}
unfoldable pub use Text.{str_eq}
pub use Text.{Str, bytes, str_eq_iff, str_eq_refl, str_eq_sound, str_eq_flip}
pub use Words.*
pub use Prim.Native.Nat.{ℕ, zero, suc, ◌+◌, ◌-◌, ◌*◌, ◌/◌, ◌%◌, ◌^◌, ◌≤◌, ◌<◌, min, max}
pub use mathlib.Core.Path.{◌≡◌, refl, sym, ap, ◌∙◌}
pub use mathlib.Core.Logic.{◌≢◌, ◌↔◌, ◌⊎◌, inl, inr}
pub use mathlib.Core.Bool.{Bool, true, false, not, ◌&&◌, ◌||◌}
pub use mathlib.Core.Option.{Option, none, some}
pub use mathlib.Core.List.{List, [], ◌∷◌, ◌++◌, map, filter_map, foldl}
pub use native.Mathlib.Omega.{arith}
