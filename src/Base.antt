-- ===== src/Base.antt =====
-- The names that every module shares: the libraries', passed on, and those of the children.
mod Tests
mod Lists
mod GoString
pub mod Map
pub mod Sort
pub mod Hex
pub mod Ids
pub mod Decimal
pub mod Keys
pub mod Fresh
pub mod Search
pub mod SortKeys
pub use Tests.*
pub use Lists.*
unfoldable pub use GoString.{bytes_eq, has_prefix, to_lower}
pub use GoString.{Bytes, text, bytes_eq_iff, bytes_eq_refl, bytes_eq-false}
pub use Prim.Native.Nat.{ℕ, zero, suc, ◌+◌, ◌-◌, ◌*◌, ◌/◌, ◌%◌, ◌^◌, ◌≤◌, ◌<◌}
pub use Prim.Native.String.{String}
pub use mathlib.Core.Path.{◌≡◌, refl, sym, ap, ◌∙◌, subst}
pub use mathlib.Core.Logic.{◌≢◌, ◌↔◌, ◌⊎◌, inl, inr}
pub use mathlib.Core.Bool.{Bool, true, false, not, ◌&&◌, ◌||◌}
pub use mathlib.Core.Option.{Option, none, some}
pub use mathlib.Core.List.{List, [], ◌∷◌, ◌++◌, map, reverse}
pub use native.Mathlib.Omega.{arith}
