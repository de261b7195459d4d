-- ===== src/Base.antt =====
-- The names that the other modules share: the libraries', passed on, and those of the children.
mod Tests
mod Lists
mod Keys
mod Bytes
mod Int
mod Slices
mod Words
mod Decimal
mod Utf8
mod Trim
pub use Tests.*
pub use Lists.*
pub use Keys.*
unfoldable pub use Bytes.*
pub use Int.*
pub use Slices.*
unfoldable pub use Words.*
unfoldable pub use Decimal.*
unfoldable pub use Utf8.*
unfoldable pub use Trim.{trim, trim_start, space_at, reverse}
pub use Trim.{trim-nil}
pub use Prim.Native.Nat.{ℕ, zero, suc, ◌+◌, ◌-◌, ◌*◌, ◌/◌, ◌%◌, ◌^◌, ◌≤◌, ◌<◌, max, min}
pub use mathlib.Core.Path.{◌≡◌, refl, sym, ap, subst, ◌∙◌}
pub use mathlib.Core.Logic.{◌≢◌, ◌↔◌, ◌⊎◌, inl, inr}
pub use mathlib.Core.Bool.{Bool, true, false, not, ◌&&◌, ◌||◌}
pub use mathlib.Core.Option.{Option, none, some}
pub use mathlib.Core.List.{List, [], ◌∷◌, ◌++◌, map}
pub use native.Mathlib.Omega.{arith}
