-- ===== src/Base.antt =====
-- The names that the component modules share: the libraries', passed on, and those of the
-- children: Boolean tests, lists over the native numbers, Go maps with string keys, Go strings,
-- the ways a Go function can end, and Go's signed 64-bit integers.
mod Tests
mod Lists
mod Maps
mod Text
mod Split
mod Buffers
mod TextOrder
mod Join
mod Outcomes
mod Decimal
mod ReadBack
mod Utf8
pub mod Int
pub use Tests.*
pub use Lists.*
unfoldable pub use Maps.*
unfoldable pub use Text.*
pub use Split.*
pub use Buffers.*
pub use TextOrder.*
pub use Join.*
unfoldable pub use Decimal.{itoa, atoi, atoi_value}
pub use ReadBack.{IsInt64, atoi-itoa}
unfoldable pub use Utf8.{utf8}
pub use Outcomes.*
pub use Prim.Native.Nat.{ℕ, zero, suc, ◌+◌, ◌-◌, ◌*◌, ◌/◌, ◌%◌, ◌^◌, ◌≤◌, ◌<◌}
pub use Prim.Native.String.{String}
pub use mathlib.Core.Path.{◌≡◌, refl, sym, ap, ◌∙◌}
pub use mathlib.Core.Logic.{◌≢◌, ◌↔◌, ◌⊎◌, inl, inr}
pub use mathlib.Core.Bool.{Bool, true, false, ◌&&◌, ◌||◌, not}
pub use mathlib.Core.Option.{Option, none, some}
pub use mathlib.Core.List.{List, [], ◌∷◌, ◌++◌, map}
pub use native.Mathlib.Omega.{arith}
pub use text.Mathlib.TextEquality.{eq_iff}
pub use text.Mathlib.TextPositions.{eq_refl}
