-- ===== src/Common.antt =====
-- The names that all modules share: the libraries', passed on, and those of the children below.
mod Tests
mod Lists
mod Bytes
mod Hex
mod Utf8
mod Decimal
pub mod Scan
pub mod Count
pub mod Bits
mod Fallible
mod Rules
pub use Tests.*
pub use Lists.*
pub use Fallible.*
pub use Rules.*
unfoldable pub use Bytes.{lit, text_eq, contains, push_new}
unfoldable pub use Utf8.{is_utf8, follows, utf8_from}
unfoldable pub use Decimal.{decimal}
unfoldable pub use Hex.{hex, hex_digit}
pub use Hex.{hex_injective}
pub use Bytes.{
  Text, text_eq_iff, text_eq_refl, text_eq-false, Distinct, Distinct-append, Fresh, contains-Fresh,
  Fresh-contains,
}
pub use Prim.Native.Nat.{ℕ, zero, suc, ◌+◌, ◌-◌, ◌*◌, ◌/◌, ◌%◌, ◌^◌, ◌≤◌, ◌<◌, min, max}
pub use Prim.Native.String.{String}
pub use mathlib.Core.Path.{◌≡◌, refl, sym, ap, ◌∙◌, subst}
pub use mathlib.Core.Logic.{◌≢◌, ◌↔◌, ◌⊎◌, inl, inr}
pub use mathlib.Core.Bool.{Bool, true, false, not, ◌&&◌, ◌||◌}
pub use mathlib.Core.Option.{Option, none, some}
pub use mathlib.Core.List.{List, [], ◌∷◌, ◌++◌, map}
pub use native.Mathlib.Omega.{arith}
