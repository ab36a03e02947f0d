-- ===== src/Common/Utf8.antt =====
-- core::str::from_utf8 succeeds: Rust's table of well-formed UTF-8.
use Prim.Native.Nat.{ℕ, zero, suc}
use mathlib.Core.Bool.{Bool, true, false, ◌&&◌}
use mathlib.Core.List.{[], ◌∷◌}
use mathlib.Core.Option.{Option, none, some}
use nano_llm.Common.Tests.{◌==◌, ltb, leb, if◌then◌else◌}
use nano_llm.Common.Bytes.{Text}

-- After a first byte: how many bytes must follow, and the range of the next one.
unfoldable pub follows : ℕ → Option (ℕ × ℕ × ℕ)
follows b =
    if ltb b 128
    then some (0, 128, 191)
    else if leb 194 b && leb b 223
    then some (1, 128, 191)
    else if b == 224
    then some (2, 160, 191)
    else if b == 237
    then some (2, 128, 159)
    else if leb 225 b && leb b 239
    then some (2, 128, 191)
    else if b == 240
    then some (3, 144, 191)
    else if b == 244
    then some (3, 128, 143)
    else if leb 241 b && leb b 243
    then some (3, 128, 191)
    else none

unfoldable pub utf8_from : (missing low high : ℕ) → Text → Bool
unfolding follows
utf8_from zero low high [] = true
utf8_from (suc missing) low high [] = false
utf8_from zero low high (b ∷ bs) = elim (follows b) [
  | none ↦ false
  | some (missing, low', high') ↦ utf8_from missing low' high' bs
]
utf8_from (suc missing) low high (b ∷ bs) = leb low b && leb b high && utf8_from missing 128 191 bs

unfoldable pub is_utf8 : Text → Bool
unfolding utf8_from
is_utf8 text = utf8_from 0 128 191 text
