-- ===== src/Common/Scan.antt =====
-- What Rust's `str` and `char` offer and the configuration and the server use: splitting, trimming
-- and classes of characters, over the bytes of UTF-8.
pub mod Split
use Prim.Native.Nat.{ℕ, zero, suc, ◌+◌, ◌-◌}
use mathlib.Core.Bool.{Bool, true, false, ◌&&◌, ◌||◌}
use mathlib.Core.Option.{Option, none, some}
use mathlib.Core.List.{List, [], ◌∷◌}
use nano_llm.Common.Tests.{◌==◌, leb, ltb, if◌then◌else◌}
use nano_llm.Common.Lists.{is_empty, any}
use nano_llm.Common.Bytes.{Text}

-- What stands before and after the first such byte.
unfoldable pub split_at_first : ℕ → Text → Option (Text × Text)
split_at_first byte [] = none
split_at_first byte (b ∷ bs) =
    let rest = split_at_first byte bs in
    if b == byte
    then some ([], bs)
    else elim rest [ none ↦ none | some (before, after) ↦ some (b ∷ before, after) ]

-- str::split on one byte: at least one part.
unfoldable pub split : ℕ → Text → List Text
split byte [] = [] ∷ []
split byte (b ∷ bs) =
    let rest = split byte bs in
    if b == byte
    then [] ∷ rest
    else elim rest [ [] ↦ (b ∷ []) ∷ [] | part ∷ parts ↦ (b ∷ part) ∷ parts ]

-- str::strip_prefix
unfoldable pub strip_prefix : Text → Text → Option Text
strip_prefix [] text = some text
strip_prefix (p ∷ prefix) [] = none
strip_prefix (p ∷ prefix) (b ∷ text) = if b == p then strip_prefix prefix text else none

-- str::trim_end_matches
unfoldable pub trim_end_matches : ℕ → Text → Text
trim_end_matches byte [] = []
trim_end_matches byte (b ∷ bs) =
    let rest = trim_end_matches byte bs in if b == byte && is_empty rest then [] else b ∷ rest

-- str::contains with an ASCII character
abbrev pub has_byte : ℕ → Text → Bool
has_byte byte text = any (λ b. b == byte) text

unfoldable pub is_ascii_digit : ℕ → Bool
is_ascii_digit b = leb b'0' b && leb b b'9'

unfoldable pub is_ascii_alphabetic : ℕ → Bool
is_ascii_alphabetic b = (leb b'A' b && leb b b'Z') || (leb b'a' b && leb b b'z')

unfoldable pub is_ascii_alphanumeric : ℕ → Bool
unfolding is_ascii_digit is_ascii_alphabetic
is_ascii_alphanumeric b = is_ascii_digit b || is_ascii_alphabetic b

unfoldable pub is_ascii_hexdigit : ℕ → Bool
unfolding is_ascii_digit
is_ascii_hexdigit b = is_ascii_digit b || (leb b'a' b && leb b b'f') || (leb b'A' b && leb b b'F')

unfoldable pub is_ascii_control : ℕ → Bool
is_ascii_control b = ltb b 32 || b == 127

-- The three bytes are a character of general punctuation that is white space: U+2000 to U+200A,
-- U+2028, U+2029, U+202F and U+205F; or U+1680, or U+3000.
wide_space : ℕ → ℕ → ℕ → Bool
wide_space a b c =
    a == 225 && b == 154 && c == 128
    || a == 226 && b == 128 && (leb 128 c && leb c 138 || c == 168 || c == 169 || c == 175)
    || a == 226 && b == 129 && c == 159
    || a == 227 && b == 128 && c == 128

-- A character for which char::is_whitespace holds starts here.
starts_space : Text → Bool
unfolding wide_space
starts_space [] = false
starts_space (a ∷ []) = a == b' ' || leb 9 a && leb a 13
starts_space (a ∷ b ∷ []) = a == b' ' || leb 9 a && leb a 13 || a == 194 && (b == 133 || b == 160)
starts_space (a ∷ b ∷ c ∷ text) =
    a == b' ' || leb 9 a && leb a 13 || a == 194 && (b == 133 || b == 160) || wide_space a b c

-- `text.chars().any(char::is_whitespace)`, on UTF-8: a character's first byte is no byte inside
-- another.
unfoldable pub has_whitespace : Text → Bool
unfolding starts_space
has_whitespace [] = false
has_whitespace (b ∷ text) = starts_space (b ∷ text) || has_whitespace text
