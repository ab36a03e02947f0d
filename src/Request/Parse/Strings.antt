-- ===== src/Request/Parse/Strings.antt =====
-- JSON strings of the parser in src/request.rs. The parser's position is the text that is left; a
-- string is read byte by byte, with `skip` bytes that an escape or a character has already taken.
pub mod Ends
use nano_llm.Common.{
  ℕ, zero, suc, ◌+◌, ◌-◌, ◌*◌, ◌/◌, ◌%◌, Text, lit, text_eq, Bool, true, false, not, ◌&&◌, ◌||◌,
  Option, none, some, List, [], ◌∷◌, ◌++◌, all, take, drop, length, leb, ltb, ◌==◌, if◌then◌else◌,
  Result, ok, err, ensure, ◌>>=◌, ◌>>◌,
}
use nano_llm.Request.{DecodeError}
use nano_llm.Request.Outcome.{Fault}

-- Why the parser stops: with an error, with a panic, or because the fuel of its model ran out.
pub data Stop : Type 0 where
  fault : Fault → Stop
  out_of_fuel : Stop

abbrev pub Parse : Type 0 → Type 0
Parse A = Result Stop (A × Text)

abbrev pub malformed : Text → Stop
malformed message = fault (Fault.refused (DecodeError.invalid_json message))

-- A text slice ends inside a character.
abbrev pub continues : Text → Bool
continues [] = false
continues (b ∷ bs) = leb 128 b && leb b 191

unfoldable pub is_hex : ℕ → Bool
is_hex b = (leb b'0' b && leb b b'9') || (leb b'a' b && leb b b'f') || (leb b'A' b && leb b b'F')

hex_value : ℕ → ℕ
hex_value b = if leb b b'9' then b - b'0' else if leb b'a' b then b - b'a' + 10 else b - b'A' + 10

unfoldable pub from_hex : ℕ → Text → ℕ
unfolding hex_value
from_hex n [] = n
from_hex n (b ∷ bs) = from_hex (n * 16 + hex_value b) bs

-- The number that the next four bytes spell. Slicing them off panics if a character goes on after
-- them.
unfoldable pub hex4 : Text → Result Stop ℕ
unfolding is_hex from_hex
hex4 rest = do
  ensure (leb 4 (length rest)) (malformed (lit "invalid JSON unicode escape"))
  ensure (not (continues (drop 4 rest))) (fault Fault.panic)
  ensure (all is_hex (take 4 rest)) (malformed (lit "invalid JSON unicode escape"))
  ok (from_hex 0 (take 4 rest))

-- The bytes of a character.
utf8 : ℕ → Text
utf8 c =
    if ltb c 128
    then c ∷ []
    else if ltb c 2048
    then (192 + c / 64) ∷ (128 + c % 64) ∷ []
    else if ltb c 65536
    then (224 + c / 4096) ∷ (128 + (c / 64) % 64) ∷ (128 + c % 64) ∷ []
    else (240 + c / 262144) ∷ (128 + (c / 4096) % 64) ∷ (128 + (c / 64) % 64) ∷ (128 + c % 64) ∷ []

-- What one byte of a string does: it ends it, or gives bytes and takes more of the input.
pub data Piece : Type 0 where
  close : Piece
  push : (bytes : Text) (skip : ℕ) → Piece

abbrev bad_escape : Stop
bad_escape = malformed (lit "invalid JSON unicode escape")

-- The second half of a surrogate pair: `first` and what follows it.
low_surrogate : ℕ → Text → Result Stop Piece
unfolding hex4 utf8
low_surrogate first rest = do
  ensure (text_eq (take 2 rest) (b'\\' ∷ b'u' ∷ [])) bad_escape
  second ← hex4 (drop 2 rest)
  ensure (leb 56320 second && leb second 57343) bad_escape
  ok (push (utf8 (65536 + (first - 55296) * 1024 + (second - 56320))) 11)

unfoldable pub unicode : ℕ → Text → Result Stop Piece
unfolding low_surrogate utf8
unicode first rest =
    if leb 55296 first && leb first 56319
    then low_surrogate first rest
    else if leb 56320 first && leb first 57343
    then err bad_escape
    else ok (push (utf8 first) 5)

-- The input after a backslash.
unfoldable pub escape : Text → Result Stop Piece
unfolding unicode hex4
escape [] = err (malformed (lit "unterminated JSON escape"))
escape (b ∷ bs) =
    if b == b'"'
    then ok (push (b'"' ∷ []) 1)
    else if b == b'\\'
    then ok (push (b'\\' ∷ []) 1)
    else if b == b'/'
    then ok (push (b'/' ∷ []) 1)
    else if b == b'b'
    then ok (push (8 ∷ []) 1)
    else if b == b'f'
    then ok (push (12 ∷ []) 1)
    else if b == b'n'
    then ok (push (10 ∷ []) 1)
    else if b == b'r'
    then ok (push (13 ∷ []) 1)
    else if b == b't'
    then ok (push (9 ∷ []) 1)
    else if b == b'u'
    then (hex4 bs >>= λ first. unicode first (drop 4 bs))
    else err (malformed (lit "invalid JSON escape"))

-- char::len_utf8 of the character that the byte begins.
unfoldable pub width : ℕ → ℕ
width b = if ltb b 128 then 1 else if ltb b 224 then 2 else if ltb b 240 then 3 else 4

unfoldable pub piece : ℕ → Text → Result Stop Piece
unfolding escape width
piece b bs =
    if b == b'"'
    then ok close
    else if b == b'\\'
    then escape bs
    else if ltb b 32
    then err (malformed (lit "control character in JSON string"))
    else ok (push (take (width b) (b ∷ bs)) (width b - 1))

-- The loop of Parser::string after the opening quote.
unfoldable pub string_from : (out : Text) → (skip : ℕ) → Text → Parse Text
unfolding piece
string_from out skip [] = err (malformed (lit "unterminated JSON string"))
string_from out (suc skip) (b ∷ bs) = string_from out skip bs
string_from out zero (b ∷ bs) = do
  next ← piece b bs
  elim next [ close ↦ ok (out, bs) | push bytes skip ↦ string_from (out ++ bytes) skip bs ]

-- Parser::take
unfoldable pub take_byte : ℕ → Text → Result Stop Text
take_byte expected [] = err (malformed (lit "malformed JSON"))
take_byte expected (b ∷ bs) =
    if b == expected then ok bs else err (malformed (lit "malformed JSON"))

unfoldable pub string : Text → Parse Text
unfolding string_from take_byte
string rest = take_byte b'"' rest >>= λ body. string_from [] 0 body
