-- ===== src/Request/Parse.antt =====
-- The JSON parser of src/request.rs. Each nested value and each round of a loop takes one unit of
-- fuel.
mod Tests
pub mod Strings
pub mod Steps
pub mod Numbers
pub mod Distinct
pub mod Total
use nano_llm.Common.{
  ℕ, zero, suc, ◌+◌, ◌-◌, Text, lit, text_eq, contains, is_utf8, Bool, true, false, not, ◌&&◌, ◌||◌,
  Option, none, some, List, [], ◌∷◌, ◌++◌, map, length, leb, ◌==◌, if◌then◌else◌, is_empty, take,
  Result, ok, err, ensure, ◌>>=◌, ◌>>◌,
}
use nano_llm.Json.{JsonValue, Fields, fields_of, of_values, of_fields}
use nano_llm.Request.{DecodeError}
use nano_llm.Request.Outcome.{Fault}
use nano_llm.Request.Shape.{path_member, path_index}
use nano_llm.Request.Parse.Strings.{Stop, fault, out_of_fuel, Parse, malformed, string, take_byte}

unfoldable pub ws : Text → Text
ws [] = []
ws (b ∷ bs) = let rest = ws bs in if b == b' ' || b == 10 || b == 13 || b == 9 then rest else b ∷ bs

starts_with : Text → Text → Bool
starts_with [] text = true
starts_with (p ∷ prefix) [] = false
starts_with (p ∷ prefix) (b ∷ text) = p == b && starts_with prefix text

drop_text : Text → Text → Text
drop_text [] text = text
drop_text (p ∷ prefix) [] = []
drop_text (p ∷ prefix) (b ∷ text) = drop_text prefix text

unfoldable pub literal : Text → JsonValue → Text → Parse JsonValue
unfolding starts_with drop_text
literal word value rest =
    if starts_with word rest
    then ok (value, drop_text word rest)
    else err (malformed (lit "malformed JSON"))

is_digit : ℕ → Bool
is_digit b = leb b'0' b && leb b b'9'

-- The digits at the front, and what follows them.
digits : Text → Text × Text
unfolding is_digit
digits [] = ([], [])
digits (b ∷ bs) =
    let (more, rest) = digits bs in if is_digit b then (b ∷ more, rest) else ([], b ∷ bs)

bad_number : Stop
bad_number = malformed (lit "malformed JSON number")

-- One digit at least.
some_digits : Text → Parse Text
unfolding digits bad_number
some_digits rest = do ensure (not (is_empty (digits rest).0)) bad_number; ok (digits rest)

-- Each of these gives the bytes that it takes.
sign : Text → Text × Text
sign [] = ([], [])
sign (b ∷ bs) = if b == b'-' then (b ∷ [], bs) else ([], b ∷ bs)

whole : Text → Parse Text
unfolding digits bad_number is_digit
whole [] = err bad_number
whole (b ∷ bs) =
    if b == b'0'
    then ok (b ∷ [], bs)
    else if is_digit b
    then ok (digits (b ∷ bs))
    else err bad_number

fraction : Text → Parse Text
unfolding some_digits
fraction [] = ok ([], [])
fraction (b ∷ bs) =
    if b == b'.'
    then (some_digits bs >>= λ (found, rest). ok (b ∷ found, rest))
    else ok ([], b ∷ bs)

exponent_sign : Text → Text × Text
exponent_sign [] = ([], [])
exponent_sign (b ∷ bs) = if b == b'+' || b == b'-' then (b ∷ [], bs) else ([], b ∷ bs)

exponent : Text → Parse Text
unfolding some_digits exponent_sign
exponent [] = ok ([], [])
exponent (b ∷ bs) =
    if b == b'e' || b == b'E'
    then (some_digits (exponent_sign bs).1 >>= λ (found, rest).
        ok (b ∷ ((exponent_sign bs).0 ++ found), rest))
    else ok ([], b ∷ bs)

unfoldable pub number : Text → Parse JsonValue
unfolding sign whole fraction exponent
number rest = do
  let (minus, r1) = sign rest
  (front, r2) ← whole r1
  (middle, r3) ← fraction r2
  (back, r4) ← exponent r3
  ok (JsonValue.number (minus ++ front ++ middle ++ back), r4)

abbrev pub Value : Type 0
Value = (path : Text) → (owner : Option Text) → Text → Parse JsonValue

-- The error of a member that occurs twice.
unfoldable pub duplicate : Text → Option Text → Text → Stop
duplicate path owner key =
    let blamed = if is_empty path then key else elim owner [ none ↦ key | some name ↦ name ] in
    fault (
      Fault.refused (
        DecodeError.validation (some blamed)
          (lit "duplicate member at '" ++ path_member path key ++ lit "'")))

abbrev pub keys : Fields → List Text
keys fields = map (λ m. m.0) fields

-- After a member: another one, or the end of the object.
after_member : Fields → Text → (Text → Parse JsonValue) → Parse JsonValue
after_member fields [] next = err (malformed (lit "malformed JSON object"))
after_member fields (b ∷ bs) next =
    if b == b','
    then next bs
    else if b == b'}'
    then ok (JsonValue.object (of_fields fields), bs)
    else err (malformed (lit "malformed JSON object"))

-- The member's name, if the text begins with a quote.
member_key : Text → Parse Text
member_key [] = err (malformed (lit "malformed JSON object"))
member_key (b ∷ bs) =
    if b == b'"' then string (b ∷ bs) else err (malformed (lit "malformed JSON object"))

-- The loop of Parser::object.
unfoldable pub members :
    Value → ℕ → Fields → (path : Text) → (owner : Option Text) → Text → Parse JsonValue
unfolding ws take_byte duplicate after_member member_key
members value zero fields path owner rest = err out_of_fuel
members value (suc fuel) fields path owner rest = do
  (key, r1) ← member_key (ws rest)
  r2 ← take_byte b':' (ws r1)
  (v, r3) ← value (path_member path key) (if is_empty path then some key else owner) r2
  ensure (not (contains (keys fields) key)) (duplicate path owner key)
  after_member (fields ++ (key, v) ∷ []) (ws r3)
      (λ r. members value fuel (fields ++ (key, v) ∷ []) path owner r)

-- After an element: another one, or the end of the array.
after_element : List JsonValue → Text → (Text → Parse JsonValue) → Parse JsonValue
after_element items [] next = err (malformed (lit "malformed JSON array"))
after_element items (b ∷ bs) next =
    if b == b','
    then next bs
    else if b == b']'
    then ok (JsonValue.array (of_values items), bs)
    else err (malformed (lit "malformed JSON array"))

-- The loop of Parser::array.
unfoldable pub elements :
    Value → ℕ → List JsonValue → (path : Text) → (owner : Option Text) → Text → Parse JsonValue
unfolding ws after_element
elements value zero items path owner rest = err out_of_fuel
elements value (suc fuel) items path owner rest = do
  (v, r1) ← value (path_index path (length items)) owner rest
  after_element (items ++ v ∷ []) (ws r1) (λ r. elements value fuel (items ++ v ∷ []) path owner r)

-- What follows an opening bracket: the closing one, or the loop.
opened : ℕ → JsonValue → Text → Parse JsonValue → Parse JsonValue
opened closing empty [] loop = loop
opened closing empty (b ∷ bs) loop = if b == closing then ok (empty, bs) else loop

-- The match on the first byte.
unfoldable pub start : Value → ℕ → (path : Text) → (owner : Option Text) → Text → Parse JsonValue
unfolding literal number members elements opened is_digit
start value fuel path owner [] = err (malformed (lit "malformed JSON"))
start value fuel path owner (b ∷ bs) =
    if b == b'{'
    then opened b'}' (JsonValue.object (of_fields [])) (ws bs)
        (members value fuel [] path owner (ws bs))
    else if b == b'['
    then opened b']' (JsonValue.array (of_values [])) (ws bs)
        (elements value fuel [] path owner (ws bs))
    else if b == b'"'
    then (string (b ∷ bs) >>= λ (text, rest). ok (JsonValue.string text, rest))
    else if b == b't'
    then literal (lit "true") (JsonValue.bool true) (b ∷ bs)
    else if b == b'f'
    then literal (lit "false") (JsonValue.bool false) (b ∷ bs)
    else if b == b'n'
    then literal (lit "null") JsonValue.null (b ∷ bs)
    else if b == b'-' || is_digit b
    then number (b ∷ bs)
    else err (malformed (lit "malformed JSON"))

-- Parser::value
unfoldable pub value : ℕ → Value
unfolding start ws
value zero path owner rest = err out_of_fuel
value (suc fuel) path owner rest = start (λ p o r. value fuel p o r) fuel path owner (ws rest)

whole_text : JsonValue × Text → Result Stop JsonValue
unfolding ws
whole_text (v, rest) = do
  ensure (is_empty (ws rest)) (malformed (lit "request body contains trailing data"))
  ok v

unfoldable pub decode_json_value : ℕ → Text → Result Stop JsonValue
unfolding value whole_text
decode_json_value fuel bytes = do
  ensure (is_utf8 bytes) (malformed (lit "request body is not valid UTF-8"))
  parsed ← value fuel [] none (ws bytes)
  whole_text parsed

unfoldable pub only_object : JsonValue → Result Stop Fields
only_object (JsonValue.object members) = ok (fields_of members)
only_object _ = err (malformed (lit "request JSON must be an object"))

unfoldable pub decode_json_object : ℕ → Text → Result Stop Fields
unfolding decode_json_value only_object
decode_json_object fuel bytes = decode_json_value fuel bytes >>= only_object
