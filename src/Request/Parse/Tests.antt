-- ===== src/Request/Parse/Tests.antt =====
-- Bodies that the parser of src/request.rs reads.
use nano_llm.Common.{
  ◌<◌, Text, lit, contains, is_utf8, ◌≡◌, ◌≢◌, refl, [], ◌∷◌, length, ok, err, arith, text_eq,
}
use nano_llm.Json.{JsonValue, nil, cons, end, member}
use nano_llm.Request.Outcome.{Fault}
use nano_llm.Request.Parse.Strings.{fault, out_of_fuel, string, take_byte}
use nano_llm.Request.Parse.{
  ws, literal, number, members, elements, start, value, decode_json_value, decode_json_object,
}
use nano_llm.Request.Parse.Distinct.{NoDuplicates, decode_json_value-NoDuplicates}
use nano_llm.Request.Parse.Total.{decode_json_object_total}

abbrev body : Text
body = lit "{\"n\": [-1.5e3, null], \"s\": \"\\u0041\"}"

abbrev parsed : JsonValue
parsed = JsonValue.object (
    member (lit "n")
      (JsonValue.array (cons (JsonValue.number (lit "-1.5e3")) (cons JsonValue.null nil)))
      (member (lit "s") (JsonValue.string (lit "A")) end))

parse_run : decode_json_value 50 body ≡ ok parsed
unfolding decode_json_value value start members elements number literal ws string lit is_utf8
    contains text_eq take_byte
parse_run = refl

decode_json_value-NoDuplicates_example : NoDuplicates parsed
decode_json_value-NoDuplicates_example = decode_json_value-NoDuplicates 50 body parsed parse_run

short_enough : length body < 50
unfolding lit
short_enough = omega arith

decode_json_object_total_example : decode_json_object 50 body ≢ err out_of_fuel
decode_json_object_total_example = decode_json_object_total 50 body short_enough

-- A two-byte character after three of the four digits makes the slice panic.
hex4_panics :
    string (b'"' ∷ b'\\' ∷ b'u' ∷ b'0' ∷ b'0' ∷ b'0' ∷ 195 ∷ 169 ∷ b'"' ∷ [])
    ≡ err (fault Fault.panic)
unfolding string
hex4_panics = refl
