-- ===== src/OpenAiCompatible/Encode.antt =====
-- The JSON that the adapter sends (src/openai_compatible.rs): encode, quote and replace_field.
pub mod Bytes
pub mod Strings
pub mod Elements
pub mod Utf8
pub mod Decoded
pub mod Printed
use nano_llm.Common.{
  ℕ, Text, lit, text_eq, true, false, List, [], ◌∷◌, ◌++◌, ltb, ◌==◌, if◌then◌else◌,
}
use nano_llm.Json.{JsonValue, Values, Members, Fields, of_fields, nil, cons, end, member}
use nano_llm.Server.Serialize.{unicode_escape, commas}

-- A byte of a character of more than one byte is itself.
unfoldable pub quote_byte : ℕ → Text
unfolding unicode_escape
quote_byte b =
    if b == b'"'
    then b'\\' ∷ b'"' ∷ []
    else if b == b'\\'
    then b'\\' ∷ b'\\' ∷ []
    else if b == 8
    then b'\\' ∷ b'b' ∷ []
    else if b == 12
    then b'\\' ∷ b'f' ∷ []
    else if b == 10
    then b'\\' ∷ b'n' ∷ []
    else if b == 13
    then b'\\' ∷ b'r' ∷ []
    else if b == 9
    then b'\\' ∷ b't' ∷ []
    else if ltb b 32
    then unicode_escape b
    else b ∷ []

unfoldable pub quote_bytes : Text → Text
unfolding quote_byte
quote_bytes [] = []
quote_bytes (b ∷ text) = quote_byte b ++ quote_bytes text

unfoldable pub quote : Text → Text
unfolding quote_bytes
quote text = b'"' ∷ (quote_bytes text ++ b'"' ∷ [])

unfoldable mutual
  unfolding quote commas

  pub encode : JsonValue → Text
  encode JsonValue.null = lit "null"
  encode (JsonValue.bool true) = lit "true"
  encode (JsonValue.bool false) = lit "false"
  encode (JsonValue.number text) = text
  encode (JsonValue.string text) = quote text
  encode (JsonValue.array items) = b'[' ∷ (commas (encode_items items) ++ b']' ∷ [])
  encode (JsonValue.object members) = b'{' ∷ (commas (encode_members members) ++ b'}' ∷ [])

  pub encode_items : Values → List Text
  encode_items nil = []
  encode_items (cons value items) = encode value ∷ encode_items items

  pub encode_members : Members → List Text
  encode_members end = []
  encode_members (member key value members) =
      (quote key ++ b':' ∷ encode value) ∷ encode_members members

unfoldable pub encode_object : Fields → Text
unfolding encode
encode_object fields = encode (JsonValue.object (of_fields fields))

-- The first member of that name gets the value, or a new last one does.
unfoldable pub replace_field : Fields → Text → JsonValue → Fields
replace_field [] name value = (name, value) ∷ []
replace_field ((key, old) ∷ fields) name value =
    if text_eq key name then (key, value) ∷ fields else (key, old) ∷ replace_field fields name value
