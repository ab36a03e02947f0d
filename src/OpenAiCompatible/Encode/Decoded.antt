-- ===== src/OpenAiCompatible/Encode/Decoded.antt =====
-- The round trip from `encode` of src/openai_compatible.rs to the decoder of src/request.rs.
use nano_llm.Common.{
  ℕ, suc, ◌+◌, ◌≤◌, Text, Distinct, true, ◌≡◌, refl, sym, ap, ◌∙◌, subst, none, [], ◌∷◌, ◌++◌,
  length, length-append, is_utf8, ok, ◌>>=◌, arith,
}
use mathlib.Core.List.{append-nil}
use nano_llm.Json.{JsonValue, Values, Members, Fields, nil, cons, end, member, fields_of, of_fields}
use nano_llm.Server.Serialize.{commas}
use nano_llm.Request.Parse.{ws, keys, value, decode_json_value, only_object, decode_json_object}
use nano_llm.Request.Parse.Steps.{Begins}
use nano_llm.OpenAiCompatible.Encode.{quote, encode, encode_items, encode_members, encode_object}
use nano_llm.OpenAiCompatible.Encode.Elements.{IsJson, HoldJson, cost, cost_items, cost_members}
use nano_llm.OpenAiCompatible.Encode.Printed.{encode-Begins, value-encode}
use nano_llm.OpenAiCompatible.Encode.Utf8.{encode-utf8}

-- One more text among those with commas between them.
module _ (n : ℕ) (x : Text) (enough : n ≤ length x) where
  item-cost :
      (items : Values)
      → cost_items items ≤ suc (length (commas (encode_items items)))
      → suc (n + cost_items items) ≤ suc (length (commas (x ∷ encode_items items)))
  unfolding cost_items encode_items commas
  item-cost nil h = omega arith
  item-cost (cons v items) h =
      omega (arith, length-append {0} x (b',' ∷ commas (encode_items (cons v items))))

  member-cost :
      (ms : Members)
      → cost_members ms ≤ suc (length (commas (encode_members ms)))
      → suc (n + cost_members ms) ≤ suc (length (commas (x ∷ encode_members ms)))
  unfolding cost_members encode_members commas
  member-cost end h = omega arith
  member-cost (member key v ms) h =
      omega (arith, length-append {0} x (b',' ∷ commas (encode_members (member key v ms))))

mutual
  unfolding encode cost

  cost-le-length : (v : JsonValue) → cost v ≤ length (encode v)
  cost-le-length (JsonValue.array items) =
      omega
        (arith, items-le-length items, length-append {0} (commas (encode_items items)) (b']' ∷ []))
  cost-le-length (JsonValue.object ms) =
      omega
        (arith, members-le-length ms, length-append {0} (commas (encode_members ms)) (b'}' ∷ []))
  cost-le-length JsonValue.null = omega arith
  cost-le-length (JsonValue.bool b) = omega arith
  cost-le-length (JsonValue.number t) = omega arith
  cost-le-length (JsonValue.string t) = omega arith

  items-le-length : (items : Values) → cost_items items ≤ suc (length (commas (encode_items items)))
  items-le-length nil = omega arith
  items-le-length (cons v items) =
      item-cost (cost v) (encode v) (cost-le-length v) items (items-le-length items)

  members-le-length : (ms : Members) → cost_members ms ≤ suc (length (commas (encode_members ms)))
  members-le-length end = omega arith
  members-le-length (member key v ms) =
      member-cost (cost v) (quote key ++ b':' ∷ encode v)
        (omega (arith, cost-le-length v, length-append {0} (quote key) (b':' ∷ encode v))) ms
        (members-le-length ms)

ws-Begins : (t : Text) → Begins t → ws t ≡ t
ws-Begins [] h = absurd h
ws-Begins (b ∷ t) h = h.1

decoded :
    (fuel : ℕ) (bytes : Text) (v : JsonValue)
    → is_utf8 bytes ≡ true
    → ws bytes ≡ bytes
    → value fuel [] none bytes ≡ ok (v, [])
    → decode_json_value fuel bytes ≡ ok v
unfolding decode_json_value ws
decoded fuel bytes v u w e = rw u (rw w (rw e refl))

-- On more fuel than there are bytes, decoding the text of a value gives the value, if its texts are
-- UTF-8, its numbers numerals and the names in each of its objects distinct.
pub decode_json_value-encode :
    (v : JsonValue) → IsJson v → decode_json_value (suc (length (encode v))) (encode v) ≡ ok v
decode_json_value-encode v h =
    decoded (suc (length (encode v))) (encode v) v (encode-utf8 v h)
      (ws-Begins (encode v) (subst Begins (append-nil (encode v)) (encode-Begins v h [])))
      (subst (λ t. value (suc (length (encode v))) [] none t ≡ ok (v, [])) (append-nil (encode v))
        (value-encode v h (suc (length (encode v))) (omega (arith, cost-le-length v)) [] none []
          tt))

fields_of-of_fields : (fields : Fields) → fields_of (of_fields fields) ≡ fields
fields_of-of_fields [] = refl
fields_of-of_fields ((key, v) ∷ fields) = ap (λ l. (key, v) ∷ l) (fields_of-of_fields fields)

-- The same for the members of an object.
pub decode_json_object-encode_object :
    (fields : Fields)
    → Distinct (keys fields)
    → HoldJson (of_fields fields)
    → decode_json_object (suc (length (encode_object fields))) (encode_object fields) ≡ ok fields
unfolding decode_json_object encode_object IsJson
decode_json_object-encode_object fields d h =
    ap (λ m. m >>= λ v. only_object v)
      (decode_json_value-encode (JsonValue.object (of_fields fields))
        (subst (λ l. Distinct (keys l)) (sym (fields_of-of_fields fields)) d, h))
    ∙ ap ok (fields_of-of_fields fields)
