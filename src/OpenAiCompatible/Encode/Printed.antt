-- ===== src/OpenAiCompatible/Encode/Printed.antt =====
-- The parser of src/request.rs on what `encode` of src/openai_compatible.rs writes.
use nano_llm.Common.{
  ℕ, zero, suc, ◌<◌, Text, lit, Distinct, Fresh, Fresh-contains, Bool, true, false, ◌≡◌, ◌≢◌, refl,
  sym, ap, ◌∙◌, subst, Option, List, [], ◌∷◌, ◌++◌, is_utf8, ok, arith,
}
use mathlib.Core.List.{append_assoc, map-append}
use nano_llm.Json.{
  JsonValue, Values, Members, Fields, nil, cons, end, member, values, fields_of, of_values,
  of_fields,
}
use nano_llm.Server.Serialize.{commas}
use nano_llm.Request.Parse.{ws, keys, members, elements, value}
use nano_llm.Request.Parse.Numbers.{value-number_back, number_begins, number-empty}
use nano_llm.Request.Parse.Steps.{value-string, value-object, value-array, Begins}
use nano_llm.OpenAiCompatible.Encode.{encode, encode_items, encode_members, quote, quote_bytes}
use nano_llm.OpenAiCompatible.Encode.Strings.{string-quote}
use nano_llm.OpenAiCompatible.Encode.Elements.{
  IsJson, AreJson, HoldJson, cost, cost_items, cost_members, fields_back, values_back, ReadBy,
  SomeMember, SomeItem, member-read, item-read,
}

-- The text of a value begins like an element, whatever follows it.
pub encode-Begins : (v : JsonValue) → IsJson v → (rest : Text) → Begins (encode v ++ rest)
unfolding encode IsJson quote ws lit
encode-Begins JsonValue.null h rest = (refl, refl)
encode-Begins (JsonValue.bool true) h rest = (refl, refl)
encode-Begins (JsonValue.bool false) h rest = (refl, refl)
encode-Begins (JsonValue.number []) h rest = absurd (number-empty _ h.1)
encode-Begins (JsonValue.number (b ∷ t)) h rest =
    let (bracket, space) = number_begins b t _ h.1 in (bracket, space (t ++ rest))
encode-Begins (JsonValue.string t) h rest = (refl, refl)
encode-Begins (JsonValue.array items) h rest = (refl, refl)
encode-Begins (JsonValue.object ms) h rest = (refl, refl)

items-Begins :
    (items : Values)
    → SomeItem items
    → AreJson items
    → (rest : Text) → Begins (commas (encode_items items) ++ rest)
unfolding encode_items commas AreJson
items-Begins nil some_item h rest = absurd some_item
items-Begins (cons v nil) some_item h rest = encode-Begins v h.0 rest
items-Begins (cons v (cons w items)) some_item h rest =
    subst Begins (sym (append_assoc (encode v) (b',' ∷ commas (encode_items (cons w items))) rest))
      (encode-Begins v h.0 (b',' ∷ (commas (encode_items (cons w items)) ++ rest)))

-- A name that comes later is none of those before.
Distinct-later : (xs ys : List Text) (k : Text) → Distinct (xs ++ k ∷ ys) → Fresh k xs
Distinct-later [] ys k d = tt
Distinct-later (x ∷ xs) ys k d = (λ e. among xs ys k x d.0 (sym e), Distinct-later xs ys k d.1)
  where
    among : (xs ys : List Text) (k x : Text) → Fresh x (xs ++ k ∷ ys) → k ≢ x
    among [] ys k x f = f.0
    among (z ∷ xs) ys k x f = among xs ys k x f.1

keys-append :
    (acc : Fields) (key : Text) (v : JsonValue) (later : List Text)
    → keys (acc ++ (key, v) ∷ []) ++ later ≡ keys acc ++ key ∷ later
keys-append acc key v later =
    ap (λ l. l ++ later) (map-append (λ m. m.0) acc ((key, v) ∷ []))
    ∙ append_assoc (keys acc) (key ∷ []) later

module _ (fuel : ℕ) (path : Text) (owner : Option Text) (rest : Text) where
  null_back :
      value (suc fuel) path owner (encode JsonValue.null ++ rest) ≡ ok (JsonValue.null, rest)
  unfolding value encode lit
  null_back = refl

  bool_back :
      (b : Bool)
      → value (suc fuel) path owner (encode (JsonValue.bool b) ++ rest)
        ≡ ok (JsonValue.bool b, rest)
  unfolding value encode lit
  bool_back true = refl
  bool_back false = refl

  string_back :
      (t : Text)
      → is_utf8 t ≡ true
      → value (suc fuel) path owner (encode (JsonValue.string t) ++ rest)
        ≡ ok (JsonValue.string t, rest)
  unfolding encode quote
  string_back t u =
      value-string fuel path owner ((quote_bytes t ++ b'"' ∷ []) ++ rest) t rest
        (string-quote t rest u)

  array_back :
      (items : Values)
      → AreJson items
      → (SomeItem items
          → elements
              (λ p o r. value fuel p o r)
              fuel
              []
              path
              owner
              (commas (encode_items items) ++ b']' ∷ rest)
            ≡ ok (JsonValue.array (of_values (values items)), rest))
      → value (suc fuel) path owner (encode (JsonValue.array items) ++ rest)
        ≡ ok (JsonValue.array items, rest)
  unfolding encode
  array_back nil h k = unfold value commas in refl
  array_back (cons v items) h k =
      ap (λ t. value (suc fuel) path owner (b'[' ∷ t))
        (append_assoc (commas (encode_items (cons v items))) (b']' ∷ []) rest)
      ∙ value-array fuel path owner (commas (encode_items (cons v items)) ++ b']' ∷ rest)
          (items-Begins (cons v items) tt h (b']' ∷ rest))
      ∙ k tt
      ∙ ap (λ l. ok (JsonValue.array l, rest)) (values_back (cons v items))

  opened_object :
      (key : Text) (v : JsonValue) (ms : Members)
      → value
          (suc fuel)
          path
          owner
          (b'{' ∷ (commas (encode_members (member key v ms)) ++ b'}' ∷ rest))
        ≡ members
            (λ p o r. value fuel p o r)
            fuel
            []
            path
            owner
            (commas (encode_members (member key v ms)) ++ b'}' ∷ rest)
  unfolding encode_members commas quote
  opened_object key v end = value-object fuel path owner _
  opened_object key v (member k w ms) = value-object fuel path owner _

  object_back :
      (ms : Members)
      → (SomeMember ms
          → members
              (λ p o r. value fuel p o r)
              fuel
              []
              path
              owner
              (commas (encode_members ms) ++ b'}' ∷ rest)
            ≡ ok (JsonValue.object (of_fields (fields_of ms)), rest))
      → value (suc fuel) path owner (encode (JsonValue.object ms) ++ rest)
        ≡ ok (JsonValue.object ms, rest)
  unfolding encode
  object_back end k = unfold value commas in refl
  object_back (member key v ms) k =
      ap (λ t. value (suc fuel) path owner (b'{' ∷ t))
        (append_assoc (commas (encode_members (member key v ms))) (b'}' ∷ []) rest)
      ∙ opened_object key v ms
      ∙ k tt
      ∙ ap (λ l. ok (JsonValue.object l, rest)) (fields_back (member key v ms))

mutual
  unfolding encode IsJson cost

  pub value-encode :
      (v : JsonValue) → IsJson v → (fuel : ℕ) → cost v < fuel → ReadBy (λ p o r. value fuel p o r) v
  value-encode v h zero c path owner rest s = absurd (omega arith)
  value-encode JsonValue.null h (suc fuel) c path owner rest s = null_back fuel path owner rest
  value-encode (JsonValue.bool b) h (suc fuel) c path owner rest s =
      bool_back fuel path owner rest b
  value-encode (JsonValue.number t) h (suc fuel) c path owner rest s =
      value-number_back fuel path owner t rest (JsonValue.number t) s h.1
  value-encode (JsonValue.string t) h (suc fuel) c path owner rest s =
      string_back fuel path owner rest t h
  value-encode (JsonValue.array items) h (suc fuel) c path owner rest s =
      array_back fuel path owner rest items h λ some_item.
        items-encode items h some_item fuel fuel [] path owner rest (omega arith) (omega arith)
  value-encode (JsonValue.object ms) h (suc fuel) c path owner rest s =
      object_back fuel path owner rest ms λ some_member.
        members-encode ms h.1 some_member fuel fuel [] path owner rest (omega arith) (omega arith)
          h.0

  members-encode :
      (ms : Members)
      → HoldJson ms
      → SomeMember ms
      → (fuel loop : ℕ) (acc : Fields) (path : Text) (owner : Option Text) (rest : Text)
      → cost_members ms < suc fuel
      → cost_members ms < suc loop
      → Distinct (keys acc ++ keys (fields_of ms))
      → members
          (λ p o r. value fuel p o r)
          loop
          acc
          path
          owner
          (commas (encode_members ms) ++ b'}' ∷ rest)
        ≡ ok (JsonValue.object (of_fields (acc ++ fields_of ms)), rest)
  members-encode end h some_member fuel loop acc path owner rest c c' d = absurd some_member
  members-encode (member key v ms) h some_member fuel zero acc path owner rest c c' d =
      absurd (omega arith)
  members-encode (member key v ms) h some_member fuel (suc loop) acc path owner rest c c' d =
      member-read (λ p o r. value fuel p o r) loop path owner rest acc key v ms h.0
        (value-encode v h.1 fuel (omega arith))
        (Fresh-contains (keys acc) key (Distinct-later (keys acc) (keys (fields_of ms)) key d))
        λ some_more.
          members-encode ms h.2 some_more fuel loop (acc ++ (key, v) ∷ []) path owner rest
            (omega arith) (omega arith)
            (subst Distinct (sym (keys-append acc key v (keys (fields_of ms)))) d)

  items-encode :
      (items : Values)
      → AreJson items
      → SomeItem items
      → (fuel loop : ℕ) (acc : List JsonValue) (path : Text) (owner : Option Text) (rest : Text)
      → cost_items items < suc fuel
      → cost_items items < suc loop
      → elements
          (λ p o r. value fuel p o r)
          loop
          acc
          path
          owner
          (commas (encode_items items) ++ b']' ∷ rest)
        ≡ ok (JsonValue.array (of_values (acc ++ values items)), rest)
  items-encode nil h some_item fuel loop acc path owner rest c c' = absurd some_item
  items-encode (cons v items) h some_item fuel zero acc path owner rest c c' = absurd (omega arith)
  items-encode (cons v items) h some_item fuel (suc loop) acc path owner rest c c' =
      item-read (λ p o r. value fuel p o r) loop path owner rest acc v items
        (value-encode v h.0 fuel (omega arith))
        λ some_more.
          items-encode items h.1 some_more fuel loop (acc ++ v ∷ []) path owner rest (omega arith)
            (omega arith)
