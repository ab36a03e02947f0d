-- ===== src/OpenAiCompatible/Encode/Elements.antt =====
-- JSON values, and how the parser of src/request.rs reads one element of what `encode` of
-- src/openai_compatible.rs writes.
use nano_llm.Common.{
  ℕ, suc, ◌+◌, Text, contains, Distinct, true, false, ◌≡◌, refl, ap, ◌∙◌, Option, List, [], ◌∷◌,
  ◌++◌, is_utf8, ok,
}
use mathlib.Core.List.{append_assoc}
use nano_llm.Json.{
  JsonValue, Values, Members, Fields, nil, cons, end, member, values, fields_of, of_values,
  of_fields,
}
use nano_llm.Server.Serialize.{commas}
use nano_llm.Request.Parse.{Value, number, keys, members, elements}
use nano_llm.Request.Parse.Numbers.{Stops}
use nano_llm.Request.Parse.Steps.{members-more, members-end, elements-more, elements-end}
use nano_llm.OpenAiCompatible.Encode.{encode, encode_items, encode_members, quote, quote_bytes}
use nano_llm.OpenAiCompatible.Encode.Strings.{string-quote}

-- Texts are UTF-8, numbers are numerals of JSON, and no object has a member twice.
unfoldable mutual
  pub IsJson : JsonValue → Type 0
  IsJson JsonValue.null = Unit
  IsJson (JsonValue.bool b) = Unit
  IsJson (JsonValue.number t) = (is_utf8 t ≡ true) × (number t ≡ ok (JsonValue.number t, []))
  IsJson (JsonValue.string t) = is_utf8 t ≡ true
  IsJson (JsonValue.array items) = AreJson items
  IsJson (JsonValue.object ms) = Distinct (keys (fields_of ms)) × HoldJson ms

  pub AreJson : Values → Type 0
  AreJson nil = Unit
  AreJson (cons v items) = IsJson v × AreJson items

  pub HoldJson : Members → Type 0
  HoldJson end = Unit
  HoldJson (member key v ms) = (is_utf8 key ≡ true) × IsJson v × HoldJson ms

-- The fuel that a value takes.
unfoldable mutual
  pub cost : JsonValue → ℕ
  cost (JsonValue.array items) = suc (cost_items items)
  cost (JsonValue.object ms) = suc (cost_members ms)
  cost _ = 0

  pub cost_items : Values → ℕ
  cost_items nil = 0
  cost_items (cons v items) = suc (cost v + cost_items items)

  pub cost_members : Members → ℕ
  cost_members end = 0
  cost_members (member key v ms) = suc (cost v + cost_members ms)

pub fields_back : (ms : Members) → of_fields (fields_of ms) ≡ ms
fields_back end = refl
fields_back (member key v ms) = ap (λ l. member key v l) (fields_back ms)

pub values_back : (items : Values) → of_values (values items) ≡ items
values_back nil = refl
values_back (cons v items) = ap (λ l. cons v l) (values_back items)

-- `v` is read off its own text, with whatever may follow it.
abbrev pub ReadBy : Value → JsonValue → Type 0
ReadBy val v =
    (path : Text) (owner : Option Text) (rest : Text)
    → Stops rest
    → val path owner (encode v ++ rest) ≡ ok (v, rest)

abbrev pub SomeMember : Members → Type 0
SomeMember end = ⊥
SomeMember (member key v ms) = Unit

abbrev pub SomeItem : Values → Type 0
SomeItem nil = ⊥
SomeItem (cons v items) = Unit

module _ (val : Value) (fuel : ℕ) (path : Text) (owner : Option Text) (rest : Text) where
  pub member-read :
      (acc : Fields) (key : Text) (v : JsonValue) (ms : Members)
      → is_utf8 key ≡ true
      → ReadBy val v
      → contains (keys acc) key ≡ false
      → (SomeMember ms
          → members val fuel
              (acc ++ (key, v) ∷ [])
              path
              owner
              (commas (encode_members ms) ++ b'}' ∷ rest)
            ≡ ok (JsonValue.object (of_fields ((acc ++ (key, v) ∷ []) ++ fields_of ms)), rest))
      → members val
          (suc fuel)
          acc
          path
          owner
          (commas (encode_members (member key v ms)) ++ b'}' ∷ rest)
        ≡ ok (JsonValue.object (of_fields (acc ++ fields_of (member key v ms))), rest)
  unfolding encode_members commas quote
  member-read acc key v end u reads c h =
      ap (λ t. members val (suc fuel) acc path owner t)
        (append_assoc (quote key) (b':' ∷ encode v) (b'}' ∷ rest))
      ∙ members-end val fuel path owner acc
          ((quote_bytes key ++ b'"' ∷ []) ++ (b':' ∷ (encode v ++ b'}' ∷ rest))) key
          (encode v ++ b'}' ∷ rest) rest v (string-quote key (b':' ∷ (encode v ++ b'}' ∷ rest)) u)
          (λ p o. reads p o (b'}' ∷ rest) refl) c
  member-read acc key v (member k w ms) u reads c h =
      let next = commas (encode_members (member k w ms)) in
      ap (λ t. members val (suc fuel) acc path owner t)
        (append_assoc (quote key ++ b':' ∷ encode v) (b',' ∷ next) (b'}' ∷ rest)
          ∙ append_assoc (quote key) (b':' ∷ encode v) (b',' ∷ (next ++ b'}' ∷ rest)))
      ∙ members-more val fuel path owner acc
          ((quote_bytes key ++ b'"' ∷ []) ++ (b':' ∷ (encode v ++ b',' ∷ (next ++ b'}' ∷ rest))))
          key (encode v ++ b',' ∷ (next ++ b'}' ∷ rest)) (next ++ b'}' ∷ rest) v
          (string-quote key (b':' ∷ (encode v ++ b',' ∷ (next ++ b'}' ∷ rest))) u)
          (λ p o. reads p o (b',' ∷ (next ++ b'}' ∷ rest)) refl) c
      ∙ h tt
      ∙ ap (λ fs. ok (JsonValue.object (of_fields fs), rest))
          (append_assoc acc ((key, v) ∷ []) (fields_of (member k w ms)))

  pub item-read :
      (acc : List JsonValue) (v : JsonValue) (items : Values)
      → ReadBy val v
      → (SomeItem items
          → elements val fuel
              (acc ++ v ∷ [])
              path
              owner
              (commas (encode_items items) ++ b']' ∷ rest)
            ≡ ok (JsonValue.array (of_values ((acc ++ v ∷ []) ++ values items)), rest))
      → elements val (suc fuel) acc path owner (commas (encode_items (cons v items)) ++ b']' ∷ rest)
        ≡ ok (JsonValue.array (of_values (acc ++ values (cons v items))), rest)
  unfolding encode_items commas
  item-read acc v nil reads h =
      elements-end val fuel path owner acc (encode v ++ b']' ∷ rest) rest v
        (λ p o. reads p o (b']' ∷ rest) refl)
  item-read acc v (cons w items) reads h =
      let next = commas (encode_items (cons w items)) in
      ap (λ t. elements val (suc fuel) acc path owner t)
        (append_assoc (encode v) (b',' ∷ next) (b']' ∷ rest))
      ∙ elements-more val fuel path owner acc (encode v ++ b',' ∷ (next ++ b']' ∷ rest))
          (next ++ b']' ∷ rest) v (λ p o. reads p o (b',' ∷ (next ++ b']' ∷ rest)) refl)
      ∙ h tt
      ∙ ap (λ l. ok (JsonValue.array (of_values l), rest))
          (append_assoc acc (v ∷ []) (values (cons w items)))
