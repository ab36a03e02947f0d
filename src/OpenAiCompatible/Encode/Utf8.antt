-- ===== src/OpenAiCompatible/Encode/Utf8.antt =====
-- UTF-8 in the text of `encode` of src/openai_compatible.rs.
use nano_llm.Common.{
  ℕ, zero, suc, ◌<◌, ◌≤◌, Text, lit, true, false, ◌≡◌, refl, sym, ◌∙◌, inl, inr, some, List, [],
  ◌∷◌, ◌++◌, All, ltb, ltb→lt, Bool-cases, follows, utf8_from, is_utf8, hex_digit, arith,
}
use nano_llm.Json.{JsonValue, Values, Members, nil, cons, end, member}
use nano_llm.Server.Serialize.{commas}
use nano_llm.OpenAiCompatible.Encode.{
  quote_byte, quote_bytes, quote, encode, encode_items, encode_members,
}
use nano_llm.OpenAiCompatible.Encode.Bytes.{
  holds_below, holds_below-lt, first_byte, later_byte, lead, quote_byte-high, utf8_from-ascii,
  follows-ascii, incomplete,
}
use nano_llm.OpenAiCompatible.Encode.Elements.{IsJson, AreJson, HoldJson}

-- Between characters the range of the next byte does not matter.
between : (low high : ℕ) (t : Text) → utf8_from 0 low high t ≡ is_utf8 t
unfolding is_utf8 utf8_from
between low high [] = refl
between low high (b ∷ t) = refl

at_first_byte :
    (b k low high : ℕ) (t : Text)
    → follows b ≡ some (k, low, high)
    → is_utf8 (b ∷ t) ≡ utf8_from k low high t
unfolding is_utf8
at_first_byte b k low high t f = rw (f, utf8_from) refl

-- A byte inside a character stays one, whatever follows.
inside :
    (b k low high : ℕ) (s t : Text)
    → utf8_from (suc k) low high (b ∷ s) ≡ true
    → utf8_from k 128 191 t ≡ true
    → utf8_from (suc k) low high (b ∷ t) ≡ true
unfolding utf8_from
inside b k low high s t u v = ground arith

utf8_from-append :
    (missing low high : ℕ) (s t : Text)
    → utf8_from missing low high s ≡ true
    → is_utf8 t ≡ true
    → utf8_from missing low high (s ++ t) ≡ true
utf8_from-append zero low high [] t u v = between low high t ∙ v
utf8_from-append (suc missing) low high [] t u v = absurd (incomplete missing low high u)
utf8_from-append zero low high (b ∷ s) t u v =
    let (k, l, h, f, u') = first_byte b s low high u in
    between low high (b ∷ (s ++ t))
    ∙ at_first_byte b k l h (s ++ t) f
    ∙ utf8_from-append k l h s t u' v
utf8_from-append (suc missing) low high (b ∷ s) t u v =
    let (_, u') = later_byte b missing low high s u in
    inside b missing low high s (s ++ t) u (utf8_from-append missing 128 191 s t u' v)

pub is_utf8-append : (s t : Text) → is_utf8 s ≡ true → is_utf8 t ≡ true → is_utf8 (s ++ t) ≡ true
unfolding is_utf8
is_utf8-append s t u v = utf8_from-append 0 128 191 s t u v

empty_utf8 : is_utf8 [] ≡ true
unfolding is_utf8
empty_utf8 = refl

word_utf8 : is_utf8 (lit "null") ≡ true
unfolding is_utf8 lit
word_utf8 = refl

true_utf8 : is_utf8 (lit "true") ≡ true
unfolding is_utf8 lit
true_utf8 = refl

false_utf8 : is_utf8 (lit "false") ≡ true
unfolding is_utf8 lit
false_utf8 = refl

ascii_utf8 : (b : ℕ) (t : Text) → b < 128 → is_utf8 (b ∷ t) ≡ is_utf8 t
ascii_utf8 b t h = at_first_byte b 0 128 191 t (follows-ascii b h) ∙ between 128 191 t

ascii_table : holds_below (λ b. is_utf8 (quote_byte b)) 128 ≡ true
unfolding holds_below is_utf8 quote_byte hex_digit
ascii_table = refl

utf8_from-quote_bytes :
    (missing low high : ℕ) (t : Text)
    → 128 ≤ low
    → utf8_from missing low high t ≡ true
    → utf8_from missing low high (quote_bytes t) ≡ true
unfolding quote_bytes
utf8_from-quote_bytes missing low high [] h u = u
utf8_from-quote_bytes (suc missing) low high (b ∷ t) h u =
    let (within, u') = later_byte b missing low high t u in
    rw (quote_byte-high b (omega arith)) (
      inside b missing low high t (quote_bytes t) u
        (utf8_from-quote_bytes missing 128 191 t (omega arith) u'))
utf8_from-quote_bytes zero low high (b ∷ t) h u =
    let (k, l, m, f, v) = first_byte b t low high u in
    between low high (quote_byte b ++ quote_bytes t) ∙ elim (Bool-cases (ltb b 128)) [
      | inl e ↦
          let small = ltb→lt b 128 e in
          let rest = utf8_from-ascii b k l m t small f v in
          is_utf8-append (quote_byte b) (quote_bytes t)
            (holds_below-lt (λ c. is_utf8 (quote_byte c)) 128 b ascii_table small)
            (sym (between 128 191 (quote_bytes t))
              ∙ utf8_from-quote_bytes 0 128 191 t (omega arith) (between 128 191 t ∙ rest))
      | inr e ↦
          let (low', _, _) = lead b k l m (ground (arith, e)) f in
          rw (quote_byte-high b (ground (arith, e)))
            (at_first_byte b k l m (quote_bytes t) f ∙ utf8_from-quote_bytes k l m t low' v)
    ]

quote-utf8 : (t : Text) → is_utf8 t ≡ true → is_utf8 (quote t) ≡ true
unfolding quote
quote-utf8 t u =
    is_utf8-append (b'"' ∷ quote_bytes t) (b'"' ∷ [])
      (ascii_utf8 b'"' (quote_bytes t) (omega arith)
        ∙ sym (between 128 191 (quote_bytes t))
        ∙ utf8_from-quote_bytes 0 128 191 t (omega arith) (between 128 191 t ∙ u))
      (ascii_utf8 b'"' [] (omega arith) ∙ empty_utf8)

commas-utf8 : (xs : List Text) → All (λ x. is_utf8 x ≡ true) xs → is_utf8 (commas xs) ≡ true
unfolding commas
commas-utf8 [] h = empty_utf8
commas-utf8 (x ∷ []) h = h.0
commas-utf8 (x ∷ y ∷ xs) h =
    is_utf8-append x (b',' ∷ commas (y ∷ xs)) h.0
      (ascii_utf8 b',' (commas (y ∷ xs)) (omega arith) ∙ commas-utf8 (y ∷ xs) h.1)

-- Between two ASCII bytes.
bracketed :
    (b c : ℕ) (t : Text) → b < 128 → c < 128 → is_utf8 t ≡ true → is_utf8 (b ∷ (t ++ c ∷ [])) ≡ true
bracketed b c t h k u =
    ascii_utf8 b (t ++ c ∷ []) h ∙ is_utf8-append t (c ∷ []) u (ascii_utf8 c [] k ∙ empty_utf8)

mutual
  unfolding encode IsJson

  pub encode-utf8 : (v : JsonValue) → IsJson v → is_utf8 (encode v) ≡ true
  encode-utf8 JsonValue.null h = word_utf8
  encode-utf8 (JsonValue.bool true) h = true_utf8
  encode-utf8 (JsonValue.bool false) h = false_utf8
  encode-utf8 (JsonValue.number t) h = h.0
  encode-utf8 (JsonValue.string t) h = quote-utf8 t h
  encode-utf8 (JsonValue.array items) h =
      bracketed b'[' b']' _ (omega arith) (omega arith)
        (commas-utf8 (encode_items items) (items-utf8 items h))
  encode-utf8 (JsonValue.object ms) h =
      bracketed b'{' b'}' _ (omega arith) (omega arith)
        (commas-utf8 (encode_members ms) (members-utf8 ms h.1))

  items-utf8 : (items : Values) → AreJson items → All (λ x. is_utf8 x ≡ true) (encode_items items)
  items-utf8 nil h = tt
  items-utf8 (cons v items) h = (encode-utf8 v h.0, items-utf8 items h.1)

  members-utf8 : (ms : Members) → HoldJson ms → All (λ x. is_utf8 x ≡ true) (encode_members ms)
  members-utf8 end h = tt
  members-utf8 (member key v ms) h = (
    is_utf8-append (quote key) (b':' ∷ encode v) (quote-utf8 key h.0)
        (ascii_utf8 b':' (encode v) (omega arith) ∙ encode-utf8 v h.1),
    members-utf8 ms h.2,
  )
