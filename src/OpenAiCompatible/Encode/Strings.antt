-- ===== src/OpenAiCompatible/Encode/Strings.antt =====
-- The parser of src/request.rs on what `quote` of src/openai_compatible.rs writes.
use nano_llm.Common.{
  ℕ, zero, suc, ◌-◌, ◌<◌, ◌≤◌, Text, true, false, ◌≡◌, refl, sym, ap, ◌∙◌, inl, inr, [], ◌∷◌, ◌++◌,
  take, drop, ltb, ltb→lt, Bool-cases, ok, utf8_from, is_utf8, arith,
}
use mathlib.Core.List.{append_assoc, append-nil}
use nano_llm.Request.Parse.Strings.{push, continues, piece, width, string_from, string}
use nano_llm.OpenAiCompatible.Encode.{quote_byte, quote_bytes, quote}
use nano_llm.OpenAiCompatible.Encode.Bytes.{
  quote_byte-high, lead, first_byte, later_byte, take-quote_bytes, take-drop, incomplete, utf8,
  utf8_from-ascii, string_from-push, string_from-quote_byte,
}

continues-ascii : (b : ℕ) (more : Text) → b < 128 → continues (quote_byte b ++ more) ≡ false
unfolding quote_byte
continues-ascii b more less = ground arith

-- No written text begins inside a character.
continues-quote_bytes :
    (t more : Text) → is_utf8 t ≡ true → continues (quote_bytes t ++ b'"' ∷ more) ≡ false
unfolding quote_bytes is_utf8
continues-quote_bytes [] more u = refl
continues-quote_bytes (b ∷ t) more u = elim (Bool-cases (ltb b 128)) [
  | inl e ↦
      rw (append_assoc (quote_byte b) (quote_bytes t) (b'"' ∷ more))
        (continues-ascii b (quote_bytes t ++ b'"' ∷ more) (ltb→lt b 128 e))
  | inr e ↦
      let (k, l, h, f, u') = first_byte b t 128 191 u in
      let (_, _, high) = lead b k l h (ground (arith, e)) f in
      rw (quote_byte-high b (omega arith)) (ground arith)
]

wide-piece :
    (b : ℕ) (more : Text)
    → 128 ≤ b
    → piece b more ≡ ok (push (take (width b) (b ∷ more)) (width b - 1))
unfolding piece
wide-piece b more h = ground arith

-- A longer character is taken whole.
widened :
    (b k : ℕ) (more : Text)
    → 128 ≤ b
    → width b ≡ suc k
    → piece b more ≡ ok (push (b ∷ take k more) k)
widened b k more h w =
    wide-piece b more h
    ∙ ap (λ n. ok (push (take n (b ∷ more)) (n - 1))) w
    ∙ ap (λ n. ok (push (b ∷ take k more) n)) (omega arith)

string_from-skip :
    (out : Text) (skip b : ℕ) (more : Text)
    → string_from out (suc skip) (b ∷ more) ≡ string_from out skip more
unfolding string_from
string_from-skip out skip b more = refl

string_from-close : (out rest : Text) → string_from out 0 (b'"' ∷ rest) ≡ ok (out, rest)
unfolding string_from
string_from-close out rest = refl

-- From inside a character: what is left of it is taken already.
string_from-quote_bytes :
    (missing low high : ℕ) (t out rest : Text)
    → 128 ≤ low
    → utf8_from missing low high t ≡ true
    → string_from out missing (quote_bytes t ++ b'"' ∷ rest) ≡ ok (out ++ drop missing t, rest)
unfolding quote_bytes
string_from-quote_bytes zero low high [] out rest h u =
    string_from-close out rest ∙ ap (λ s. ok (s, rest)) (sym (append-nil out))
string_from-quote_bytes (suc missing) low high [] out rest h u =
    absurd (incomplete missing low high u)
string_from-quote_bytes (suc missing) low high (b ∷ t) out rest h u =
    let (within, u') = later_byte b missing low high t u in
    rw (quote_byte-high b (omega arith)) (
      string_from-skip out missing b (quote_bytes t ++ b'"' ∷ rest)
      ∙ string_from-quote_bytes missing 128 191 t out rest (omega arith) u')
string_from-quote_bytes zero low high (b ∷ t) out rest h u =
    let (k, l, u', f, v) = first_byte b t low high u in
    let more = quote_bytes t ++ b'"' ∷ rest in
    elim (Bool-cases (ltb b 128)) [
      | inl e ↦
          let ascii = utf8_from-ascii b k l u' t (ltb→lt b 128 e) f v in
          ap (λ s. string_from out 0 s) (append_assoc (quote_byte b) (quote_bytes t) (b'"' ∷ rest))
          ∙ string_from-quote_byte b (ltb→lt b 128 e) out more (continues-quote_bytes t rest ascii)
          ∙ string_from-quote_bytes 0 128 191 t (out ++ b ∷ []) rest (omega arith) (utf8 t ascii)
          ∙ ap (λ s. ok (s, rest)) (append_assoc out (b ∷ []) t)
      | inr e ↦
          let (low', w, high') = lead b k l u' (ground (arith, e)) f in
          rw (quote_byte-high b (omega arith)) (
            string_from-push b out more (b ∷ take k more) k (widened b k more (omega arith) w)
            ∙ string_from-quote_bytes k l u' t (out ++ b ∷ take k more) rest low' v
            ∙ ap (λ s. ok (s, rest))
                (append_assoc out (b ∷ take k more) (drop k t)
                  ∙ ap (λ s. out ++ b ∷ (s ++ drop k t))
                      (take-quote_bytes k l u' t (b'"' ∷ rest) low' v)
                  ∙ ap (λ s. out ++ b ∷ s) (take-drop k t)))
    ]

-- The parser reads a quoted text back, and leaves what follows it.
pub string-quote : (t rest : Text) → is_utf8 t ≡ true → string (quote t ++ rest) ≡ ok (t, rest)
unfolding quote string
string-quote t rest u =
    ap (λ s. string_from [] 0 s) (append_assoc (quote_bytes t) (b'"' ∷ []) rest)
    ∙ string_from-quote_bytes 0 128 191 t [] rest (omega arith) (utf8 t u)
