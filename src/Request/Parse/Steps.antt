-- ===== src/Request/Parse/Steps.antt =====
-- One round of the loops of the parser in src/request.rs, and how a value begins.
use nano_llm.Common.{
  ℕ, suc, Text, contains, false, ◌≡◌, refl, ap, Option, some, List, [], ◌∷◌, ◌++◌, length, ◌==◌,
  if◌then◌else◌, is_empty, ok, ◌>>=◌,
}
use nano_llm.Json.{JsonValue, Fields, of_fields, of_values}
use nano_llm.Request.Shape.{path_member, path_index}
use nano_llm.Request.Parse.Strings.{string, take_byte}
use nano_llm.Request.Parse.{ws, Value, keys, members, elements, value}

pub value-string :
    (fuel : ℕ) (path : Text) (owner : Option Text) (more t rest : Text)
    → string (b'"' ∷ more) ≡ ok (t, rest)
    → value (suc fuel) path owner (b'"' ∷ more) ≡ ok (JsonValue.string t, rest)
unfolding value
value-string fuel path owner more t rest e =
    ap (λ m. m >>= λ (text, left). ok (JsonValue.string text, left)) e

-- An object with a member, or an array with an element: the loop begins.
pub value-object :
    (fuel : ℕ) (path : Text) (owner : Option Text) (more : Text)
    → value (suc fuel) path owner (b'{' ∷ b'"' ∷ more)
      ≡ members (λ p o r. value fuel p o r) fuel [] path owner (b'"' ∷ more)
unfolding value
value-object fuel path owner more = refl

-- What an element begins with.
abbrev pub Begins : Text → Type 0
Begins [] = ⊥
Begins (b ∷ more) = ((b == b']') ≡ false) × (ws (b ∷ more) ≡ b ∷ more)

pub value-array :
    (fuel : ℕ) (path : Text) (owner : Option Text) (text : Text)
    → Begins text
    → value (suc fuel) path owner (b'[' ∷ text)
      ≡ elements (λ p o r. value fuel p o r) fuel [] path owner text
unfolding value
value-array fuel path owner [] h = absurd h
value-array fuel path owner (b ∷ more) h = rw h.1 (rw h.0 refl)

module _ (val : Value) (fuel : ℕ) (path : Text) (owner : Option Text) where
  pub members-more :
      (fields : Fields) (more key r2 rest : Text) (v : JsonValue)
      → string (b'"' ∷ more) ≡ ok (key, b':' ∷ r2)
      → ((p : Text) (o : Option Text) → val p o r2 ≡ ok (v, b',' ∷ rest))
      → contains (keys fields) key ≡ false
      → members val (suc fuel) fields path owner (b'"' ∷ more)
        ≡ members val fuel (fields ++ (key, v) ∷ []) path owner rest
  unfolding members take_byte
  members-more fields more key r2 rest v s e c =
      rw s (rw (e (path_member path key) (if is_empty path then some key else owner)) (rw c refl))

  pub members-end :
      (fields : Fields) (more key r2 rest : Text) (v : JsonValue)
      → string (b'"' ∷ more) ≡ ok (key, b':' ∷ r2)
      → ((p : Text) (o : Option Text) → val p o r2 ≡ ok (v, b'}' ∷ rest))
      → contains (keys fields) key ≡ false
      → members val (suc fuel) fields path owner (b'"' ∷ more)
        ≡ ok (JsonValue.object (of_fields (fields ++ (key, v) ∷ [])), rest)
  unfolding members take_byte
  members-end fields more key r2 rest v s e c =
      rw s (rw (e (path_member path key) (if is_empty path then some key else owner)) (rw c refl))

  pub elements-more :
      (items : List JsonValue) (text rest : Text) (v : JsonValue)
      → ((p : Text) (o : Option Text) → val p o text ≡ ok (v, b',' ∷ rest))
      → elements val (suc fuel) items path owner text
        ≡ elements val fuel (items ++ v ∷ []) path owner rest
  unfolding elements
  elements-more items text rest v e = rw (e (path_index path (length items)) owner) refl

  pub elements-end :
      (items : List JsonValue) (text rest : Text) (v : JsonValue)
      → ((p : Text) (o : Option Text) → val p o text ≡ ok (v, b']' ∷ rest))
      → elements val (suc fuel) items path owner text
        ≡ ok (JsonValue.array (of_values (items ++ v ∷ [])), rest)
  unfolding elements
  elements-end items text rest v e = rw (e (path_index path (length items)) owner) refl
