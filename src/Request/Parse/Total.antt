-- ===== src/Request/Parse/Total.antt =====
-- The parser of src/request.rs ends: fuel for one more than the bytes of the input suffices.
use nano_llm.Common.{
  ℕ, zero, suc, ◌+◌, ◌≤◌, ◌<◌, Text, lit, contains, is_utf8, true, false, not, ◌≢◌, inl, inr,
  Option, none, List, [], ◌∷◌, ◌++◌, length, ◌==◌, ◌||◌, is_empty, Result, err, arith, Bool-cases,
}
use nano_llm.Json.{JsonValue, Fields}
use nano_llm.Request.Shape.{path_member, path_index}
use nano_llm.Request.Parse.Strings.{Stop, out_of_fuel, Parse, string, take_byte}
use nano_llm.Request.Parse.Strings.Ends.{
  Ends, Left, Any, Ends-ok, Ends-malformed, Ends-bind, Ends-ensure, Ends-if, Ends-mono,
  take_byte-Ends, string-Ends, ends, faults,
}
use nano_llm.Request.Parse.{
  ws, starts_with, drop_text, literal, digits, some_digits, sign, whole, fraction, exponent_sign,
  exponent, number, Value, keys, after_member, member_key, members, after_element, elements, opened,
  start, value, is_digit, bad_number, whole_text, only_object, decode_json_value,
  decode_json_object,
}

pub ws_shorter : (rest : Text) → length (ws rest) ≤ length rest
unfolding ws
ws_shorter [] = omega arith
ws_shorter (b ∷ bs) = elim (Bool-cases (b == b' ' || b == 10 || b == 13 || b == 9)) [
  | inl e ↦ rw e (omega (arith, ws_shorter bs))
  | inr e ↦ rw e (omega arith)
]

digits_shorter : (rest : Text) → length (digits rest).1 ≤ length rest
unfolding digits
digits_shorter [] = omega arith
digits_shorter (b ∷ bs) = elim (Bool-cases (is_digit b)) [
  | inl e ↦ rw e (omega (arith, digits_shorter bs))
  | inr e ↦ rw e (omega arith)
]

-- At most n bytes are left.
abbrev Within : {A : Type 0} → ℕ → A × Text → Type 0
Within n (a, rest) = length rest ≤ n

drop_text_shorter : (word text : Text) → length (drop_text word text) ≤ length text
unfolding drop_text
drop_text_shorter [] text = omega arith
drop_text_shorter (p ∷ word) [] = omega arith
drop_text_shorter (p ∷ word) (b ∷ text) = omega (arith, drop_text_shorter word text)

literal-Ends :
    (word : Text) (v : JsonValue) (b : ℕ) (bs : Text)
    → 0 < length word
    → Ends (Left (length (b ∷ bs))) (literal word v (b ∷ bs))
unfolding literal drop_text
literal-Ends [] v b bs h = absurd (omega (arith, h))
literal-Ends (p ∷ word) v b bs h =
    Ends-if (starts_with (p ∷ word) (b ∷ bs)) _ _
      (Ends-ok _ (omega (arith, drop_text_shorter word bs))) (Ends-malformed _)

some_digits-Ends : (rest : Text) → Ends (Within (length rest)) (some_digits rest)
unfolding some_digits bad_number
some_digits-Ends rest =
    Ends-ensure (not (is_empty (digits rest).0)) _ _ (Ends-ok _ (digits_shorter rest))

sign_shorter : (rest : Text) → length (sign rest).1 ≤ length rest
unfolding sign
sign_shorter [] = omega arith
sign_shorter (b ∷ bs) = elim (Bool-cases (b == b'-')) [
  | inl e ↦ rw e (omega arith)
  | inr e ↦ rw e (omega arith)
]

exponent_sign_shorter : (rest : Text) → length (exponent_sign rest).1 ≤ length rest
unfolding exponent_sign
exponent_sign_shorter [] = omega arith
exponent_sign_shorter (b ∷ bs) = elim (Bool-cases (b == b'+' || b == b'-')) [
  | inl e ↦ rw e (omega arith)
  | inr e ↦ rw e (omega arith)
]

whole-Ends : (rest : Text) → Ends (Left (length rest)) (whole rest)
unfolding whole bad_number digits
whole-Ends [] = Ends-malformed _
whole-Ends (b ∷ bs) =
    Ends-if (b == b'0') _ _ (Ends-ok (b ∷ [], bs) (omega arith)) (elim (Bool-cases (is_digit b)) [
      | inl e ↦ rw e (Ends-ok _ (omega (arith, digits_shorter bs)))
      | inr e ↦ rw e (Ends-malformed _)
    ])

fraction-Ends : (rest : Text) → Ends (Within (length rest)) (fraction rest)
unfolding fraction
fraction-Ends [] = Ends-ok ([], []) (omega arith)
fraction-Ends (b ∷ bs) =
    Ends-if (b == b'.') _ _
      (Ends-bind (some_digits bs) _ (some_digits-Ends bs)
        λ (found, rest) h. Ends-ok (b ∷ found, rest) (omega (arith, h)))
      (Ends-ok ([], b ∷ bs) (omega arith))

exponent-Ends : (rest : Text) → Ends (Within (length rest)) (exponent rest)
unfolding exponent
exponent-Ends [] = Ends-ok ([], []) (omega arith)
exponent-Ends (b ∷ bs) =
    Ends-if (b == b'e' || b == b'E') _ _
      (Ends-bind (some_digits (exponent_sign bs).1) _ (some_digits-Ends (exponent_sign bs).1)
        λ (found, rest) h.
          Ends-ok (b ∷ ((exponent_sign bs).0 ++ found), rest)
            (omega (arith, h, exponent_sign_shorter bs)))
      (Ends-ok ([], b ∷ bs) (omega arith))

number-Ends : (rest : Text) → Ends (Left (length rest)) (number rest)
unfolding number
number-Ends rest = Ends-bind (whole (sign rest).1) _ (whole-Ends (sign rest).1) λ (front, r2) less.
    Ends-bind (fraction r2) _ (fraction-Ends r2) λ (middle, r3) h.
      Ends-bind (exponent r3) _ (exponent-Ends r3) λ (back, r4) k.
        Ends-ok (JsonValue.number _, r4) (omega (arith, less, h, k, sign_shorter rest))

member_key-Ends : (rest : Text) → Ends (Left (length rest)) (member_key rest)
unfolding member_key
member_key-Ends [] = Ends-malformed _
member_key-Ends (b ∷ bs) = Ends-if (b == b'"') _ _ (string-Ends (b ∷ bs)) (Ends-malformed _)

after_member-Ends :
    (n : ℕ) (fs : Fields) (rest : Text) (next : Text → Parse JsonValue)
    → length rest ≤ n
    → ((r : Text) → length r < n → Ends (Left n) (next r))
    → Ends (Left n) (after_member fs rest next)
unfolding after_member
after_member-Ends n fs [] next h k = Ends-malformed _
after_member-Ends n fs (b ∷ bs) next h k =
    Ends-if (b == b',') _ _ (k bs (omega (arith, h)))
      (Ends-if (b == b'}') _ _ (Ends-ok (_, bs) (omega (arith, h))) (Ends-malformed _))

after_element-Ends :
    (n : ℕ) (vs : List JsonValue) (rest : Text) (next : Text → Parse JsonValue)
    → length rest ≤ n
    → ((r : Text) → length r < n → Ends (Left n) (next r))
    → Ends (Left n) (after_element vs rest next)
unfolding after_element
after_element-Ends n vs [] next h k = Ends-malformed _
after_element-Ends n vs (b ∷ bs) next h k =
    Ends-if (b == b',') _ _ (k bs (omega (arith, h)))
      (Ends-if (b == b']') _ _ (Ends-ok (_, bs) (omega (arith, h))) (Ends-malformed _))

-- The values inside end, given `most` units of fuel, on texts shorter than that.
module _ (next : Value) (most : ℕ)
    (each : (p : Text) (o : Option Text) (r : Text)
      → length r < most
      → Ends (Left (length r)) (next p o r)) where
  members-Ends :
      (fuel : ℕ) (fs : Fields) (path : Text) (owner : Option Text) (rest : Text)
      → length rest < fuel
      → length rest < most
      → Ends (Left (length rest)) (members next fuel fs path owner rest)
  unfolding members
  members-Ends zero fs path owner rest h k = absurd (omega (arith, h))
  members-Ends (suc fuel) fs path owner rest h k =
      Ends-bind (member_key (ws rest)) _ (member_key-Ends (ws rest)) λ (key, r1) l1.
        Ends-bind (take_byte b':' (ws r1)) _ (take_byte-Ends b':' (ws r1)) λ r2 l2.
          let in_reach : length r2 + 2 ≤ length rest =
            omega (arith, l1, l2, ws_shorter rest, ws_shorter r1) in
          Ends-bind (next (path_member path key) _ r2) _ (each _ _ r2 (omega (arith, in_reach, k)))
            λ (v, r3) l3. Ends-ensure (not (contains (keys fs) key)) _ _ (
              after_member-Ends (length rest) (fs ++ (key, v) ∷ []) (ws r3) _
                (omega (arith, in_reach, l3, ws_shorter r3))
                λ r less.
                  Ends-mono (λ _ l. omega (arith, l, less))
                    (members-Ends fuel (fs ++ (key, v) ∷ []) path owner r (omega (arith, h, less))
                      (omega (arith, k, less))))

  elements-Ends :
      (fuel : ℕ) (vs : List JsonValue) (path : Text) (owner : Option Text) (rest : Text)
      → length rest < fuel
      → length rest < most
      → Ends (Left (length rest)) (elements next fuel vs path owner rest)
  unfolding elements
  elements-Ends zero vs path owner rest h k = absurd (omega (arith, h))
  elements-Ends (suc fuel) vs path owner rest h k =
      Ends-bind (next (path_index path (length vs)) owner rest) _ (each _ _ rest k) λ (v, r1) l1.
        after_element-Ends (length rest) (vs ++ v ∷ []) (ws r1) _ (omega (arith, l1, ws_shorter r1))
          λ r less.
            Ends-mono (λ _ l. omega (arith, l, less))
              (elements-Ends fuel (vs ++ v ∷ []) path owner r (omega (arith, h, less))
                (omega (arith, k, less)))

opened-Ends :
    (n closing : ℕ) (empty : JsonValue) (rest : Text) (loop : Parse JsonValue)
    → length rest < n
    → Ends (Left n) loop
    → Ends (Left n) (opened closing empty rest loop)
unfolding opened
opened-Ends n closing empty [] loop h k = k
opened-Ends n closing empty (b ∷ bs) loop h k =
    Ends-if (b == closing) _ _ (Ends-ok (empty, bs) (omega (arith, h))) k

looped :
    (bs : Text) (m : Parse JsonValue)
    → Ends (Left (length (ws bs))) m
    → Ends (Left (suc (length bs))) m
looped bs m h = Ends-mono (λ _ l. omega (arith, l, ws_shorter bs)) h

start-Ends :
    (next : Value) (fuel : ℕ) (path : Text) (owner : Option Text) (rest : Text)
    → ((p : Text) (o : Option Text) (r : Text)
        → length r < fuel
        → Ends (Left (length r)) (next p o r))
    → length rest ≤ fuel
    → Ends (Left (length rest)) (start next fuel path owner rest)
unfolding start
start-Ends next fuel path owner [] each h = Ends-malformed _
start-Ends next fuel path owner (b ∷ bs) each h =
    let inside : length (ws bs) < fuel = omega (arith, h, ws_shorter bs) in
    let less : length (ws bs) < suc (length bs) = omega (arith, ws_shorter bs) in
    Ends-if (b == b'{') _ _
      (opened-Ends (suc (length bs)) b'}' _ (ws bs) _ less
        (looped bs _ (members-Ends next fuel each fuel [] path owner (ws bs) inside inside)))
      (Ends-if (b == b'[') _ _
        (opened-Ends (suc (length bs)) b']' _ (ws bs) _ less
          (looped bs _ (elements-Ends next fuel each fuel [] path owner (ws bs) inside inside)))
        (Ends-if (b == b'"') _ _
          (Ends-bind (string (b ∷ bs)) _ (string-Ends (b ∷ bs))
            λ (text, r) l. Ends-ok (JsonValue.string text, r) l)
          (Ends-if (b == b't') _ _
            (literal-Ends (lit "true") (JsonValue.bool true) b bs (unfold lit in omega arith))
            (Ends-if (b == b'f') _ _
              (literal-Ends (lit "false") (JsonValue.bool false) b bs (unfold lit in omega arith))
              (Ends-if (b == b'n') _ _
                (literal-Ends (lit "null") JsonValue.null b bs (unfold lit in omega arith))
                (Ends-if (b == b'-' || is_digit b) _ _ (number-Ends (b ∷ bs))
                  (Ends-malformed _)))))))

pub value-Ends :
    (fuel : ℕ) (path : Text) (owner : Option Text) (rest : Text)
    → length rest < fuel
    → Ends (Left (length rest)) (value fuel path owner rest)
unfolding value
value-Ends zero path owner rest h = absurd (omega (arith, h))
value-Ends (suc fuel) path owner rest h =
    Ends-mono (λ _ l. omega (arith, l, ws_shorter rest))
      (start-Ends (λ p o r. value fuel p o r) fuel path owner (ws rest)
        (λ p o r l. value-Ends fuel p o r l) (omega (arith, h, ws_shorter rest)))

an_object : (v : JsonValue) → Ends Any (only_object v)
unfolding only_object
an_object JsonValue.null = Ends-malformed _
an_object (JsonValue.bool b) = Ends-malformed _
an_object (JsonValue.number t) = Ends-malformed _
an_object (JsonValue.string t) = Ends-malformed _
an_object (JsonValue.array vs) = Ends-malformed _
an_object (JsonValue.object ms) = Ends-ok _ tt

decoded : (fuel : ℕ) (bytes : Text) → length bytes < fuel → Ends Any (decode_json_value fuel bytes)
unfolding decode_json_value whole_text
decoded fuel bytes h = Ends-ensure (is_utf8 bytes) _ _ (
    Ends-bind (value fuel [] none (ws bytes)) _
      (value-Ends fuel [] none (ws bytes) (omega (arith, h, ws_shorter bytes)))
      λ (v, rest) _. Ends-ensure (is_empty (ws rest)) _ _ (Ends-ok v tt))

within_fuel : {A : Type 0} (m : Result Stop A) → Ends Any m → m ≢ err out_of_fuel
within_fuel m (ends a e h) = λ bad. cc (e, bad)
within_fuel m (faults f e) = λ bad. cc (e, bad)

pub decode_json_object-Ends :
    (fuel : ℕ) (bytes : Text) → length bytes < fuel → Ends Any (decode_json_object fuel bytes)
unfolding decode_json_object
decode_json_object-Ends fuel bytes h =
    Ends-bind (decode_json_value fuel bytes) only_object (decoded fuel bytes h) λ v _. an_object v

-- On more fuel than the body has bytes, `decode_json_object` returns the members of an object, an
-- error, or the panic of a slice inside a character: its fuel never runs out.
pub decode_json_object_total :
    (fuel : ℕ) (bytes : Text)
    → length bytes < fuel
    → decode_json_object fuel bytes ≢ err out_of_fuel
decode_json_object_total fuel bytes h = within_fuel _ (decode_json_object-Ends fuel bytes h)
