-- ===== src/Request/Parse/Numbers.antt =====
-- Where numbers end for the parser of src/request.rs.
use nano_llm.Common.{
  ℕ, suc, Option, ◌≢◌, Text, Bool, true, false, ◌||◌, ◌≡◌, refl, ap, ◌∙◌, inl, inr, [], ◌∷◌, ◌++◌,
  ◌==◌, Bool-cases, ok, err, ◌>>=◌, arith,
}
use nano_llm.Json.{JsonValue}
use nano_llm.Request.Parse.Strings.{Parse}
use nano_llm.Request.Parse.{
  is_digit, digits, some_digits, sign, whole, fraction, exponent_sign, exponent, number, ws, value,
}

-- A comma or a closing bracket.
abbrev pub ends_value : ℕ → Bool
ends_value b = b == b',' || b == b']' || b == b'}'

-- Nothing follows, or what follows a value inside another one.
abbrev pub Stops : Text → Type 0
Stops [] = Unit
Stops (b ∷ rest) = ends_value b ≡ true

-- The same result with more text left.
abbrev later : {A : Type 0} → A × Text → Text → A × Text
later (a, left) rest = (a, left ++ rest)

abbrev pub further : {A : Type 0} → Parse A → Text → Parse A
further (ok r) rest = ok (later r rest)
further (err e) rest = err e

digits-stop : (rest : Text) → Stops rest → digits rest ≡ ([], rest)
unfolding digits
digits-stop [] h = refl
digits-stop (b ∷ rest) h = ground arith

digits-append : (t rest : Text) → Stops rest → digits (t ++ rest) ≡ later (digits t) rest
unfolding digits
digits-append [] rest h = digits-stop rest h
digits-append (b ∷ t) rest h = ground (arith, digits-append t rest h)

some_digits-append :
    (t rest : Text) → Stops rest → some_digits (t ++ rest) ≡ further (some_digits t) rest
unfolding some_digits
some_digits-append t rest h = rw (digits-append t rest h) (ground arith)

sign-append : (t rest : Text) → Stops rest → sign (t ++ rest) ≡ later (sign t) rest
unfolding sign
sign-append [] [] h = refl
sign-append [] (b ∷ rest) h = ground arith
sign-append (b ∷ t) rest h = ground arith

whole-append : (t rest : Text) → Stops rest → whole (t ++ rest) ≡ further (whole t) rest
unfolding whole
whole-append [] [] h = refl
whole-append [] (b ∷ rest) h = ground arith
whole-append (b ∷ t) rest h = rw (digits-append (b ∷ t) rest h) (ground arith)

exponent_sign-append :
    (t rest : Text) → Stops rest → exponent_sign (t ++ rest) ≡ later (exponent_sign t) rest
unfolding exponent_sign
exponent_sign-append [] [] h = refl
exponent_sign-append [] (b ∷ rest) h = ground arith
exponent_sign-append (b ∷ t) rest h = ground arith

fraction-append : (t rest : Text) → Stops rest → fraction (t ++ rest) ≡ further (fraction t) rest
unfolding fraction
fraction-append [] [] h = refl
fraction-append [] (b ∷ rest) h = ground arith
fraction-append (b ∷ t) rest h = rw (some_digits-append t rest h) (ground arith)

exponent-append : (t rest : Text) → Stops rest → exponent (t ++ rest) ≡ further (exponent t) rest
unfolding exponent
exponent-append [] [] h = refl
exponent-append [] (b ∷ rest) h = ground arith
exponent-append (b ∷ t) rest h =
    rw (exponent_sign-append t rest h)
      (rw (some_digits-append (exponent_sign t).1 rest h) (ground arith))

further-bind :
    {A B : Type 0} (m : Parse A) (f : A × Text → Parse B) (rest : Text)
    → ((a : A) (left : Text) → f (a, left ++ rest) ≡ further (f (a, left)) rest)
    → (further m rest >>= f) ≡ further (m >>= f) rest
further-bind (err e) f rest h = refl
further-bind (ok (a, left)) f rest h = h a left

-- What follows a number is left as it is.
number-append : (t rest : Text) → Stops rest → number (t ++ rest) ≡ further (number t) rest
unfolding number
number-append t rest h = rw (sign-append t rest h) (
    rw (whole-append (sign t).1 rest h) (
      further-bind (whole (sign t).1) _ rest λ front r2. rw (fraction-append r2 rest h) (
        further-bind (fraction r2) _ rest λ middle r3.
          rw (exponent-append r3 rest h) (further-bind (exponent r3) _ rest λ back r4. refl))))

pub number_back :
    (t rest : Text) (v : JsonValue)
    → Stops rest
    → number t ≡ ok (v, [])
    → number (t ++ rest) ≡ ok (v, rest)
number_back t rest v h e = number-append t rest h ∙ ap (λ r. further r rest) e

pub number-empty : (v : JsonValue) → number [] ≢ ok (v, [])
unfolding number
number-empty v h = cc h

number-starts :
    (b : ℕ) (t : Text) (v : JsonValue)
    → number (b ∷ t) ≡ ok (v, [])
    → (b == b'-' || is_digit b) ≡ true
unfolding number
number-starts b t v h = elim (Bool-cases (b == b'-' || is_digit b)) [
  | inl e ↦ e
  | inr e ↦ ground arith
]

value-number :
    (fuel : ℕ) (path : Text) (owner : Option Text) (b : ℕ) (t : Text)
    → (b == b'-' || is_digit b) ≡ true
    → value (suc fuel) path owner (b ∷ t) ≡ number (b ∷ t)
unfolding value
value-number fuel path owner b t h = ground arith

-- A number is read as a value.
pub value-number_back :
    (fuel : ℕ) (path : Text) (owner : Option Text) (t rest : Text) (v : JsonValue)
    → Stops rest
    → number t ≡ ok (v, [])
    → value (suc fuel) path owner (t ++ rest) ≡ ok (v, rest)
value-number_back fuel path owner [] rest v h e = absurd (number-empty v e)
value-number_back fuel path owner (b ∷ t) rest v h e =
    value-number fuel path owner b (t ++ rest) (number-starts b t v e)
    ∙ number_back (b ∷ t) rest v h e

-- A number begins with no bracket and no white space.
pub number_begins :
    (b : ℕ) (t : Text) (v : JsonValue)
    → number (b ∷ t) ≡ ok (v, [])
    → ((b == b']') ≡ false) × ((rest : Text) → ws (b ∷ rest) ≡ b ∷ rest)
unfolding ws is_digit
number_begins b t v e =
    let h = number-starts b t v e in (ground (arith, h), λ rest. ground (arith, h))
