-- ===== src/Common/Fallible.antt =====
-- Rust's `Result<A, E>`, with `?` as the bind of a `do` block.
use mathlib.Core.Path.{◌≡◌, refl}
use mathlib.Core.Bool.{Bool, true, false}
use mathlib.Core.Option.{Option, none, some}
use mathlib.Core.Logic.{◌⊎◌, inl, inr}

pub data Result (E A : Type 0) : Type 0 where
  ok : A → Result E A
  err : E → Result E A

abbrev pub is_ok : {E A : Type 0} → Result E A → Bool
is_ok (err _) = false
is_ok (ok _) = true

-- Option::ok_or
abbrev pub ok_or : {E A : Type 0} → Option A → E → Result E A
ok_or (some found) _ = ok found
ok_or none missing = err missing

-- `if bad { return Err(e) }`
abbrev pub ensure : {E : Type 0} → (test : Bool) → (failure : E) → Result E (Unit {0})
ensure false failure = err failure
ensure true _ = ok tt

-- `let a = first?; rest`
infixl 5 ◌>>=◌
abbrev pub ◌>>=◌ : {E A B : Type 0} → (first : Result E A) → (rest : A → Result E B) → Result E B
err failure >>= rest = err failure
ok result >>= rest = rest result

-- `first?; rest`
infixl 5 ◌>>◌
abbrev pub ◌>>◌ : {E B : Type 0} → (first : Result E (Unit {0})) → Result E B → Result E B
first >> rest = first >>= λ done. rest

pub Result-cases :
    {E A : Type 0} (r : Result E A) → ((a : A) × (r ≡ ok a)) ⊎ ((e : E) × (r ≡ err e))
Result-cases (err failure) = inr (failure, refl)
Result-cases (ok result) = inl (result, refl)

pub ok_injective : {E A : Type 0} {a b : A} → ◌≡◌ {A = Result E A} (ok a) (ok b) → a ≡ b
ok_injective h = cc

-- What a function that returned ok went through.
pub ensure-eq-ok :
    {E B : Type 0} (t : Bool) (e : E) (k : Result E B) {b : B}
    → (ensure t e >> k) ≡ ok b
    → (t ≡ true) × (k ≡ ok b)
ensure-eq-ok false e k returned = cc
ensure-eq-ok true e k returned = (refl, returned)

pub >>=-eq-ok :
    {E A B : Type 0} (first : Result E A) (rest : A → Result E B) {final : B}
    → (first >>= rest) ≡ ok final
    → (between : A) × (first ≡ ok between) × (rest between ≡ ok final)
>>=-eq-ok (err failure) rest returned = cc
>>=-eq-ok (ok result) rest returned = (result, refl, returned)
