-- ===== src/Request/Outcome.antt =====
-- What a function of the request decoder may do: return a value, refuse the request with a
-- DecodeError, or panic (`unwrap` of nothing, `unreachable!`). `Gives m P` says that it does not
-- panic and that P holds of the value if there is one.
use nano_llm.Common.{
  Text, Bool, true, false, ◌≡◌, refl, sym, subst, ◌∙◌, ok_injective, Option, none, some,
  if◌then◌else◌, Result, ok, err, ensure, ok_or, ◌>>=◌, ◌>>◌,
}
use nano_llm.Request.{DecodeError}

pub data Fault : Type 0 where
  refused : DecodeError → Fault
  panic : Fault

-- Err(validation(Some(param), message))
abbrev pub validation : Text → Text → Fault
validation param message = Fault.refused (DecodeError.validation (some param) message)

-- Option::unwrap
abbrev pub unwrap : {A : Type 0} → Option A → Result Fault A
unwrap none = err Fault.panic
unwrap (some a) = ok a

pub data Gives {A : Type 0} (m : Result Fault A) (P : A → Type 0) : Type 0 where
  gives : (a : A) → m ≡ ok a → P a → Gives m P
  refuses : (e : DecodeError) → m ≡ err (Fault.refused e) → Gives m P

pub Gives-ok : {A : Type 0} {P : A → Type 0} (a : A) → P a → Gives (ok a) P
Gives-ok a h = gives a refl h

pub Gives-validation :
    {A : Type 0} {P : A → Type 0} (p m : Text) → Gives {A = A} (err (validation p m)) P
Gives-validation p m = refuses _ refl

pub Gives-bind :
    {A B : Type 0} {P : A → Type 0} {Q : B → Type 0} (m : Result Fault A) (f : A → Result Fault B)
    → Gives m P
    → ((a : A) → P a → Gives (f a) Q)
    → Gives (m >>= f) Q
Gives-bind m f (gives a e h) k = rw e (k a h)
Gives-bind m f (refuses e h) k = rw h (refuses e refl)

pub Gives-ensure :
    {B : Type 0} {Q : B → Type 0} (t : Bool) (p m : Text) (k : Result Fault B)
    → (t ≡ true → Gives k Q)
    → Gives (ensure t (validation p m) >> k) Q
Gives-ensure true p m k h = h refl
Gives-ensure false p m k h = refuses _ refl

pub Gives-if :
    {B : Type 0} {Q : B → Type 0} (t : Bool) (k l : Result Fault B)
    → (t ≡ true → Gives k Q)
    → (t ≡ false → Gives l Q)
    → Gives (if t then k else l) Q
Gives-if true k l h h' = h refl
Gives-if false k l h h' = h' refl

-- Unwrapping what is there.
pub Gives-unwrap :
    {A B : Type 0} {Q : B → Type 0} (o : Option A) (f : A → Result Fault B)
    → (a : A) × (o ≡ some a)
    → ((a : A) → o ≡ some a → Gives (f a) Q)
    → Gives (unwrap o >>= f) Q
Gives-unwrap none f h k = absurd (cc (h.1))
Gives-unwrap (some a) f h k = k a refl

pub Gives-mono :
    {A : Type 0} {P Q : A → Type 0} {m : Result Fault A}
    → ((a : A) → P a → Q a)
    → Gives m P
    → Gives m Q
Gives-mono f (gives a e h) = gives a e (f a h)
Gives-mono f (refuses e h) = refuses e h

pub Gives-test : (t : Bool) (p m : Text) → Gives (ensure t (validation p m)) (λ _. t ≡ true)
Gives-test true p m = gives tt refl refl
Gives-test false p m = refuses _ refl

pub Gives-ok_or :
    {A B : Type 0} {Q : B → Type 0} (o : Option A) (p m : Text) (f : A → Result Fault B)
    → ((a : A) → o ≡ some a → Gives (f a) Q)
    → Gives (ok_or o (validation p m) >>= f) Q
Gives-ok_or none p m f k = refuses _ refl
Gives-ok_or (some a) p m f k = k a refl

pub Gives-both :
    {A : Type 0} {P Q : A → Type 0} {m : Result Fault A}
    → Gives m P
    → Gives m Q
    → Gives m (λ a. P a × Q a)
Gives-both {Q = Q} (gives a e p) (gives b e' q) =
    gives a e (p, subst Q (ok_injective (sym e' ∙ e)) q)
Gives-both (gives a e p) (refuses x h) = cc
Gives-both (refuses x h) k = refuses x h
