-- ===== src/Common/Bytes.antt =====
-- Rust's `String` and `&str` as their UTF-8 bytes, and `HashSet<String>` as a list without order.
use Prim.Native.Nat.{ℕ}
use Prim.Native.Char.{code}
use Prim.Native.String.{String}
use mathlib.Core.Path.{◌≡◌, refl, sym}
use mathlib.Core.Logic.{◌≢◌, ◌↔◌, inl, inr}
use mathlib.Core.Bool.{Bool, true, false, ◌&&◌, ◌||◌}
use mathlib.Core.List.{List, [], ◌∷◌, ◌++◌}
use native.Mathlib.Omega.{arith}
use nano_llm.Common.Tests.{◌==◌, if◌then◌else◌, Bool-cases}
use nano_llm.Common.Lists.{All, All-append}

abbrev pub Text : Type 0
Text = List ℕ

-- The bytes of an ASCII literal.
unfoldable pub lit : String → Text
lit String.[] = []
lit (String.◌∷◌ c s) = code c ∷ lit s

unfoldable pub text_eq : Text → Text → Bool
text_eq [] [] = true
text_eq (x ∷ xs) (y ∷ ys) = x == y && text_eq xs ys
text_eq _ _ = false

pub text_eq_refl : (s : Text) → text_eq s s ≡ true
unfolding text_eq
text_eq_refl [] = refl
text_eq_refl (x ∷ xs) = ground (arith, text_eq_refl xs)

text_eq_sound : (s t : Text) → text_eq s t ≡ true → s ≡ t
unfolding text_eq
text_eq_sound [] [] h = refl
text_eq_sound [] (y ∷ ys) h = cc
text_eq_sound (x ∷ xs) [] h = cc
text_eq_sound (x ∷ xs) (y ∷ ys) h = ground (arith, text_eq_sound xs ys)

pub text_eq_iff : (s t : Text) → (text_eq s t ≡ true) ↔ (s ≡ t)
text_eq_iff s t = (text_eq_sound s t, λ e. rw e (text_eq_refl t))

pub text_eq-false : (s t : Text) → s ≢ t → text_eq s t ≡ false
text_eq-false s t h = elim (Bool-cases (text_eq s t)) [
  | inl e ↦ absurd (h (text_eq_sound s t e))
  | inr e ↦ e
]

-- HashSet::contains and HashSet::insert; the second says whether the key was new.
unfoldable pub contains : List Text → Text → Bool
contains [] k = false
contains (x ∷ xs) k = text_eq x k || contains xs k

unfoldable pub push_new : Text → List Text → List Text
push_new k used = if contains used k then used else k ∷ used

abbrev pub Fresh : Text → List Text → Type 0
Fresh k xs = All (λ x. x ≢ k) xs

abbrev pub Distinct : List Text → Type 0
Distinct [] = Unit
Distinct (x ∷ xs) = Fresh x xs × Distinct xs

pub contains-Fresh : (xs : List Text) (k : Text) → contains xs k ≡ false → Fresh k xs
unfolding contains
contains-Fresh [] k h = tt
contains-Fresh (x ∷ xs) k h = elim (Bool-cases (text_eq x k)) [
  | inl e ↦ absurd (ground (arith, e))
  | inr e ↦ (λ p. ground (arith, (text_eq_iff x k).1 p), contains-Fresh xs k (ground (arith, e)))
]

pub Fresh-contains : (xs : List Text) (k : Text) → Fresh k xs → contains xs k ≡ false
unfolding contains
Fresh-contains [] k h = refl
Fresh-contains (x ∷ xs) k h = rw (text_eq-false x k h.0) (Fresh-contains xs k h.1)

-- A list with one more name at its end stays distinct.
pub Distinct-append :
    (names : List Text) (name : Text)
    → Distinct names
    → Fresh name names
    → Distinct (names ++ (name ∷ []))
Distinct-append [] name d f = (tt, tt)
Distinct-append (x ∷ names) name d f = (
  All-append (λ y. y ≢ x) names (name ∷ []) d.0 ((λ e. f.0 (sym e)), tt),
  Distinct-append names name d.1 f.1,
)
