-- ===== src/Common/Scan/Split.antt =====
-- Splitting at the first of a byte, and joining again.
use mathlib.Core.Path.{◌≡◌, refl, ap}
use mathlib.Core.Logic.{◌≢◌, inl, inr}
use mathlib.Core.Option.{Option, none, some}
use mathlib.Core.List.{[], ◌∷◌, ◌++◌}
use Prim.Native.Nat.{ℕ}
use native.Mathlib.Omega.{arith}
use nano_llm.Common.Tests.{◌==◌, Bool-cases, ==→eq, eq→==}
use nano_llm.Common.Lists.{All}
use nano_llm.Common.Bytes.{Text}
use nano_llm.Common.Scan.{split_at_first}

further :
    (byte b : ℕ) (bs before after : Text) (o : Option (Text × Text))
    → b ≢ byte
    → ((start end : Text)
        → o ≡ some (start, end)
        → (bs ≡ start ++ byte ∷ end) × All (λ x. x ≢ byte) start)
    → ◌≡◌ {A = Option (Text × Text)}
        (elim o [ none ↦ none | some (start, end) ↦ some (b ∷ start, end) ])
        (some (before, after))
    → (b ∷ bs ≡ before ++ byte ∷ after) × All (λ x. x ≢ byte) before
further byte b bs before after none other ih h = cc
further byte b bs before after (some (start, end)) other ih h =
    let p : before ≡ b ∷ start = cc h in
    let q : after ≡ end = cc h in
    let (parts, others) = ih start end refl in
    (rw p (rw q (ap (λ t. b ∷ t) parts)), rw p (other, others))

unfound :
    (b : ℕ) (o : Option (Text × Text))
    → ◌≡◌ {A = Option (Text × Text)}
        (elim o [ none ↦ none | some (start, end) ↦ some (b ∷ start, end) ])
        none
    → o ≡ none
unfound b none h = refl
unfound b (some (start, end)) h = cc h

-- Everything before the first such byte is another one.
pub split_at_first_lem :
    (byte : ℕ) (v before after : Text)
    → split_at_first byte v ≡ some (before, after)
    → (v ≡ before ++ byte ∷ after) × All (λ x. x ≢ byte) before
unfolding split_at_first
split_at_first_lem byte [] before after h = cc
split_at_first_lem byte (b ∷ bs) before after h = elim (Bool-cases (b == byte)) [
  | inl e ↦
      let found : ◌≡◌ {A = Option (Text × Text)} (some ([], bs)) (some (before, after)) =
        rw e at h in
      let p : before ≡ [] = cc found in
      let q : after ≡ bs = cc found in (rw p (rw q (ap (λ x. x ∷ bs) (==→eq b byte e))), rw p tt)
  | inr e ↦
      further byte b bs before after (split_at_first byte bs) (λ p. ground (arith, e, p))
        (λ start end found. split_at_first_lem byte bs start end found) (rw e at h)
]

pub split_at_first_back :
    (byte : ℕ) (before after : Text)
    → All (λ x. x ≢ byte) before
    → split_at_first byte (before ++ byte ∷ after) ≡ some (before, after)
unfolding split_at_first
split_at_first_back byte [] after h = rw (eq→== byte byte refl) refl
split_at_first_back byte (x ∷ before) after h = elim (Bool-cases (x == byte)) [
  | inl e ↦ absurd (h.0 (==→eq x byte e))
  | inr e ↦ rw e (rw (split_at_first_back byte before after h.1) refl)
]

-- Without such a byte there is nothing to split at.
pub split_at_first-none :
    (byte : ℕ) (v : Text) → split_at_first byte v ≡ none → All (λ x. x ≢ byte) v
unfolding split_at_first
split_at_first-none byte [] h = tt
split_at_first-none byte (b ∷ bs) h = elim (Bool-cases (b == byte)) [
  | inl e ↦ let found : ◌≡◌ {A = Option (Text × Text)} (some ([], bs)) none = rw e at h in cc found
  | inr e ↦ (
    λ p. ground (arith, e, p),
    split_at_first-none byte bs (unfound b (split_at_first byte bs) (rw e at h)),
  )
]
