-- ===== src/Common/Count.antt =====
-- Counting below a bound, for arguments by the pigeonhole.
use Prim.Native.Nat.{ℕ, zero, suc, ◌+◌, ◌≤◌, ◌<◌}
use mathlib.Core.Path.{◌≡◌, refl}
use mathlib.Core.Bool.{Bool, true, false, ◌||◌}
use mathlib.Core.Logic.{inl, inr}
use native.Mathlib.Omega.{arith}
use nano_llm.Common.Tests.{if◌then◌else◌, Bool-cases}

-- How many numbers below `k` pass the test.
pub count : (ℕ → Bool) → ℕ → ℕ
count p zero = 0
count p (suc k) = (if p k then 1 else 0) + count p k

pub count-or : (p q : ℕ → Bool) (k : ℕ) → count (λ i. p i || q i) k ≤ count p k + count q k
unfolding count
count-or p q zero = omega arith
count-or p q (suc k) = ground (arith, count-or p q k)

pub count-all : (p : ℕ → Bool) (k : ℕ) → ((i : ℕ) → i < k → p i ≡ true) → count p k ≡ k
unfolding count
count-all p zero h = refl
count-all p (suc k) h = ground (arith, h k (omega arith), count-all p k (λ i l. h i (omega arith)))

pub count-none : (p : ℕ → Bool) (k : ℕ) → ((i : ℕ) → i < k → p i ≡ false) → count p k ≡ 0
unfolding count
count-none p zero h = refl
count-none p (suc k) h =
    ground (arith, h k (omega arith), count-none p k (λ i l. h i (omega arith)))

not_both : (b : Bool) → (b ≡ true → ⊥) → b ≡ false
not_both true h = absurd (h refl)
not_both false h = refl

-- A test that at most one number passes.
pub count_unique :
    (p : ℕ → Bool) (k : ℕ)
    → ((i j : ℕ) → i < k → j < k → p i ≡ true → p j ≡ true → i ≡ j)
    → count p k ≤ 1
unfolding count
count_unique p zero h = omega arith
count_unique p (suc k) h = elim (Bool-cases (p k)) [
  | inl e ↦ rw e (
      omega (
        arith,
        count-none p k (λ i l.
            not_both (p i) (λ t. absurd (omega (arith, h i k (omega arith) (omega arith) t e)))),
      ))
  | inr e ↦ rw e (omega (arith, count_unique p k (λ i j l m. h i j (omega arith) (omega arith))))
]
