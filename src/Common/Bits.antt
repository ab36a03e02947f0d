-- ===== src/Common/Bits.antt =====
-- When the bits of an exclusive or, and of an or, are all 0.
use Prim.Native.Nat.{
  ℕ, zero, suc, ◌/◌, ◌%◌, ◌≤◌, max, digits, differ, bit_xor, bit_or, bit_xor-bitwise,
  bit_or-bitwise,
}
use mathlib.Core.Path.{◌≡◌, refl, sym, ◌∙◌}
use native.Mathlib.Omega.{arith}

differ_zero : (x y : ℕ) → differ x y ≡ 0 → x ≡ y
differ_zero zero y h = sym h
differ_zero (suc x) zero h = h
differ_zero (suc x) (suc y) h = omega (arith, differ_zero x y h)

differ_refl : (x : ℕ) → differ x x ≡ 0
differ_refl zero = refl
differ_refl (suc x) = differ_refl x

digits-differ : (n a b : ℕ) → a ≤ n → digits (λ b. b) differ n a b ≡ 0 → a ≡ b
digits-differ zero a b h e = omega (arith, h, e)
digits-differ (suc n) zero b h e = sym e
digits-differ (suc n) (suc a) b h e =
    let rest : digits (λ b. b) differ n (suc a / 2) (b / 2) ≡ 0 = omega (arith, e) in
    let last : differ (suc a % 2) (b % 2) ≡ 0 = omega (arith, e) in
    let p = digits-differ n (suc a / 2) (b / 2) (omega (arith, h)) rest in
    let q = differ_zero (suc a % 2) (b % 2) last in omega (arith, p, q)

digits_same : (n a : ℕ) → a ≤ n → digits (λ b. b) differ n a a ≡ 0
digits_same zero a h = omega (arith, h)
digits_same (suc n) zero h = refl
digits_same (suc n) (suc a) h =
    omega (arith, digits_same n (suc a / 2) (omega (arith, h)), differ_refl (suc a % 2))

digits-max : (n a b : ℕ) → a ≤ n → digits (λ b. b) max n a b ≡ 0 → (a ≡ 0) × (b ≡ 0)
digits-max zero a b h e = (omega (arith, h), e)
digits-max (suc n) zero b h e = (refl, e)
digits-max (suc n) (suc a) b h e =
    let p = digits-max n (suc a / 2) (b / 2) (omega (arith, h)) (omega (arith, e)) in
    let q : max (suc a % 2) (b % 2) ≡ 0 = omega (arith, e) in
    (omega (arith, p.0, q), omega (arith, p.1, q))

pub bit_xor_zero : (a b : ℕ) → bit_xor a b ≡ 0 → a ≡ b
bit_xor_zero a b h = digits-differ a a b (omega arith) (sym (bit_xor-bitwise a b) ∙ h)

pub bit_xor_same : (a : ℕ) → bit_xor a a ≡ 0
bit_xor_same a = bit_xor-bitwise a a ∙ digits_same a a (omega arith)

pub bit_or_zero : (a b : ℕ) → bit_or a b ≡ 0 → (a ≡ 0) × (b ≡ 0)
bit_or_zero a b h = digits-max a a b (omega arith) (sym (bit_or-bitwise a b) ∙ h)
