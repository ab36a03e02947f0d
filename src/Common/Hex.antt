-- ===== src/Common/Hex.antt =====
-- `{:x}` of Rust's formatter. Hexadecimal numerals of 64-bit numbers are read back, so different numbers print differently.
use Prim.Native.Nat.{ℕ, zero, suc, ◌+◌, ◌-◌, ◌*◌, ◌/◌, ◌%◌, ◌^◌, ◌<◌}
use mathlib.Core.Path.{◌≡◌, sym, ap, ◌∙◌}
use mathlib.Core.Logic.{inl, inr}
use mathlib.Core.List.{[], ◌∷◌}
use native.Mathlib.Omega.{arith}
use native.Mathlib.Nat.{pow-suc}
use nano_llm.Common.Tests.{◌==◌, ltb, if◌then◌else◌, Bool-cases, ==→eq}
use nano_llm.Common.Bytes.{Text}

-- `{:x}`: lower-case hexadecimal without leading zeros.
unfoldable pub hex_digit : ℕ → ℕ
hex_digit d = if ltb d 10 then d + b'0' else d - 10 + b'a'

-- The digits of a number below 16 ^ fuel, the least significant one last.
hex_from : ℕ → ℕ → Text → Text
hex_from zero n acc = acc
hex_from (suc fuel) n acc =
    let more = hex_from fuel (n / 16) (hex_digit (n % 16) ∷ acc) in if n == 0 then acc else more

-- A u64 has at most sixteen hexadecimal digits.
unfoldable pub hex : ℕ → Text
unfolding hex_digit hex_from
hex n = if n == 0 then b'0' ∷ [] else hex_from 16 n []

digit_value : ℕ → ℕ
digit_value c = if ltb c b'a' then c - b'0' else c - b'a' + 10

-- The number that the digits denote after the value read so far.
read : ℕ → Text → ℕ
read n [] = n
read n (c ∷ cs) = read (n * 16 + digit_value c) cs

digit_value-hex_digit : (d : ℕ) → d < 16 → digit_value (hex_digit d) ≡ d
unfolding digit_value hex_digit
digit_value-hex_digit d h = ground arith

quotient_bound : (fuel n : ℕ) → n < 16 ^ suc fuel → n / 16 < 16 ^ fuel
quotient_bound fuel n h = let k = rw pow-suc at h in omega arith

read-hex_from :
    (fuel n : ℕ) (acc : Text) → n < 16 ^ fuel → read 0 (hex_from fuel n acc) ≡ read n acc
unfolding read hex_from
read-hex_from zero n acc h = ap (λ k. read k acc) (omega arith)
read-hex_from (suc fuel) n acc h = elim (Bool-cases (n == 0)) [
  | inl e ↦ rw e (ap (λ k. read k acc) (sym (==→eq n 0 e)))
  | inr e ↦ rw e (
      read-hex_from fuel (n / 16) (hex_digit (n % 16) ∷ acc) (quotient_bound fuel n h)
      ∙ ap (λ k. read k acc) (omega (arith, digit_value-hex_digit (n % 16) (omega arith))))
]

-- With the number of digits a variable, the digits stay folded.
read-numeral :
    (fuel n : ℕ) → n < 16 ^ fuel → read 0 (if n == 0 then b'0' ∷ [] else hex_from fuel n []) ≡ n
unfolding read digit_value
read-numeral fuel n h = elim (Bool-cases (n == 0)) [
  | inl e ↦ rw e (sym (==→eq n 0 e))
  | inr e ↦ rw e (read-hex_from fuel n [] h)
]

read-hex : (n : ℕ) → n < 2 ^ 64 → read 0 (hex n) ≡ n
unfolding hex
read-hex n h = read-numeral 16 n h

pub hex_injective : (m n : ℕ) → m < 2 ^ 64 → n < 2 ^ 64 → hex m ≡ hex n → m ≡ n
hex_injective m n h k e = sym (read-hex m h) ∙ ap (read 0) e ∙ read-hex n k
