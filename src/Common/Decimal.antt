-- ===== src/Common/Decimal.antt =====
-- `{}` of Rust's formatter on an unsigned number.
use Prim.Native.Nat.{ℕ, zero, suc, ◌+◌, ◌/◌, ◌%◌}
use mathlib.Core.List.{[], ◌∷◌}
use nano_llm.Common.Tests.{◌==◌, if◌then◌else◌}
use nano_llm.Common.Bytes.{Text}

-- The digits of a number with at most `fuel` of them, before `acc`.
decimal_from : ℕ → ℕ → Text → Text
decimal_from zero n acc = acc
decimal_from (suc fuel) n acc =
    let more = decimal_from fuel (n / 10) ((n % 10 + b'0') ∷ acc) in if n == 0 then acc else more

-- A u64 has at most twenty digits.
unfoldable pub decimal : ℕ → Text
unfolding decimal_from
decimal n = if n == 0 then b'0' ∷ [] else decimal_from 20 n []
