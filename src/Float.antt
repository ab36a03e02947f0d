-- ===== src/Float.antt =====
-- f64, through the operations that the program applies to one (src/request.rs,
-- src/config/yaml.rs, src/config/validate.rs): is_finite, fract() != 0.0, `as u64` and membership
-- in a range with whole ends. `fin neg whole frac` is a finite value: its sign, the whole part of
-- its magnitude, and whether a fraction follows.
use nano_llm.Common.{ℕ, Bool, true, false, ◌==◌, leb, ltb, if◌then◌else◌, not, ◌&&◌, ◌||◌}

pub data F64 : Type 0 where
  nan : F64
  inf : (neg : Bool) → F64
  fin : (neg : Bool) (whole : ℕ) (frac : Bool) → F64

unfoldable pub is_finite : F64 → Bool
is_finite (fin neg whole frac) = true
is_finite _ = false

-- `fract()` of an infinity is NaN, which differs from 0.0.
unfoldable pub has_fract : F64 → Bool
has_fract (fin neg whole frac) = frac
has_fract _ = true

-- `lo ≤ x` and `x ≤ hi` with whole ends; -0.0 is not below 0.0.
at_least : ℕ → F64 → Bool
at_least lo (fin false whole frac) = leb lo whole
at_least lo (fin true whole frac) = lo == 0 && whole == 0 && not frac
at_least lo (inf neg) = not neg
at_least lo nan = false

at_most : ℕ → F64 → Bool
at_most hi (fin false whole frac) = ltb whole hi || (whole == hi && not frac)
at_most hi (fin true whole frac) = true
at_most hi (inf neg) = neg
at_most hi nan = false

unfoldable pub in_range : ℕ → ℕ → F64 → Bool
unfolding at_least at_most
in_range lo hi x = at_least lo x && at_most hi x

-- The saturating cast.
unfoldable pub as_u64 : F64 → ℕ
as_u64 nan = 0
as_u64 (inf true) = 0
as_u64 (inf false) = 18446744073709551615
as_u64 (fin true whole frac) = 0
as_u64 (fin false whole frac) =
    if leb whole 18446744073709551615 then whole else 18446744073709551615
