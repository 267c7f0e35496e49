-- ===== src/Prelude/Number.antt =====
-- A JavaScript `number` against integers: an integer, a value strictly between `z` and `z + 1`, or
-- one of the values that are not finite.
use set.Prelude.Int.{ℤ, ltb_ℤ, leb_ℤ}
use mathlib.Core.Bool.{Bool, true, false}

pub data Number : Type 0 where
  int : ℤ → Number
  frac : ℤ → Number
  nan infinity neg_infinity : Number

-- `Number.isInteger(x)`
abbrev pub is_integer : Number → Bool
is_integer (int z) = true
is_integer _ = false

-- `x < k`
abbrev pub lt_int : Number → ℤ → Bool
lt_int (int z) k = ltb_ℤ z k
lt_int (frac z) k = ltb_ℤ z k
lt_int neg_infinity k = true
lt_int _ k = false

-- `x > k`
abbrev pub gt_int : Number → ℤ → Bool
gt_int (int z) k = ltb_ℤ k z
gt_int (frac z) k = leb_ℤ k z
gt_int infinity k = true
gt_int _ k = false
