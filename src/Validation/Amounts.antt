-- ===== src/Validation/Amounts.antt =====
-- What the checks of amounts accept.
use set.Prelude.{◌≡◌, ◌↔◌, arith}
use set.Prelude.Int.{ℤ, pos, ◌≤ℤ◌}
use set.Effects.{ok}
use set.Validation.{validate_non_negative_amount, validate_amount_bounds}

-- `validateAmountBounds` accepts exactly the amounts from the least to the greatest that are not
-- negative.
pub validate_amount_bounds_iff :
    (amount min max : ℤ)
    → (validate_amount_bounds amount min max ≡ ok tt)
      ↔ ((pos 0 ≤ℤ amount) × (min ≤ℤ amount) × (amount ≤ℤ max))
unfolding validate_amount_bounds validate_non_negative_amount
validate_amount_bounds_iff amount min max = ground arith
