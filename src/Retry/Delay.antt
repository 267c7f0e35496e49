-- ===== src/Retry/Delay.antt =====
-- The delay before an attempt is repeated.
use Prim.Native.Nat.{◌*◌}
use native.Mathlib.Nat.{mul-le-mul_left}
use set.Prelude.{ℕ, ◌-◌, ◌/◌, ◌^◌, ◌≤◌, ◌<◌, true, false, arith, ltb, if◌then◌else◌}
use set.Retry.Defs.{calculate_delay}

half_draw : (c draw : ℕ) → draw < 2 ^ 53 → 2 * (c * draw / 2 ^ 54) ≤ c
half_draw c draw h =
    let p : c * draw ≤ c * 2 ^ 53 = mul-le-mul_left c (omega arith) in omega (arith, p)

-- Without jitter no delay passes the maximum. With jitter, at any draw of `Math.random()`, it is at
-- least the capped delay and at most half of that longer, so it passes the maximum by half of that
-- at most.
pub calculate_delay_bounds :
    (attempt initial most factor draw : ℕ)
    → draw < 2 ^ 53
    → let plain = calculate_delay attempt initial most factor false draw in
      let jittered = calculate_delay attempt initial most factor true draw in
      (plain ≤ most) × (plain ≤ jittered) × (2 * jittered ≤ 3 * plain)
unfolding calculate_delay
calculate_delay_bounds attempt initial most factor draw h = (
  ground arith,
  omega arith,
  omega (
    arith,
    half_draw
        (if ltb (initial * factor ^ (attempt - 1)) most
          then initial * factor ^ (attempt - 1)
          else most)
        draw h,
  ),
)

-- A delay that is capped at a maximum of at least 3 ms is made longer than the maximum by the greatest
-- draw.
pub calculate_delay_exceeds :
    (attempt initial most factor : ℕ)
    → 3 ≤ most
    → most ≤ initial * factor ^ (attempt - 1)
    → most < calculate_delay attempt initial most factor true (2 ^ 53 - 1)
unfolding calculate_delay
calculate_delay_exceeds attempt initial most factor h k = ground arith
