-- ===== src/Gas/Rounding.antt =====
-- Gas limits and fees are rounded up.
use native.Mathlib.Nat.{mul-le-mul_left, mul-le-mul_right}
use set.Prelude.{ℕ, ◌+◌, ◌-◌, ◌*◌, ◌/◌, ◌≤◌, ◌<◌, Bool, ◌≡◌, refl, arith, inl, inr}
use set.Prelude.Text.{Text}
use set.Effects.{outcome_cases, ok, Action}
use set.Gas.{
  scaled, FeeData, GasEstimate, GasEstimateOptions, apply_multiplier, gas_costs, estimate_gas,
}

-- A buffered value is the least one that is not below the exact product with the multiplier.
pub apply_multiplier_least :
    (value m : ℕ) {r : ℕ}
    → apply_multiplier value (scaled m) ≡ ok r
    → (value * m ≤ r * 10000) × (r * 10000 < value * m + 10000)
unfolding apply_multiplier
apply_multiplier_least value m h = ground arith

covers : (limit m : ℕ) → 10000 ≤ m → limit ≤ (limit * m + 10000 - 1) / 10000
covers limit m h = let p : limit * 10000 ≤ limit * m = mul-le-mul_left limit h in omega (arith, p)

gas_costs_covers :
    (options : GasEstimateOptions) (limit with_buffer : ℕ) (fees : FeeData)
    → limit ≤ with_buffer
    → let g = gas_costs options limit with_buffer fees in
      (g.gas_limit ≤ g.gas_limit_with_buffer)
      × (g.estimated_cost ≡ g.gas_limit * g.max_fee_per_gas)
      × (g.estimated_cost_with_buffer ≡ g.gas_limit_with_buffer * g.max_fee_per_gas)
      × (g.estimated_cost ≤ g.estimated_cost_with_buffer)
unfolding gas_costs
gas_costs_covers options limit with_buffer fees h = (h, refl, refl, mul-le-mul_right _ h)

-- With a multiplier of at least 1, an estimate never allows less gas or less cost than the node
-- asked for, and its costs are the limits times one fee.
pub estimate_gas_covers :
    {S : Type 0} (has_provider : Bool) (name : Text) (estimate : Action S ℕ)
    (fee_data : Action S FeeData) (options : GasEstimateOptions) (m : ℕ) (s : S) {g : GasEstimate}
    {t : S}
    → options.gas_buffer ≡ scaled m
    → 10000 ≤ m
    → estimate_gas has_provider name estimate fee_data options s ≡ (ok g, t)
    → (g.gas_limit ≤ g.gas_limit_with_buffer)
      × (g.estimated_cost ≡ g.gas_limit * g.max_fee_per_gas)
      × (g.estimated_cost_with_buffer ≡ g.gas_limit_with_buffer * g.max_fee_per_gas)
      × (g.estimated_cost ≤ g.estimated_cost_with_buffer)
unfolding estimate_gas
estimate_gas_covers has name estimate fees options m s e h k = elim (outcome_cases (estimate s)) [
  | inl (limit, s1, p) ↦ elim (outcome_cases (fees s1)) [
    | inl (f, s2, q) ↦ ground (
      arith,
      gas_costs_covers options limit ((limit * m + 10000 - 1) / 10000) f (covers limit m h),
    )
    | inr (x, s2, q) ↦ ground arith
  ]
  | inr (x, s1, p) ↦ ground arith
]
