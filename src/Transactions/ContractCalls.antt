-- ===== src/Transactions/ContractCalls.antt =====
-- `estimateContractGas`, `simulateContractCall` and `formatBalance` of sdk/src/tx/gas.ts. The contract's
-- method, with its arguments, is a pair of actions of the node. The multiplier `m` is given by what
-- `BigInt(Math.ceil(Number(x) * m))` makes of `x`, as in the builder.
use set.Prelude.{
  ℕ, zero, suc, not, ◌+◌, ◌-◌, ◌*◌, ◌/◌, ◌%◌, ◌^◌, ◌≡◌, ◌↔◌, Bool, Option, none, some, [], ◌∷◌,
  ◌++◌, length, ◌==◌, arith, inl, inr, if◌then◌else◌,
}
use set.Prelude.Text.{Text, codes, decimal, text_eq}
use set.Errors.{Thrown, value, error, message_of}
use set.Effects.{ok, err, Action, pure, throw_if, outcome_cases, ◌>>=◌, ◌>>◌}
use set.Gas.{FeeData}
use set.Transactions.Builder.{or_zero}

pub record ContractMethod (S R : Type 0) : Type 0 where
  pub has_provider : Bool
  pub get_fee_data : Action S FeeData
  pub estimate_gas : ℕ → Action S ℕ
  pub static_call : ℕ → Action S R

pub record ContractGasEstimate : Type 0 where
  pub gas_limit : ℕ
  pub gas_price : ℕ
  pub max_fee_per_gas : Option ℕ
  pub max_priority_fee_per_gas : Option ℕ
  pub total_cost : ℕ
  pub total_cost_eth : Text

-- `x || undefined`
abbrev pub or_undefined : Option ℕ → Option ℕ
or_undefined none = none
or_undefined (some n) = if n == 0 then none else some n

-- `s.padStart(n, '0')`, as the zeros that are put before the text.
abbrev pub zeros : ℕ → Text
zeros zero = []
zeros (suc n) = b'0' ∷ zeros n

abbrev pub pad_start : Text → ℕ → Text
pad_start s n = zeros (n - length s) ++ s

-- `s.replace(/0+$/, '')`
unfoldable pub trim_zeros : Text → Text
trim_zeros [] = []
trim_zeros (c ∷ s) =
    let rest = trim_zeros s in
    if c == b'0' then elim rest [ [] ↦ [] | d ∷ t ↦ c ∷ (d ∷ t) ] else c ∷ rest

-- `s || '0'`
abbrev pub or_zero_text : Text → Text
or_zero_text [] = codes "0"
or_zero_text (c ∷ s) = c ∷ s

unfoldable pub format_wei : ℕ → ℕ → Text
unfolding trim_zeros
format_wei amount decimals =
    let divisor : ℕ = 10 ^ decimals in
    let trimmed = or_zero_text (trim_zeros (pad_start (decimal (amount % divisor)) decimals)) in
    if text_eq trimmed (codes "0")
    then decimal (amount / divisor)
    else decimal (amount / divisor) ++ (b'.' ∷ trimmed)

module _ {S R : Type 0} (method : ContractMethod S R) where
  unfoldable pub estimate_contract_gas : Option ℕ → (ℕ → ℕ) → Action S ContractGasEstimate
  unfolding format_wei
  estimate_contract_gas sent multiplied = do
    throw_if (not method.has_provider) (error (codes "Contract has no provider"))
    fees ← method.get_fee_data
    estimate ← method.estimate_gas (or_zero sent)
    let gas_limit = multiplied estimate
    let gas_price = or_zero fees.gas_price
    let total_cost = gas_limit * gas_price + or_zero sent
    pure (record {
      gas_limit = gas_limit;
      gas_price = gas_price;
      max_fee_per_gas = or_undefined fees.max_fee_per_gas;
      max_priority_fee_per_gas = or_undefined fees.max_priority_fee_per_gas;
      total_cost = total_cost;
      total_cost_eth = format_wei total_cost 18;
    })

-- The fields `success`, `result` and `gasEstimate`, or `success` and `error`.
pub data Simulated (R : Type 0) : Type 0 where
  succeeded : R → ℕ → Simulated R
  failed : Text → Simulated R

-- `error instanceof Error ? error.message : 'Unknown error'`
abbrev pub known_message : Thrown → Text
known_message (value m) = codes "Unknown error"
known_message e = message_of e

module _ {S R : Type 0} (method : ContractMethod S R) where
  unfoldable pub simulate_contract_call : Option ℕ → S → Simulated R × S
  simulate_contract_call sent s =
      let (r, u) = method.static_call (or_zero sent) s in
      elim r [
        | err e ↦ (failed (known_message e), u)
        | ok result ↦
            let (g, v) = method.estimate_gas (or_zero sent) u in
            elim g [
              | err e ↦ (failed (known_message e), v)
              | ok gas_estimate ↦ (succeeded result gas_estimate, v)
            ]
      ]

  -- `simulateContractCall` reports a success exactly if both the call and the estimate have one, with
  -- their two results.
  pub simulate_contract_call_iff :
      (sent : Option ℕ) (s v : S) (result : R) (gas : ℕ)
      → (simulate_contract_call sent s ≡ (succeeded result gas, v)) ↔ (
          (u : S) × (method.static_call (or_zero sent) s ≡ (ok result, u))
          × (method.estimate_gas (or_zero sent) u ≡ (ok gas, v)))
  unfolding simulate_contract_call
  simulate_contract_call_iff sent s v result gas = (
    λ h. elim (outcome_cases (method.static_call (or_zero sent) s)) [
      | inr (e, u, p) ↦ absurd (ground arith)
      | inl (r, u, p) ↦ elim (outcome_cases (method.estimate_gas (or_zero sent) u)) [
        | inr (e, x, q) ↦ absurd (ground arith)
        | inl (g, x, q) ↦ (u, ground arith, ground arith)
      ]
    ],
    λ h. let (u, p, q) = h in ground arith,
  )
