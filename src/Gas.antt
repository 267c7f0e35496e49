-- ===== src/Gas.antt =====
-- sdk/src/utils/gas.ts: gas limits and fees. A multiplier is a float that the code only reads
-- through `Math.ceil(multiplier * 10000)`, which is what the model keeps of it. What the node
-- answers (`estimateGas`, `getFeeData`) is a parameter.
pub mod Rounding
use set.Prelude.{
  ℕ, ◌+◌, ◌-◌, ◌*◌, ◌/◌, Bool, true, false, not, Option, none, some, ◌++◌, if◌then◌else◌,
}
use set.Prelude.Text.{Text, codes}
use set.Errors.{SdkErrorCode, Thrown, sdk, sdk_error}
use set.Effects.{Result, ok, err, Action, pure, throw, throw_if, lift, catch, ◌>>=◌, ◌>>◌}

-- A float multiplier: not finite or not positive, or positive with `Math.ceil(m * 10000)` given.
pub data Multiplier : Type 0 where
  unusable : Multiplier
  scaled : ℕ → Multiplier

abbrev pub gas_scale : ℕ
gas_scale = 10000

unfoldable pub apply_multiplier : ℕ → Multiplier → Result ℕ
apply_multiplier value unusable =
    err (sdk (sdk_error SdkErrorCode.validation_error (codes "Invalid gas multiplier")))
apply_multiplier value (scaled m) = ok ((value * m + gas_scale - 1) / gas_scale)

-- Fields that the node may leave out are `null`.
pub record FeeData : Type 0 where
  pub gas_price : Option ℕ
  pub max_fee_per_gas : Option ℕ
  pub max_priority_fee_per_gas : Option ℕ

pub record GasEstimate : Type 0 where
  pub gas_limit : ℕ
  pub gas_limit_with_buffer : ℕ
  pub gas_price : ℕ
  pub max_fee_per_gas : ℕ
  pub max_priority_fee_per_gas : ℕ
  pub estimated_cost : ℕ
  pub estimated_cost_with_buffer : ℕ

pub record GasEstimateOptions : Type 0 where
  pub gas_buffer : Multiplier
  pub gas_price : Option ℕ
  pub max_fee_per_gas : Option ℕ
  pub max_priority_fee_per_gas : Option ℕ

-- `a ?? b`
abbrev pub nullish : {A : Type 0} → Option A → A → A
nullish none b = b
nullish (some a) b = a

-- The fields of the estimate, from the node's answers.
unfoldable pub gas_costs : GasEstimateOptions → ℕ → ℕ → FeeData → GasEstimate
gas_costs options limit with_buffer fees =
    let price = nullish options.gas_price (nullish fees.gas_price 1000000000) in
    let max_fee = nullish options.max_fee_per_gas (nullish fees.max_fee_per_gas price) in
    let priority =
      nullish options.max_priority_fee_per_gas (nullish fees.max_priority_fee_per_gas 1000000000) in
    record {
      gas_limit = limit;
      gas_limit_with_buffer = with_buffer;
      gas_price = price;
      max_fee_per_gas = max_fee;
      max_priority_fee_per_gas = priority;
      estimated_cost = limit * max_fee;
      estimated_cost_with_buffer = with_buffer * max_fee;
    }

-- The `catch` of `estimateGas`: an `SDKError` is passed on.
abbrev pub gas_error : Text → Thrown → Thrown
gas_error function_name (sdk e) = sdk e
gas_error function_name _ = sdk (
    sdk_error SdkErrorCode.gas_estimation_failed
      (codes "Gas estimation failed for " ++ function_name))

module _ {S : Type 0} where
  -- `estimate` is `contract[functionName].estimateGas(...args)`, `fee_data` is `getFeeData()`.
  unfoldable pub estimate_gas :
      Bool → Text → Action S ℕ → Action S FeeData → GasEstimateOptions → Action S GasEstimate
  unfolding apply_multiplier gas_costs
  estimate_gas has_provider function_name estimate fee_data options =
      catch
        (do
          throw_if (not has_provider)
              (sdk (sdk_error SdkErrorCode.contract_error (codes "Contract has no provider")))
          gas_limit ← estimate
          with_buffer ← lift (apply_multiplier gas_limit options.gas_buffer)
          fees ← fee_data
          pure (gas_costs options gas_limit with_buffer fees))
        (gas_error function_name)

unfoldable pub calculate_required_fee : ℕ → ℕ → Option Multiplier → Result ℕ
unfolding apply_multiplier
calculate_required_fee gas_limit max_fee_per_gas none = ok (gas_limit * max_fee_per_gas)
calculate_required_fee gas_limit max_fee_per_gas (some buffer) =
    apply_multiplier (gas_limit * max_fee_per_gas) buffer

unfoldable pub apply_gas_buffer : ℕ → Multiplier → Result ℕ
unfolding apply_multiplier
apply_gas_buffer gas_limit buffer = apply_multiplier gas_limit buffer
