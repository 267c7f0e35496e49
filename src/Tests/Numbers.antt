-- ===== src/Tests/Numbers.antt =====
-- The arithmetic of math.ts, gas.ts, retry.ts and validation.ts at concrete inputs.
use set.Prelude.{ℕ, zero, suc, ◌+◌, ◌-◌, ◌/◌, ◌≤◌, ◌≡◌, ◌↔◌, true, none, some, arith}
use set.Prelude.Text.{codes, to_lower_case}
use set.Errors.{SdkErrorCode, Thrown, error, sdk, sdk_error}
use set.Effects.{ok, err, Action}
use set.Math.{
  ray, saturating_sub, compute_conservative_sponsored_headroom_assets, AvailableSpendInputs,
  compute_available_spend_assets,
}
use set.Math.{locked_shares, snapshot_assets, headroom_safe}
use set.Math.{IsAllowedSpend, available_spend_iff}
use set.Retry.{Runtime, with_retry, default_retry_options}
use set.Retry.Attempts.{Runs, with_retry-Runs}
use set.Gas.{scaled, FeeData, GasEstimateOptions}
use set.Validation.{validate_hex_data}
use set.Validation.Hex.{IsHexData, validate_hex_data_iff}

-- A NAV of one and a half.
abbrev high_nav : ℕ
high_nav = ray + ray / 2

headroom_safe_example : snapshot_assets high_nav (locked_shares high_nav 400) ≤ 1000 - 100
unfolding compute_conservative_sponsored_headroom_assets saturating_sub
headroom_safe_example = headroom_safe 1000 100 high_nav 400 (omega arith) (omega arith)

abbrev inputs : AvailableSpendInputs
inputs = record {
  collateral_assets = 1000;
  effective_floor_assets = 100;
  nav_ray = high_nav;
  per_tx_limit_assets = 100;
  daily_limit_assets = 500;
  spent_today_assets = 450;
  policy_exists = true;
  session_active = true;
}

available_spend_iff_example :
    (50 ≤ compute_available_spend_assets inputs) ↔ IsAllowedSpend inputs 50
available_spend_iff_example = available_spend_iff inputs 50 (omega arith) (omega arith)

-- An operation on the count of its runs, which fails at first and returns on its second run.
abbrev flaky : Action ℕ ℕ
flaky zero = (err (error (codes "timeout")), 1)
flaky (suc n) = (ok n, suc n + 1)

abbrev counting : Runtime ℕ
counting = record { clock = λ s. s; sleep = λ d s. s; random = λ s. (0, s) }

with_retry-Runs_example :
    let x = with_retry counting flaky default_retry_options 0 in
    Runs counting flaky default_retry_options 1 0 x.0 x.1
with_retry-Runs_example = with_retry-Runs counting flaky default_retry_options 0 (omega arith)

abbrev bad_amount : Thrown
bad_amount = sdk (sdk_error SdkErrorCode.invalid_amount (codes "no"))

abbrev refused : Action ℕ ℕ
refused s = (err bad_amount, s + 1)

abbrev fees : FeeData
fees = record { gas_price = some 2; max_fee_per_gas = some 3; max_priority_fee_per_gas = none }

abbrev options : GasEstimateOptions
options = record {
  gas_buffer = scaled 12000;
  gas_price = none;
  max_fee_per_gas = none;
  max_priority_fee_per_gas = none;
}

validate_hex_data_iff_example :
    (validate_hex_data (codes "0xAb") ≡ ok (codes "0xab"))
    ↔ (IsHexData (codes "0xAb") × (codes "0xab" ≡ to_lower_case (codes "0xAb")))
validate_hex_data_iff_example = validate_hex_data_iff (codes "0xAb") (codes "0xab")
