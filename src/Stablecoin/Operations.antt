-- ===== src/Stablecoin/Operations.antt =====
-- `deposit`, `requestRedemption`, `cancelRedemption`, `wrap` and `unwrap` of
-- sdk/src/stablecoin/StablecoinClient.ts. Debug messages are left out.
use set.Prelude.{ℕ, true, not, Option, none, some, [], ◌∷◌, ◌++◌}
use set.Prelude.Int.{ℤ, pos_part}
use set.Prelude.Text.{Text, codes}
use set.Errors.{SdkErrorCode, Thrown, sdk, sdk_error}
use set.Effects.{Result, ok, Action, pure, throw_if, lift, ◌>>=◌, ◌>>◌}
use set.Validation.{validate_address, validate_positive_amount, assert_sufficient_balance}
use set.Gas.{GasEstimate, GasEstimateOptions, estimate_gas}
use set.Stablecoin.Chain.{
  Tx, Event, Contracts, World, on_env, read, transact, approve_if_needed, event_arg, or_throw,
  transaction_failed, wrapping,
}

pub record DepositResult : Type 0 where
  pub tx_hash : Text
  pub ss_usd_minted : ℕ

pub record RedemptionResult : Type 0 where
  pub tx_hash : Text
  pub request_id : ℕ

pub record WrapResult : Type 0 where
  pub tx_hash : Text
  pub wss_usd_received : ℕ

pub record UnwrapResult : Type 0 where
  pub tx_hash : Text
  pub ss_usd_received : ℕ

-- `new EventParseError(…)`
abbrev pub parse_error : Text → Thrown
parse_error name =
    sdk (sdk_error SdkErrorCode.event_parse_error (codes "Failed to parse event: " ++ name))

module _ {E : Type 0} (c : Contracts E) where
  -- `recipient ? validateAddress(recipient, "recipient") : await this.signer.getAddress()`
  abbrev pub recipient_or_signer : Option Text → Result Text
  recipient_or_signer none = ok c.signer_address
  recipient_or_signer (some []) = ok c.signer_address
  recipient_or_signer (some (x ∷ s)) = validate_address c.ethers (x ∷ s)

  -- An amount that is compared with a balance is positive.
  unfoldable pub check_balance : Text → ℤ → Action (World E) (Unit {0})
  check_balance token amount = do
    balance ← read c (c.balance_of token c.signer_address)
    lift (assert_sufficient_balance balance (pos_part amount))

  unfoldable pub check_collateral : Text → Action (World E) (Unit {0})
  check_collateral token = do
    approved ← read c (c.is_approved_collateral token)
    throw_if (not approved) (
        sdk (
          sdk_error SdkErrorCode.invalid_collateral
            (codes "Token is not approved collateral: " ++ token)))

  abbrev pub gas_options : GasEstimateOptions
  gas_options = record {
    gas_buffer = c.gas_buffer;
    gas_price = none;
    max_fee_per_gas = none;
    max_priority_fee_per_gas = none;
  }

  -- The provider of the signer is there, since the constructor takes it from the signer.
  unfoldable pub estimate : Text → Action E ℕ → Action (World E) GasEstimate
  estimate name m = on_env (estimate_gas true name m c.get_fee_data gas_options)

  -- The `try` of `deposit`.
  unfoldable pub deposit_checked : Text → ℤ → Text → Action (World E) DepositResult
  deposit_checked token amount to = do
    paused ← read c c.deposits_paused
    throw_if paused
        (sdk (sdk_error SdkErrorCode.deposits_paused (codes "Deposits are currently paused")))
    check_collateral token
    check_balance token amount
    approve_if_needed c token c.addresses.treasury amount
    gas ← estimate (codes "deposit") (c.estimate_deposit token amount to)
    receipt ←
        transact c (Tx.deposit token amount to gas.gas_limit_with_buffer)
          (codes "Deposit transaction failed")
    minted ← lift (
        or_throw (parse_error (codes "Deposited.ssUSDMinted"))
          (event_arg c receipt Event.deposited (codes "ssUSDMinted")))
    pure (record { tx_hash = receipt.hash; ss_usd_minted = minted })

  unfoldable pub deposit : Text → ℤ → Option Text → Action (World E) DepositResult
  deposit collateral_token amount recipient = do
    token ← lift (validate_address c.ethers collateral_token)
    lift (validate_positive_amount amount)
    to ← lift (recipient_or_signer recipient)
    wrapping (codes "Deposit failed") (deposit_checked token amount to)

  -- The `try` of `requestRedemption`.
  unfoldable pub request_redemption_checked : ℤ → Text → Action (World E) RedemptionResult
  request_redemption_checked amount collateral = do
    paused ← read c c.redemptions_paused
    throw_if paused
        (sdk (sdk_error SdkErrorCode.redemptions_paused (codes "Redemptions are currently paused")))
    check_balance c.addresses.ss_usd amount
    check_collateral collateral
    approve_if_needed c c.addresses.ss_usd c.addresses.treasury amount
    gas ← estimate (codes "requestRedemption") (c.estimate_request_redemption amount collateral)
    receipt ←
        transact c (Tx.request_redemption amount collateral gas.gas_limit_with_buffer)
          (codes "Redemption request failed")
    request_id ← lift (
        or_throw (parse_error (codes "RedemptionRequested.requestId"))
          (event_arg c receipt Event.redemption_requested (codes "requestId")))
    pure (record { tx_hash = receipt.hash; request_id = request_id })

  unfoldable pub request_redemption : ℤ → Text → Action (World E) RedemptionResult
  request_redemption amount preferred_collateral = do
    lift (validate_positive_amount amount)
    collateral ← lift (validate_address c.ethers preferred_collateral)
    wrapping (codes "Redemption request failed") (request_redemption_checked amount collateral)

  unfoldable pub cancel_redemption : ℕ → Action (World E) Text
  cancel_redemption request_id = wrapping (codes "Cancel redemption failed") (do
    receipt ← transact c (Tx.cancel_redemption request_id) (codes "Cancel redemption failed")
    pure receipt.hash)

  -- The `try` of `wrap`.
  unfoldable pub wrap_checked : ℤ → Action (World E) WrapResult
  wrap_checked amount = do
    check_balance c.addresses.ss_usd amount
    approve_if_needed c c.addresses.ss_usd c.addresses.wss_usd amount
    receipt ← transact c (Tx.wrap amount) (codes "Wrap failed")
    received ← lift (
        or_throw (transaction_failed (codes "Wrap event parsing failed"))
          (event_arg c receipt Event.wrapped (codes "wSSDCAmount")))
    pure (record { tx_hash = receipt.hash; wss_usd_received = received })

  unfoldable pub wrap : ℤ → Action (World E) WrapResult
  wrap amount = do
    lift (validate_positive_amount amount)
    wrapping (codes "Wrap failed") (wrap_checked amount)

  -- The `try` of `unwrap`.
  unfoldable pub unwrap_checked : ℤ → Action (World E) UnwrapResult
  unwrap_checked amount = do
    check_balance c.addresses.wss_usd amount
    receipt ← transact c (Tx.unwrap amount) (codes "Unwrap failed")
    received ← lift (
        or_throw (transaction_failed (codes "Unwrap event parsing failed"))
          (event_arg c receipt Event.unwrapped (codes "SSDCAmount")))
    pure (record { tx_hash = receipt.hash; ss_usd_received = received })

  unfoldable pub unwrap : ℤ → Action (World E) UnwrapResult
  unwrap amount = do
    lift (validate_positive_amount amount)
    wrapping (codes "Unwrap failed") (unwrap_checked amount)
