-- ===== src/Agent/Funding.antt =====
-- Deposits, the gas tank, transfers, redemptions and balances of the client.
pub mod Traces
pub mod Payments
use set.Prelude.{ℕ, ◌+◌, Bool, true, false, Option, none, some}
use set.Prelude.Int.{ℤ, pos}
use set.Prelude.Text.{Text, codes}
use set.Effects.{Result, ok, err, Action, pure, lift, catch, ◌>>=◌, ◌>>◌}
use set.Validation.{validate_address, validate_positive_amount}
use set.Gas.{GasEstimate, GasEstimateOptions, estimate_gas}
use set.Agent.Types.{AgentStatus}
use set.Agent.Chain.{Tx, Event, Receipt, Contracts, World, on_env, read, transact, ensure_allowance}
use set.Agent.Events.{extract_number}
use set.Agent.Status.{
  Operation, assert_system_ready, assert_spend_allowed, assets_to_shares, shares_to_assets,
}

pub record DepositResult : Type 0 where
  pub tx_hash : Text
  pub shares_received : ℕ

pub record GasTankTopUpResult : Type 0 where
  pub tx_hash : Text
  pub shares_deposited : ℕ

pub record PayResult : Type 0 where
  pub tx_hash : Text
  pub shares_sent : ℕ

pub record RedeemRequestResult : Type 0 where
  pub tx_hash : Text
  pub claim_id : ℕ

module _ {E : Type 0} (c : Contracts E) where
  abbrev gas_options : GasEstimateOptions
  gas_options = record {
    gas_buffer = c.gas_buffer;
    gas_price = none;
    max_fee_per_gas = none;
    max_priority_fee_per_gas = none;
  }

  -- The provider of the signer is there, since the constructor takes it from the signer.
  unfoldable pub estimate_deposit_gas : ℤ → ℤ → Action (World E) GasEstimate
  unfolding estimate_gas
  estimate_deposit_gas assets min_shares_out = on_env (
      estimate_gas true (codes "deposit")
        (c.estimate_deposit assets c.signer_address min_shares_out) c.get_fee_data gas_options)

  unfoldable pub deposit : ℤ → ℤ → Action (World E) DepositResult
  deposit assets min_shares_out = do
    lift (validate_positive_amount assets)
    assert_system_ready c Operation.deposit
    ensure_allowance c c.addresses.settlement_asset c.addresses.gateway assets
    gas ← estimate_deposit_gas assets min_shares_out
    receipt ←
        transact c (Tx.deposit assets c.signer_address min_shares_out gas.gas_limit_with_buffer)
    shares_received ← lift (extract_number c receipt Event.gateway_deposit (codes "sharesOut"))
    pure (record { tx_hash = receipt.hash; shares_received = shares_received })

  unfoldable pub top_up_gas_tank : ℤ → ℤ → Action (World E) GasTankTopUpResult
  top_up_gas_tank assets min_shares_out = do
    lift (validate_positive_amount assets)
    ensure_allowance c c.addresses.settlement_asset c.addresses.gateway assets
    receipt ←
        transact c
          (Tx.deposit_to_gas_tank c.addresses.paymaster assets c.signer_address min_shares_out)
    shares_deposited ←
        lift (extract_number c receipt Event.gateway_gas_tank_top_up (codes "sharesOut"))
    pure (record { tx_hash = receipt.hash; shares_deposited = shares_deposited })

  unfoldable pub transfer : Text → ℤ → Action (World E) Text
  transfer to shares = do
    valid_to ← lift (validate_address c.ethers to)
    lift (validate_positive_amount shares)
    receipt ← transact c (Tx.transfer valid_to shares)
    pure receipt.hash

  unfoldable pub pay : Text → ℤ → Action (World E) PayResult
  pay to asset_amount = do
    valid_to ← lift (validate_address c.ethers to)
    lift (validate_positive_amount asset_amount)
    status ← assert_spend_allowed c valid_to asset_amount
    shares ← assets_to_shares c asset_amount
    hash ← transfer valid_to (pos shares)
    pure (record { tx_hash = hash; shares_sent = shares })

  unfoldable pub request_redeem : ℤ → Action (World E) RedeemRequestResult
  request_redeem shares = do
    lift (validate_positive_amount shares)
    assert_system_ready c Operation.redeem
    ensure_allowance c c.addresses.vault c.addresses.claim_queue shares
    receipt ← transact c (Tx.request_redeem shares c.signer_address)
    claim_id ← lift (extract_number c receipt Event.redeem_requested (codes "claimId"))
    pure (record { tx_hash = receipt.hash; claim_id = claim_id })

  unfoldable pub claim_redemption : ℕ → Action (World E) Text
  claim_redemption claim_id = do receipt ← transact c (Tx.claim claim_id); pure receipt.hash

  unfoldable pub get_settlement_balance : Action (World E) ℕ
  get_settlement_balance = read c (c.balance_of c.addresses.settlement_asset c.signer_address)

  unfoldable pub get_share_balance : Action (World E) ℕ
  get_share_balance = read c (c.balance_of c.addresses.vault c.signer_address)

  unfoldable pub get_asset_value : Action (World E) ℕ
  unfolding get_share_balance
  get_asset_value = do shares ← get_share_balance; shares_to_assets c (pos shares)
