-- ===== src/Agent/Chain.antt =====
-- What the client works on: the contracts behind ethers, as the parameter `Contracts`, and the world,
-- which is their state and the list of the transactions that the client has asked to send.
use set.Prelude.{ℕ, Bool, true, false, Option, List, ◌∷◌}
use set.Prelude.Int.{ℤ, pos, ltb_ℤ}
use set.Prelude.Text.{Text}
use set.Prelude.Number.{Number}
use set.Effects.{Action, pure, when, ◌>>=◌, ◌>>◌}
use set.Retry.{Runtime, with_retry, default_retry_options}
use set.Validation.{Ethers}
use set.Gas.{Multiplier, FeeData}
use set.Agent.Types.{
  Addresses, AgentPolicy, InvoiceTerms, EscrowInfo, ReleaseSplit, SettlementPreview, SystemStatus,
  FulfillmentType, DisputeResolution,
}

-- The calls that change the state of a contract. The first argument of `approve` is the token.
pub data Tx : Type 0 where
  approve : Text → Text → ℕ → Tx
  deposit : ℤ → Text → ℤ → ℕ → Tx
  deposit_to_gas_tank : Text → ℤ → Text → ℤ → Tx
  transfer : Text → ℤ → Tx
  deposit_to_escrow : Text → Text → InvoiceTerms → Number → ℤ → Tx
  release refund execute_timeout claim : ℕ → Tx
  dispute : ℕ → ℕ → Text → Tx
  dispute_milestone : ℕ → ℕ → ℕ → Text → Tx
  submit_fulfillment : ℕ → FulfillmentType → Text → Tx
  resolve_dispute : ℕ → DisputeResolution → Text → Tx
  bridge_out : Number → Text → ℤ → Tx
  request_redeem : ℤ → Text → Tx

-- The events that the client looks for.
pub data Event : Type 0 where
  gateway_deposit gateway_gas_tank_top_up gateway_escrow_funded bridge_out redeem_requested : Event

-- The arguments that a parsed log has, by name: numbers, and texts.
pub record EventArgs : Type 0 where
  pub number : Text → Option ℕ
  pub text : Text → Option Text

pub record Log : Type 0 where
  pub topic : Text
  pub body : Text

pub record Receipt : Type 0 where
  pub hash : Text
  pub logs : List Log

-- Each view is one call to the node; it may fail, and the state may have moved when it answers.
pub record Contracts (E : Type 0) : Type 0 where
  pub runtime : Runtime E
  pub ethers : Ethers
  pub addresses : Addresses
  pub signer_address : Text
  pub block_confirmations : ℕ
  pub gas_buffer : Multiplier
  pub topic_hash : Event → Text
  pub parse_log : Event → Log → Option EventArgs
  -- status lens, NAV controller
  pub get_status : Action E SystemStatus
  pub try_current_nav_ray : Action E (ℕ × Bool)
  pub nav0_ray : Action E ℕ
  pub t0 : Action E ℕ
  pub rate_per_second_ray : Action E ℤ
  pub max_staleness : Action E ℕ
  -- vault, settlement asset
  pub convert_to_assets : ℤ → Action E ℕ
  pub convert_to_shares : ℤ → Action E ℕ
  pub convert_to_shares_invoice_or_withdraw : ℤ → Action E ℕ
  pub preview_mint : ℕ → Action E ℕ
  pub balance_of : Text → Text → Action E ℕ
  pub allowance : Text → Text → Text → Action E ℕ
  -- policy, grounding, paymaster
  pub gas_tank_shares : Text → Action E ℕ
  pub policies : Text → Action E AgentPolicy
  pub merchant_allowlist : Text → Text → Action E Bool
  pub is_grounded_now : Text → Action E Bool
  pub current_assets : Text → Action E (ℕ × ℕ × ℕ)
  -- escrow
  pub preview_release_split : ℕ → Action E ReleaseSplit
  pub preview_settlement : ℕ → Action E SettlementPreview
  pub escrows : ℕ → Action E EscrowInfo
  pub escrow_completed_milestones : ℕ → Action E ℕ
  pub escrow_required_milestones : ℕ → Action E ℕ
  -- bridge
  pub bridge_paused : Action E Bool
  pub trusted_peer : Number → Action E Text
  pub can_bridge : Number → ℤ → Action E Bool
  pub outstanding_shares : Action E ℕ
  pub max_outstanding_shares : Action E ℕ
  pub remaining_mint_capacity_shares : Action E ℕ
  -- gas
  pub estimate_deposit : ℤ → Text → ℤ → Action E ℕ
  pub get_fee_data : Action E FeeData
  -- sending, and `tx.wait`, by the transaction's hash
  pub send : Tx → Action E Text
  pub wait : Text → ℕ → Action E Receipt

-- `sent` has the last transaction first. A call that the node refuses is listed too.
pub record World (E : Type 0) : Type 0 where
  pub env : E
  pub sent : List Tx

abbrev pub max_uint256 : ℕ
max_uint256 = 115792089237316195423570985008687907853269984665640564039457584007913129639935

-- The events in the gateway's, the bridge's and the claim queue's ABI of
-- sdk/src/stablecoin/v2/abis.ts.
abbrev pub in_abi : Event → Bool
in_abi Event.gateway_deposit = true
in_abi Event.gateway_escrow_funded = true
in_abi Event.bridge_out = true
in_abi Event.redeem_requested = true
in_abi Event.gateway_gas_tank_top_up = false

module _ {E : Type 0} where
  -- An action of the environment, which sends nothing.
  abbrev pub on_env : {A : Type 0} → Action E A → Action (World E) A
  on_env m w = let (r, e) = m w.env in (r, record w { env = e })

  module _ (c : Contracts E) where
    -- `withRetry(() => …)` around one view.
    abbrev pub read : {A : Type 0} → Action E A → Action (World E) A
    read m = on_env (with_retry c.runtime m default_retry_options)

    abbrev pub send_tx : Tx → Action (World E) Text
    send_tx tx w = let (r, e) = c.send tx w.env in (r, record { env = e; sent = tx ∷ w.sent })

    -- `const tx = await …; const receipt = await tx.wait(config.blockConfirmations)`
    unfoldable pub transact : Tx → Action (World E) Receipt
    transact tx = do hash ← send_tx tx; on_env (c.wait hash c.block_confirmations)

    -- The approval before a payment: of the greatest amount, if the allowance is too small.
    unfoldable pub ensure_allowance : Text → Text → ℤ → Action (World E) (Unit {0})
    unfolding transact
    ensure_allowance token spender amount = do
      allowed ← read (c.allowance token c.signer_address spender)
      when (ltb_ℤ (pos allowed) amount) (do transact (approve token spender max_uint256); pure tt)
