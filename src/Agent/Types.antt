-- ===== src/Agent/Types.antt =====
-- sdk/src/stablecoin/v2/types.ts. A `bigint` that a contract returns as an unsigned integer is ℕ; an
-- amount that a caller or another agent chooses is an integer. Times and durations are whole,
-- non-negative numbers of seconds; the fractions that `number` allows there are left out.
use set.Prelude.{ℕ, Bool, Option}
use set.Prelude.Int.{ℤ}
use set.Prelude.Text.{Text}
use set.Prelude.Number.{Number}

pub data FulfillmentType : Type 0 where
  none delivery service digital other : FulfillmentType

pub data DisputeResolution : Type 0 where
  none release refund : DisputeResolution

pub data DisputeReason : Type 0 where
  none non_delivery quality not_as_described fraud_or_cancelled other : DisputeReason

pub data EscrowStatus : Type 0 where
  none funded released refunded : EscrowStatus

pub data SettlementMode : Type 0 where
  none buyer_release merchant_timeout_release dispute_timeout_release : SettlementMode
  arbiter_release buyer_refund dispute_timeout_refund arbiter_refund : SettlementMode

pub record Addresses : Type 0 where
  pub vault : Text
  pub gateway : Text
  pub nav_controller : Text
  pub escrow : Text
  pub claim_queue : Text
  pub policy_module : Text
  pub grounding_registry : Text
  pub paymaster : Text
  pub bridge : Text
  pub status_lens : Text
  pub circuit_breaker : Text
  pub settlement_asset : Text

pub record AgentPolicy : Type 0 where
  pub per_tx_limit_assets : ℕ
  pub daily_limit_assets : ℕ
  pub spent_today_assets : ℕ
  pub day_start : ℕ
  pub min_assets_floor : ℕ
  pub committed_assets : ℕ
  pub session_expiry : ℕ
  pub enforce_merchant_allowlist : Bool
  pub exists : Bool

pub record AgentStatus : Type 0 where
  pub address : Text
  pub shares : ℕ
  pub assets : ℕ
  pub effective_floor_assets : ℕ
  pub gas_tank_shares : ℕ
  pub policy : AgentPolicy
  pub is_grounded : Bool
  pub available_spend : ℕ
  pub session_active : Bool

pub record InvoiceTerms : Type 0 where
  pub assets_due : ℤ
  pub expiry : ℕ
  pub release_after : ℕ
  pub max_nav_age : ℕ
  pub max_shares_in : ℤ
  pub requires_fulfillment : Bool
  pub fulfillment_type : FulfillmentType
  pub required_milestones : ℕ
  pub challenge_window : ℕ
  pub arbiter_deadline : ℕ
  pub dispute_timeout_resolution : DisputeResolution

pub record EscrowInfo : Type 0 where
  pub id : ℕ
  pub buyer : Text
  pub merchant : Text
  pub refund_recipient : Text
  pub shares_held : ℕ
  pub principal_assets_snapshot : ℕ
  pub committed_assets : ℕ
  pub release_after : ℕ
  pub buyer_bps : ℕ
  pub status : EscrowStatus
  pub requires_fulfillment : Bool
  pub fulfillment_type : FulfillmentType
  pub disputed : Bool
  pub dispute_reason : DisputeReason
  pub fulfilled_at : ℕ
  pub fulfillment_evidence : Text
  pub resolution : DisputeResolution
  pub resolved_at : ℕ
  pub resolution_evidence : Text
  pub challenge_window : ℕ
  pub arbiter_deadline : ℕ
  pub timeout_resolution : DisputeResolution
  pub disputed_at : ℕ
  pub settlement_mode : SettlementMode
  pub settled_at : ℕ

pub record ReleaseSplit : Type 0 where
  pub total_shares : ℕ
  pub principal_shares : ℕ
  pub gross_yield_shares : ℕ
  pub reserve_shares : ℕ
  pub fee_shares : ℕ
  pub buyer_yield_shares : ℕ
  pub merchant_yield_shares : ℕ

pub record SettlementPreview : Type 0 where
  pub status : EscrowStatus
  pub release_after_passed : Bool
  pub fulfillment_submitted : Bool
  pub fulfillment_complete : Bool
  pub dispute_active : Bool
  pub dispute_resolved : Bool
  pub dispute_timed_out : Bool
  pub requires_arbiter_resolution : Bool
  pub can_buyer_release : Bool
  pub can_merchant_release : Bool
  pub can_arbiter_release : Bool
  pub can_buyer_refund : Bool
  pub can_arbiter_refund : Bool
  pub can_arbiter_resolve : Bool
  pub buyer_release_mode : SettlementMode
  pub merchant_release_mode : SettlementMode
  pub arbiter_release_mode : SettlementMode
  pub buyer_refund_mode : SettlementMode
  pub arbiter_refund_mode : SettlementMode
  pub required_milestones : ℕ
  pub completed_milestones : ℕ
  pub next_milestone_number : ℕ
  pub disputed_milestone : ℕ
  pub challenge_window_ends_at : ℕ
  pub dispute_window_ends_at : ℕ

pub data SettlementActionType : Type 0 where
  release refund resolve_dispute execute_timeout : SettlementActionType

pub data SettlementActor : Type 0 where
  buyer merchant arbiter anyone : SettlementActor

pub record SettlementAction : Type 0 where
  pub type : SettlementActionType
  pub actor : SettlementActor
  pub settlement_mode : Option SettlementMode
  pub resolution : Option DisputeResolution

-- The fields that the client reads; the others are only passed on to the caller.
pub record SystemStatus : Type 0 where
  pub nav_fresh : Bool
  pub mint_deposit_allowed : Bool
  pub request_redeem_allowed : Bool
  pub bridging_allowed : Bool
  pub bridge_mint_allowed : Bool
  pub escrow_ops_paused : Bool
  pub nav_ray : ℕ

pub record BridgeStatus : Type 0 where
  pub bridge_paused : Bool
  pub bridging_allowed : Bool
  pub bridge_mint_allowed : Bool
  pub outstanding_shares : ℕ
  pub max_outstanding_shares : ℕ
  pub remaining_mint_capacity_shares : ℕ

pub record BridgeOutPreview : Type 0 where
  pub status : BridgeStatus
  pub dst_chain : Number
  pub recipient : Text
  pub recipient_bytes32 : Text
  pub shares : ℤ
  pub assets_equivalent : ℕ
  pub share_balance : ℕ
  pub trusted_peer : Text
  pub route_trusted : Bool
  pub contract_can_bridge : Bool
  pub can_bridge_now : Bool

pub record BridgeOutResult : Type 0 where
  pub tx_hash : Text
  pub msg_id : Text
  pub dst_chain : Number
  pub recipient : Text
  pub recipient_bytes32 : Text
  pub shares_burned : ℤ

pub record EscrowFundResult : Type 0 where
  pub tx_hash : Text
  pub escrow_id : ℕ
  pub shares_locked : ℕ
  pub assets_in : ℕ

-- `description`, `callbackUrl` and `metadata` are for the reader; no code looks at them.
pub record PaymentRequest : Type 0 where
  pub request_id : Text
  pub payee : Text
  pub amount : ℤ
  pub terms : InvoiceTerms
  pub buyer_bps : Number
  pub expires_at : ℕ

pub record PaymentAcceptance : Type 0 where
  pub request_id : Text
  pub escrow_id : ℕ
  pub tx_hash : Text
  pub shares_locked : ℕ
  pub estimated_yield : ℕ

pub record PaymentAcceptancePreview : Type 0 where
  pub request_id : Text
  pub payee : Text
  pub assets_due : ℤ
  pub principal_assets_snapshot : ℕ
  pub estimated_assets_in : ℕ
  pub shares_locked : ℕ
  pub projected_nav_ray : ℕ
  pub estimated_yield : ℕ
  pub release_after : ℕ
  pub expires_at : ℕ

pub record FulfillmentProof : Type 0 where
  pub escrow_id : ℕ
  pub milestone_number : ℕ
  pub evidence_hash : Text
  pub fulfillment_type : Option FulfillmentType
