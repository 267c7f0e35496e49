-- ===== src/Agent/Escrow.antt =====
-- Escrows: funding, release, disputes, settlement actions, fulfillment and timeouts.
pub mod Actions
pub mod Milestones
pub mod Funding
use set.Prelude.{
  ℕ, zero, suc, ◌+◌, ◌-◌, ◌/◌, Bool, true, false, not, ◌&&◌, ◌||◌, Option, none, some, List, [],
  ◌∷◌, ◌++◌, ltb, if◌then◌else◌,
}
use set.Prelude.Int.{ℤ, pos, negsuc, ◌+ℤ◌, ltb_ℤ}
use set.Prelude.Text.{Text, codes, text_eq}
use set.Prelude.Number.{Number}
use set.Errors.{AgentErrorCode, Thrown, agent, agent_error}
use set.Effects.{Result, ok, err, Action, pure, throw, throw_if, lift, ◌>>=◌, ◌>>◌}
use set.Validation.{validate_address, validate_positive_amount, validate_bytes32}
use set.Agent.Types.{
  DisputeResolution, FulfillmentType, SettlementMode, InvoiceTerms, EscrowInfo, EscrowFundResult,
  ReleaseSplit, SettlementPreview, SettlementAction, SettlementActionType, SettlementActor,
  FulfillmentProof,
}
use set.Agent.Chain.{Tx, Event, Receipt, Contracts, World, read, transact, ensure_allowance}
use set.Agent.Events.{extract_number}
use set.Agent.Status.{Operation, agent_throw_if, assert_system_ready, assert_spend_allowed}
use set.Agent.Request.{is_no_resolution}

abbrev pub zero_bytes32 : Text
zero_bytes32 = codes "0x0000000000000000000000000000000000000000000000000000000000000000"

unfoldable pub validate_non_zero_bytes32 : Text → Result Text
validate_non_zero_bytes32 value = elim (validate_bytes32 value) [
  | err e ↦ err e
  | ok normalized ↦
      if text_eq normalized zero_bytes32
      then err (
          agent
            (agent_error AgentErrorCode.invalid_settlement_request (codes "value cannot be zero")))
      else ok normalized
]

abbrev pub timeout_settlement_mode : DisputeResolution → SettlementMode
timeout_settlement_mode DisputeResolution.release = SettlementMode.dispute_timeout_release
timeout_settlement_mode DisputeResolution.refund = SettlementMode.dispute_timeout_refund
timeout_settlement_mode DisputeResolution.none = SettlementMode.none

-- `maxAssetsIn ?? assetsDue + assetsDue / 100n`, of a positive amount due.
abbrev pub escrow_cap : Option ℤ → ℤ → ℤ
escrow_cap (some most) due = most
escrow_cap none (pos due) = pos (due + due / 100)
escrow_cap none (negsuc due) = negsuc due

abbrev pub push_if : {A : Type 0} → Bool → A → List A → List A
push_if b a rest = if b then a ∷ rest else rest

abbrev pub by_mode : SettlementActionType → SettlementActor → SettlementMode → SettlementAction
by_mode type actor mode = record {
  type = type;
  actor = actor;
  settlement_mode = some mode;
  resolution = none;
}

abbrev pub by_arbiter : DisputeResolution → SettlementAction
by_arbiter resolution = record {
  type = SettlementActionType.resolve_dispute;
  actor = SettlementActor.arbiter;
  settlement_mode = none;
  resolution = some resolution;
}

abbrev pub by_timeout : DisputeResolution → SettlementAction
by_timeout resolution = record {
  type = SettlementActionType.execute_timeout;
  actor = SettlementActor.anyone;
  settlement_mode = some (timeout_settlement_mode resolution);
  resolution = some resolution;
}

-- The list that `getSettlementActions` builds from what it has read.
unfoldable pub settlement_actions : SettlementPreview → EscrowInfo → List SettlementAction
settlement_actions preview escrow =
    push_if preview.can_buyer_release
      (by_mode SettlementActionType.release SettlementActor.buyer preview.buyer_release_mode)
      (push_if preview.can_merchant_release
        (by_mode SettlementActionType.release SettlementActor.merchant
          preview.merchant_release_mode)
        (push_if preview.can_arbiter_release
          (by_mode SettlementActionType.release SettlementActor.arbiter
            preview.arbiter_release_mode)
          (push_if preview.can_buyer_refund
            (by_mode SettlementActionType.refund SettlementActor.buyer preview.buyer_refund_mode)
            (push_if preview.can_arbiter_refund
              (by_mode SettlementActionType.refund SettlementActor.arbiter
                preview.arbiter_refund_mode)
              ((if preview.can_arbiter_resolve
                  then by_arbiter DisputeResolution.release
                    ∷ by_arbiter DisputeResolution.refund
                    ∷ []
                  else [])
                ++ push_if
                    (preview.dispute_timed_out && not (is_no_resolution escrow.timeout_resolution))
                    (by_timeout escrow.timeout_resolution) [])))))

pub record TimeoutResult : Type 0 where
  pub tx_hash : Text
  pub resolution : DisputeResolution
  pub settlement_mode : SettlementMode

pub record ResolutionResult : Type 0 where
  pub tx_hash : Text
  pub resolution : DisputeResolution

module _ {E : Type 0} (c : Contracts E) where
  unfoldable pub fund_escrow :
      Text → InvoiceTerms → Number → Option ℤ → Action (World E) EscrowFundResult
  fund_escrow merchant terms buyer_bps max_assets_in = do
    valid_merchant ← lift (validate_address c.ethers merchant)
    lift (validate_positive_amount terms.assets_due)
    assert_system_ready c Operation.escrow
    status ← assert_spend_allowed c valid_merchant terms.assets_due
    let cap = escrow_cap max_assets_in terms.assets_due
    ensure_allowance c c.addresses.settlement_asset c.addresses.gateway cap
    receipt ←
        transact c (Tx.deposit_to_escrow c.addresses.escrow valid_merchant terms buyer_bps cap)
    escrow_id ← lift (extract_number c receipt Event.gateway_escrow_funded (codes "escrowId"))
    shares_out ← lift (extract_number c receipt Event.gateway_escrow_funded (codes "sharesOut"))
    assets_in ← lift (extract_number c receipt Event.gateway_escrow_funded (codes "assetsIn"))
    pure (record {
      tx_hash = receipt.hash;
      escrow_id = escrow_id;
      shares_locked = shares_out;
      assets_in = assets_in;
    })

  unfoldable pub release_escrow : ℕ → Action (World E) Text
  release_escrow escrow_id = do receipt ← transact c (Tx.release escrow_id); pure receipt.hash

  unfoldable pub dispute_escrow : ℕ → ℕ → ℕ → Text → Action (World E) Text
  dispute_escrow escrow_id reason target_milestone reason_hash = do
    normalized ← lift (validate_non_zero_bytes32 reason_hash)
    receipt ← transact c (
        if ltb 0 target_milestone
        then Tx.dispute_milestone escrow_id reason target_milestone normalized
        else Tx.dispute escrow_id reason normalized)
    pure receipt.hash

  -- The recipient is not used.
  unfoldable pub request_refund : ℕ → Option Text → Action (World E) Text
  request_refund escrow_id recipient = do
    receipt ← transact c (Tx.refund escrow_id)
    pure receipt.hash

  unfoldable pub preview_escrow_release : ℕ → Action (World E) ReleaseSplit
  preview_escrow_release escrow_id = read c (c.preview_release_split escrow_id)

  -- The contract's numbers are turned into the enumerations by the view.
  unfoldable pub preview_escrow_settlement : ℕ → Action (World E) SettlementPreview
  preview_escrow_settlement escrow_id = read c (c.preview_settlement escrow_id)

  unfoldable pub get_escrow : ℕ → Action (World E) EscrowInfo
  get_escrow escrow_id = do e ← read c (c.escrows escrow_id); pure (record e { id = escrow_id })

  unfoldable pub get_settlement_actions : ℕ → Action (World E) (List SettlementAction)
  get_settlement_actions escrow_id = do
    preview ← preview_escrow_settlement escrow_id
    escrow ← get_escrow escrow_id
    pure (settlement_actions preview escrow)

  -- `proof.fulfillmentType ?? (await this.getEscrow(proof.escrowId)).fulfillmentType`
  unfoldable pub fulfillment_type_of : FulfillmentProof → Action (World E) FulfillmentType
  fulfillment_type_of proof = elim proof.fulfillment_type [
    | some t ↦ pure t
    | none ↦ get_escrow proof.escrow_id >>= λ info. pure info.fulfillment_type
  ]

  unfoldable pub submit_fulfillment : FulfillmentProof → Action (World E) Text
  submit_fulfillment proof = do
    type ← fulfillment_type_of proof
    evidence ← lift (validate_non_zero_bytes32 proof.evidence_hash)
    receipt ← transact c (Tx.submit_fulfillment proof.escrow_id type evidence)
    pure receipt.hash

  unfoldable pub release_as_merchant : ℕ → Action (World E) Text
  release_as_merchant escrow_id = do receipt ← transact c (Tx.release escrow_id); pure receipt.hash

  unfoldable pub resolve_escrow_dispute :
      ℕ → DisputeResolution → Text → Action (World E) ResolutionResult
  resolve_escrow_dispute escrow_id resolution evidence_hash = do
    agent_throw_if (is_no_resolution resolution) AgentErrorCode.invalid_settlement_request
        (codes "Dispute resolution must be RELEASE or REFUND")
    preview ← preview_escrow_settlement escrow_id
    agent_throw_if (not preview.can_arbiter_resolve) AgentErrorCode.settlement_action_unavailable
        (codes "Escrow is not currently resolvable by the arbiter")
    evidence ← lift (validate_non_zero_bytes32 evidence_hash)
    receipt ← transact c (Tx.resolve_dispute escrow_id resolution evidence)
    pure (record { tx_hash = receipt.hash; resolution = resolution })

  unfoldable pub execute_escrow_timeout : ℕ → Action (World E) TimeoutResult
  execute_escrow_timeout escrow_id = do
    preview ← preview_escrow_settlement escrow_id
    escrow ← get_escrow escrow_id
    agent_throw_if (not preview.dispute_timed_out || is_no_resolution escrow.timeout_resolution)
        AgentErrorCode.settlement_action_unavailable
        (codes "Escrow does not have an executable timeout settlement")
    receipt ← transact c (Tx.execute_timeout escrow_id)
    pure (record {
      tx_hash = receipt.hash;
      resolution = escrow.timeout_resolution;
      settlement_mode = timeout_settlement_mode escrow.timeout_resolution;
    })

  -- The loop of `fulfillPayment` over the milestones from `m` on, on the count of those left.
  unfoldable pub fulfill_from : ℕ → Text → ℕ → ℕ → Action (World E) (List Text)
  fulfill_from escrow_id evidence_hash zero m = pure []
  fulfill_from escrow_id evidence_hash (suc left) m = do
    result ← submit_fulfillment (record {
      escrow_id = escrow_id;
      milestone_number = m;
      evidence_hash = evidence_hash;
      fulfillment_type = none;
    })
    results ← fulfill_from escrow_id evidence_hash left (suc m)
    pure (result ∷ results)

  -- `for (m = completed + 1; m <= required; m++)` runs `required - completed` times.
  unfoldable pub fulfill_payment : ℕ → Text → Action (World E) (List Text)
  fulfill_payment escrow_id evidence_hash = do
    info ← get_escrow escrow_id
    elim info.requires_fulfillment [
      | false ↦ pure []
      | true ↦ read c (c.escrow_completed_milestones escrow_id) >>= λ completed.
          read c (c.escrow_required_milestones escrow_id) >>= λ required.
          fulfill_from escrow_id evidence_hash (required - completed) (suc completed)
    ]
