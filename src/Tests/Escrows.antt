-- ===== src/Tests/Escrows.antt =====
-- Payment requests and escrows at concrete inputs.
use set.Prelude.{
  ℕ, ◌+◌, ◌-◌, ◌≡◌, refl, ◌↔◌, ◌⊎◌, true, false, none, some, [], ◌∷◌, ◌<◌, ◌≤◌, if◌then◌else◌,
}
use set.Prelude.Int.{pos}
use set.Prelude.Text.{Text, codes, to_lower_case}
use set.Prelude.Number.{Number}
use set.Effects.{ok}
use set.Retry.{with_retry}
use set.Math.{ray}
use set.Validation.{validate_address, validate_bytes32}
use set.Agent.{
  transact, Tx, approve, max_uint256, World, AgentStatus, SettlementPreview, SettlementActionType,
  SettlementActor, DisputeResolution, FulfillmentType, PaymentAcceptancePreview,
}
use set.Agent.Status.{make_status}
use set.Agent.Request.{RequestParams, make_request, assert_valid_payment_request, is_no_resolution}
use set.Agent.Request.Valid.{IsValidRequest, assert_valid_payment_request_iff}
use set.Agent.Request.Created.{IsSound, created_request_window}
use set.Agent.Escrow.{
  validate_non_zero_bytes32, settlement_actions, fund_escrow, get_escrow, get_settlement_actions,
  execute_escrow_timeout, resolve_escrow_dispute, preview_escrow_settlement, fulfill_payment,
  fulfill_from, submit_fulfillment, fulfillment_type_of,
}
use set.Agent.Escrow.Actions.{
  lists, settlement_actions_available, execute_timeout_listed, resolve_dispute_trace,
}
use set.Agent.Escrow.Funding.{FundsEscrow, fund_escrow_trace}
use set.Agent.Escrow.Milestones.{NeedsNone, Milestones, Submitted, fulfill_payment_ok}
use set.Agent.Protocol.{accept_payment_request}
use set.Agent.Protocol.Quotes.{Quotes, accept_payment_request_trace}
use set.Tests.Fixture.{
  sample, sample_ethers, sample_policy, sample_terms, sample_request, sample_preview,
  sample_escrow_of, start, agent_addr, merchant_addr, bytes,
}

assert_valid_payment_request_iff_example :
    (assert_valid_payment_request sample_ethers sample_request 1000 ≡ ok merchant_addr) ↔ (
      (validate_address sample_ethers merchant_addr ≡ ok merchant_addr)
      × IsValidRequest sample_request 1000)
assert_valid_payment_request_iff_example =
    assert_valid_payment_request_iff sample_ethers sample_request 1000 merchant_addr

abbrev params : RequestParams
params = record {
  amount = pos 50;
  hold_period_seconds = none;
  fulfillment_type = none;
  milestones = some 2;
  challenge_window_seconds = none;
  arbiter_deadline_seconds = none;
  buyer_bps = some (Number.int (pos 2500));
  expires_in_seconds = none;
}

created_request_window_example :
    (assert_valid_payment_request sample_ethers
        (make_request agent_addr (codes "1") 1000 params)
        1400
      ≡ ok agent_addr)
    ↔ ((validate_address sample_ethers agent_addr ≡ ok agent_addr)
        × IsSound params
        × (1400 < 1000 + 3600)
        × (1400 ≤ 1000 + 300))
created_request_window_example =
    created_request_window sample_ethers agent_addr (codes "1") agent_addr 1000 1400 params

settlement_actions_available_example :
    lists SettlementActionType.release SettlementActor.buyer
      (settlement_actions sample_preview (sample_escrow_of 4))
    ≡ true
settlement_actions_available_example =
    settlement_actions_available sample_preview (sample_escrow_of 4) SettlementActionType.release
      SettlementActor.buyer

execute_timeout_listed_example :
    (get_settlement_actions sample 4 start
      ≡ (ok (settlement_actions sample_preview (sample_escrow_of 4)), start))
    × ((execute_escrow_timeout sample 4 start).1.sent ≡ (
        if lists SettlementActionType.execute_timeout SettlementActor.anyone
          (settlement_actions sample_preview (sample_escrow_of 4))
        then Tx.execute_timeout 4 ∷ []
        else []))
unfolding preview_escrow_settlement get_escrow with_retry
execute_timeout_listed_example =
    execute_timeout_listed sample 4 start start sample_preview (sample_escrow_of 4)
      (record { middle = start; preview = refl; escrow = refl })

resolve_dispute_trace_example :
    ((resolve_escrow_dispute sample 4 DisputeResolution.refund bytes start).1.sent ≡ start.sent)
    ⊎ ((p : SettlementPreview) × (u : World ℕ) × (hash : Text) × (preview_escrow_settlement sample 4
            start
          ≡ (ok p, u))
        × (p.can_arbiter_resolve ≡ true)
        × (is_no_resolution DisputeResolution.refund ≡ false)
        × (validate_non_zero_bytes32 bytes ≡ ok hash)
        × ((resolve_escrow_dispute sample 4 DisputeResolution.refund bytes start).1.sent
            ≡ Tx.resolve_dispute 4 DisputeResolution.refund hash ∷ start.sent))
resolve_dispute_trace_example = resolve_dispute_trace sample 4 DisputeResolution.refund bytes start

fund_escrow_trace_example :
    ((fund_escrow sample merchant_addr sample_terms (Number.int (pos 0)) none start).1.sent
      ≡ start.sent)
    ⊎ FundsEscrow sample merchant_addr sample_terms
        (Number.int (pos 0))
        none
        start
        (fund_escrow sample merchant_addr sample_terms (Number.int (pos 0)) none start).1.sent
fund_escrow_trace_example =
    fund_escrow_trace sample merchant_addr sample_terms (Number.int (pos 0)) none start

-- The status that is read at the start.
abbrev now_status : AgentStatus
now_status = make_status sample 1000 5 sample_policy false (1000, 100, ray) 1000

-- After the approval.
abbrev approved : World ℕ
approved = record {
  env = 1001000;
  sent = approve (codes "asset") (codes "gateway") max_uint256 ∷ [];
}

accept_payment_request_trace_example :
    ((accept_payment_request sample sample_request start).1.sent ≡ start.sent)
    ⊎ ((p : PaymentAcceptancePreview) × (u : World ℕ) × Quotes sample sample_request start p
        × (u.sent ≡ start.sent)
        × FundsEscrow sample merchant_addr sample_terms
            (Number.int (pos 0))
            (some (pos p.estimated_assets_in))
            u
            (accept_payment_request sample sample_request start).1.sent)
accept_payment_request_trace_example = accept_payment_request_trace sample sample_request start

-- After the two milestones that are left.
abbrev fulfilled : World ℕ
fulfilled = record {
  env = 1002000;
  sent =
      Tx.submit_fulfillment 4 FulfillmentType.digital bytes
      ∷ Tx.submit_fulfillment 4 FulfillmentType.digital bytes
      ∷ [];
}

fulfill_payment_ok_example :
    (NeedsNone sample 4 start fulfilled
      × (codes "0xhash" ∷ codes "0xhash" ∷ [] ≡ [])
      × (fulfilled.sent ≡ start.sent))
    ⊎ ((completed : ℕ) × (required : ℕ) × (u : World ℕ) × Milestones sample 4 start u completed
          required
        × Submitted sample 4 bytes
            (required - completed)
            (codes "0xhash" ∷ codes "0xhash" ∷ [])
            start
            fulfilled)
unfolding fulfill_payment validate_non_zero_bytes32 validate_bytes32 to_lower_case get_escrow
    with_retry fulfill_from submit_fulfillment fulfillment_type_of transact
fulfill_payment_ok_example =
    fulfill_payment_ok sample 4 bytes bytes start fulfilled (codes "0xhash" ∷ codes "0xhash" ∷ [])
      refl refl
