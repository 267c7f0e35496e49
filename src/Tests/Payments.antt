-- ===== src/Tests/Payments.antt =====
-- Guards, payments, deposits and the bridge at concrete inputs.
use set.Prelude.{ℕ, ◌≡◌, ◌≢◌, refl, ◌↔◌, ◌⊎◌, true, false}
use set.Prelude.Int.{pos}
use set.Prelude.Text.{codes}
use set.Prelude.Number.{Number}
use set.Effects.{ok}
use set.Retry.{with_retry}
use set.Math.{
  ray, compute_available_spend_assets, compute_conservative_sponsored_headroom_assets,
  saturating_sub,
}
use set.Agent.{Tx, AgentStatus, BridgeOutPreview}
use set.Agent.Status.{Operation, assert_spend_allowed, get_status, is_merchant_refused, make_status}
use set.Agent.Status.Guards.{assert_spend_allowed_iff, PassesSpend}
use set.Agent.Funding.{deposit, top_up_gas_tank}
use set.Agent.Funding.Traces.{GuardedTrace, deposit_trace, top_up_gas_tank_never_returns}
use set.Agent.Bridge.{bridge_out}
use set.Agent.Bridge.Guards.{Bridges, bridge_out_trace}
use set.Tests.Fixture.{sample, start, sample_policy, agent_addr, merchant_addr, bytes}

-- The status that is read at the start.
abbrev now_status : AgentStatus
now_status = make_status sample 1000 5 sample_policy false (1000, 100, ray) 1000

spend_allowed : assert_spend_allowed sample merchant_addr (pos 50) start ≡ (ok now_status, start)
unfolding assert_spend_allowed get_status with_retry is_merchant_refused
    compute_available_spend_assets compute_conservative_sponsored_headroom_assets saturating_sub
spend_allowed = refl

assert_spend_allowed_iff_example :
    (assert_spend_allowed sample merchant_addr (pos 50) start ≡ (ok now_status, start))
    ↔ PassesSpend sample merchant_addr (pos 50) start start now_status
assert_spend_allowed_iff_example =
    assert_spend_allowed_iff sample merchant_addr (pos 50) start start now_status

deposit_trace_example :
    GuardedTrace sample Operation.deposit
      (pos 500)
      (codes "asset")
      (codes "gateway")
      (λ tx. (gas : ℕ) × (tx ≡ Tx.deposit (pos 500) agent_addr (pos 490) gas))
      start
      (deposit sample (pos 500) (pos 490) start).1.sent
deposit_trace_example = deposit_trace sample (pos 500) (pos 490) start

top_up_gas_tank_never_returns_example :
    top_up_gas_tank sample (pos 500) (pos 490) start
    ≢ (ok (record { tx_hash = codes "0xhash"; shares_deposited = 7 }), start)
top_up_gas_tank_never_returns_example =
    top_up_gas_tank_never_returns sample (pos 500) (pos 490) start start
      (record { tx_hash = codes "0xhash"; shares_deposited = 7 })

abbrev chain : Number
chain = Number.int (pos 10)

bridge_out_trace_example :
    ((bridge_out sample chain bytes (pos 5) start).1.sent ≡ start.sent)
    ⊎ Bridges sample chain bytes (pos 5) start (bridge_out sample chain bytes (pos 5) start).1.sent
bridge_out_trace_example = bridge_out_trace sample chain bytes (pos 5) start

abbrev quote : BridgeOutPreview
quote = record {
  status = record {
    bridge_paused = false;
    bridging_allowed = true;
    bridge_mint_allowed = true;
    outstanding_shares = 0;
    max_outstanding_shares = 10000;
    remaining_mint_capacity_shares = 10000;
  };
  dst_chain = chain;
  recipient = bytes;
  recipient_bytes32 = bytes;
  shares = pos 5;
  assets_equivalent = 5;
  share_balance = 1000;
  trusted_peer = bytes;
  route_trusted = true;
  contract_can_bridge = true;
  can_bridge_now = true;
}
