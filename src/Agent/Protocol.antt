-- ===== src/Agent/Protocol.antt =====
-- Accepting a payment request of another agent.
pub mod Quotes
use set.Prelude.{ℕ, ◌+◌, ◌-◌, ◌*◌, ◌/◌, Bool, true, false, Option, none, some, ltb, if◌then◌else◌}
use set.Prelude.Int.{ℤ, pos, ltb_ℤ}
use set.Prelude.Text.{Text, codes}
use set.Errors.{AgentErrorCode, Thrown, agent, agent_error}
use set.Effects.{Result, ok, err, Action, pure, throw, throw_if, lift, ◌>>=◌, ◌>>◌}
use set.Math.{ray, project_nav_ray_from_base}
use set.Agent.Types.{PaymentRequest, PaymentAcceptance, PaymentAcceptancePreview}
use set.Agent.Chain.{Contracts, World, read}
use set.Agent.Status.{
  Operation, agent_throw_if, now_seconds, assert_system_ready, assert_spend_allowed,
}
use set.Agent.Request.{assert_valid_payment_request}
use set.Agent.Escrow.{fund_escrow}

-- `BigInt(now) > t0 ? BigInt(now) - t0 : 0n`
abbrev pub nav_age : ℕ → ℕ → ℕ
nav_age now t0 = if ltb t0 now then now - t0 else 0

-- The quote of a request, from what was read.
unfoldable pub make_preview :
    PaymentRequest → Text → ℕ → ℕ → ℕ → ℕ → ℕ → ℤ → ℕ → PaymentAcceptancePreview
make_preview request payee shares_locked principal estimated nav0_ray t0 rate max_staleness =
    let projected_nav_ray =
      project_nav_ray_from_base nav0_ray t0 request.terms.release_after rate max_staleness in
    let projected_assets = shares_locked * projected_nav_ray / ray in
    record {
      request_id = request.request_id;
      payee = payee;
      assets_due = request.amount;
      principal_assets_snapshot = principal;
      estimated_assets_in = estimated;
      shares_locked = shares_locked;
      projected_nav_ray = projected_nav_ray;
      estimated_yield =
          (if ltb principal projected_assets then projected_assets - principal else 0);
      release_after = request.terms.release_after;
      expires_at = request.expires_at;
    }

module _ {E : Type 0} (c : Contracts E) where
  unfoldable pub preview_payment_request_acceptance :
      PaymentRequest → Action (World E) PaymentAcceptancePreview
  preview_payment_request_acceptance request = do
    now ← now_seconds c
    payee ← lift (assert_valid_payment_request c.ethers request now)
    assert_system_ready c Operation.escrow
    status ← assert_spend_allowed c payee request.amount
    shares_locked ← read c (c.convert_to_shares_invoice_or_withdraw request.amount)
    agent_throw_if (ltb_ℤ request.terms.max_shares_in (pos shares_locked))
        AgentErrorCode.invalid_payment_request
        (codes "Payment request share slippage cap is below the current escrow lock requirement")
    principal ← read c (c.convert_to_assets (pos shares_locked))
    estimated ← read c (c.preview_mint shares_locked)
    nav0 ← read c c.nav0_ray
    base_time ← read c c.t0
    rate ← read c c.rate_per_second_ray
    staleness ← read c c.max_staleness
    agent_throw_if (ltb request.terms.max_nav_age (nav_age now base_time)) AgentErrorCode.nav_stale
        (codes "Payment request requires fresher NAV than the controller currently provides")
    pure
        (make_preview request payee shares_locked principal estimated nav0 base_time rate staleness)

  unfoldable pub accept_payment_request : PaymentRequest → Action (World E) PaymentAcceptance
  accept_payment_request request = do
    preview ← preview_payment_request_acceptance request
    result ←
        fund_escrow c request.payee request.terms request.buyer_bps
          (some (pos preview.estimated_assets_in))
    pure (record {
      request_id = request.request_id;
      escrow_id = result.escrow_id;
      tx_hash = result.tx_hash;
      shares_locked = result.shares_locked;
      estimated_yield = preview.estimated_yield;
    })
