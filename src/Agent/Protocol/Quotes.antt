-- ===== src/Agent/Protocol/Quotes.antt =====
-- What a quote of a payment request has passed, and what accepting the request sends.
use mathlib.Core.Path.{subst}
use set.Prelude.{ℕ, ◌≡◌, sym, ◌∙◌, ◌⊎◌, inl, inr, some, ◌≤◌, ltb, arith, Bool-cases}
use set.Prelude.Int.{pos, ◌≤ℤ◌, ltb_ℤ}
use set.Prelude.Text.{Text, codes}
use set.Errors.{AgentErrorCode}
use set.Effects.{ok, Action, outcome_cases, result_cases, pure, ◌>>=◌, ◌>>◌}
use set.Agent.Types.{AgentStatus, PaymentRequest, PaymentAcceptancePreview}
use set.Agent.Chain.{Contracts, World, read}
use set.Agent.Status.{
  Operation, agent_throw_if, now_seconds, assert_system_ready, assert_spend_allowed,
}
use set.Agent.Status.Guards.{
  assert_system_ready_iff, assert_system_ready-Quiet, assert_spend_allowed-Quiet,
  assert_spend_allowed_ok, PassesSpend,
}
use set.Agent.Request.{assert_valid_payment_request}
use set.Agent.Request.Valid.{IsValidRequest, assert_valid_payment_request_iff}
use set.Agent.Funding.Traces.{Ready}
use set.Agent.Escrow.{fund_escrow}
use set.Agent.Escrow.Funding.{FundsEscrow, fund_escrow_trace}
use set.Agent.Protocol.{
  nav_age, make_preview, preview_payment_request_acceptance, accept_payment_request,
}

module _ {E : Type 0} (c : Contracts E) where
  preview_payment_request_acceptance-Quiet :
      (request : PaymentRequest) (w : World E)
      → (preview_payment_request_acceptance c request w).1.sent ≡ w.sent
  unfolding preview_payment_request_acceptance
  preview_payment_request_acceptance-Quiet request w = elim (outcome_cases (now_seconds c w)) [
    | inr (x, u, p) ↦ ground arith
    | inl (now, u, p) ↦ elim (result_cases (assert_valid_payment_request c.ethers request now)) [
      | inr (x, a) ↦ ground arith
      | inl (payee, a) ↦ elim (outcome_cases (assert_system_ready c Operation.escrow u)) [
        | inr (x, v, q) ↦ ground (arith, assert_system_ready-Quiet c Operation.escrow u)
        | inl (x, v, q) ↦ elim (outcome_cases (assert_spend_allowed c payee request.amount v)) [
          | inr (y, z, r) ↦ ground (
            arith,
            assert_system_ready-Quiet c Operation.escrow u,
            assert_spend_allowed-Quiet c payee request.amount v,
          )
          | inl (status, z, r) ↦ ground (
            arith,
            assert_system_ready-Quiet c Operation.escrow u,
            assert_spend_allowed-Quiet c payee request.amount v,
          )
        ]
      ]
    ]
  ]

  -- The steps after the guards.
  abbrev quote_steps : PaymentRequest → ℕ → Text → Action (World E) PaymentAcceptancePreview
  quote_steps request now payee = do
    shares_locked ← read c (c.convert_to_shares_invoice_or_withdraw request.amount)
    agent_throw_if (ltb_ℤ request.terms.max_shares_in (pos shares_locked))
        AgentErrorCode.invalid_payment_request
        (codes "Payment request share slippage cap is below the current escrow lock requirement")
    principal ← read c (c.convert_to_assets (pos shares_locked))
    estimated ← read c (c.preview_mint shares_locked)
    nav0 ← read c c.nav0_ray
    base_time ← read c c.t0
    rate ← read c c.rate_per_second_ray
    staleness ← read c c.max_staleness
    agent_throw_if (ltb request.terms.max_nav_age (nav_age now base_time)) AgentErrorCode.nav_stale
        (codes "Payment request requires fresher NAV than the controller currently provides")
    pure
        (make_preview request payee shares_locked principal estimated nav0 base_time rate staleness)

  -- The figures of a quote, and the worlds in which they were read: the shares to lock are those that
  -- the vault asks for the amount and within the request's cap, the cost is what the vault asks for
  -- these shares, and the NAV is as fresh as the request demands.
  pub record Figures (request : PaymentRequest) (now : ℕ) (payee : Text) (w : World E)
      (p : PaymentAcceptancePreview) : Type 0 where
    pub u1 : World E
    pub u2 : World E
    pub u3 : World E
    pub u4 : World E
    pub u5 : World E
    pub base_time : ℕ
    pub nav0 : ℕ
    pub to : p.payee ≡ payee
    pub due : p.assets_due ≡ request.amount
    pub locked :
        read c (c.convert_to_shares_invoice_or_withdraw request.amount) w ≡ (ok p.shares_locked, u1)
    pub principal :
        read c (c.convert_to_assets (pos p.shares_locked)) u1 ≡ (ok p.principal_assets_snapshot, u2)
    pub cost : read c (c.preview_mint p.shares_locked) u2 ≡ (ok p.estimated_assets_in, u3)
    pub base_nav : read c c.nav0_ray u3 ≡ (ok nav0, u4)
    pub based : read c c.t0 u4 ≡ (ok base_time, u5)
    pub within : pos p.shares_locked ≤ℤ request.terms.max_shares_in
    pub fresh : nav_age now base_time ≤ request.terms.max_nav_age

  quote_ok :
      (request : PaymentRequest) (now : ℕ) (payee : Text) (w w' : World E)
      (p : PaymentAcceptancePreview)
      → quote_steps request now payee w ≡ (ok p, w')
      → Figures request now payee w p
  unfolding make_preview
  quote_ok request now payee w w' p h =
      elim (outcome_cases (read c (c.convert_to_shares_invoice_or_withdraw request.amount) w)) [
        | inr (x, u, e) ↦ ground arith
        | inl (locked, u1, e1) ↦
            elim (Bool-cases (ltb_ℤ request.terms.max_shares_in (pos locked))) [
              | inl b ↦ ground arith
              | inr b ↦ elim (outcome_cases (read c (c.convert_to_assets (pos locked)) u1)) [
                | inr (x, u, e) ↦ ground arith
                | inl (principal, u2, e2) ↦
                    elim (outcome_cases (read c (c.preview_mint locked) u2)) [
                      | inr (x, u, e) ↦ ground arith
                      | inl (cost, u3, e3) ↦ elim (outcome_cases (read c c.nav0_ray u3)) [
                        | inr (x, u, e) ↦ ground arith
                        | inl (nav0, u4, e4) ↦ elim (outcome_cases (read c c.t0 u4)) [
                          | inr (x, u, e) ↦ ground arith
                          | inl (base_time, u5, e5) ↦ record {
                            u1 = u1;
                            u2 = u2;
                            u3 = u3;
                            u4 = u4;
                            u5 = u5;
                            base_time = base_time;
                            nav0 = nav0;
                            to = ground arith;
                            due = ground arith;
                            locked = ground arith;
                            principal = ground arith;
                            cost = ground arith;
                            base_nav = e4;
                            based = e5;
                            within = ground arith;
                            fresh = ground arith;
                          }
                        ]
                      ]
                    ]
              ]
            ]
      ]

  -- What a quote that is given has passed.
  pub record Quotes (request : PaymentRequest) (w : World E) (p : PaymentAcceptancePreview)
      : Type 0 where
    pub now : ℕ
    pub payee : Text
    pub clocked : World E
    pub ready : World E
    pub passed : World E
    pub status : AgentStatus
    pub timed : now_seconds c w ≡ (ok now, clocked)
    pub addressed : assert_valid_payment_request c.ethers request now ≡ ok payee
    pub valid : IsValidRequest request now
    pub is_ready : Ready c Operation.escrow clocked
    pub spendable : PassesSpend c payee request.amount ready passed status
    pub figures : Figures request now payee passed p

  preview_payment_request_acceptance_ok :
      (request : PaymentRequest) (w w' : World E) (p : PaymentAcceptancePreview)
      → preview_payment_request_acceptance c request w ≡ (ok p, w')
      → Quotes request w p
  unfolding preview_payment_request_acceptance make_preview
  preview_payment_request_acceptance_ok request w w' p h = elim (outcome_cases (now_seconds c w)) [
    | inr (x, u, e) ↦ ground arith
    | inl (now, u, e) ↦ elim (result_cases (assert_valid_payment_request c.ethers request now)) [
      | inr (x, a) ↦ ground arith
      | inl (payee, a) ↦ elim (outcome_cases (assert_system_ready c Operation.escrow u)) [
        | inr (x, v, q) ↦ ground arith
        | inl (x, v, q) ↦ elim (outcome_cases (assert_spend_allowed c payee request.amount v)) [
          | inr (y, z, r) ↦ ground arith
          | inl (status, z, r) ↦
              let (system, s, nav, free) = (assert_system_ready_iff c Operation.escrow u v).0 q in
              record {
                now = now;
                payee = payee;
                clocked = u;
                ready = v;
                passed = z;
                status = status;
                timed = e;
                addressed = a;
                valid = ((assert_valid_payment_request_iff c.ethers request now payee).0 a).1;
                is_ready = (system, v, s, nav, free);
                spendable = assert_spend_allowed_ok c payee request.amount v z r;
                figures = quote_ok request now payee z w' p (ground arith);
              }
        ]
      ]
    ]
  ]

  -- `acceptPaymentRequest` sends nothing; or it has a quote of the request that has passed every check,
  -- and then it sends what funding an escrow for the quoted cost sends, under its guards.
  pub accept_payment_request_trace :
      (request : PaymentRequest) (w : World E)
      → ((accept_payment_request c request w).1.sent ≡ w.sent)
        ⊎ ((p : PaymentAcceptancePreview) × (u : World E) × Quotes request w p
            × (u.sent ≡ w.sent)
            × FundsEscrow c request.payee request.terms request.buyer_bps
                (some (pos p.estimated_assets_in))
                u
                (accept_payment_request c request w).1.sent)
  unfolding accept_payment_request
  accept_payment_request_trace request w =
      elim (outcome_cases (preview_payment_request_acceptance c request w)) [
        | inr (x, u, e) ↦ inl (ground (arith, preview_payment_request_acceptance-Quiet request w))
        | inl (p, u, e) ↦
            let quiet : u.sent ≡ w.sent =
              ground (arith, preview_payment_request_acceptance-Quiet request w) in
            let most = some (pos p.estimated_assets_in) in
            let out : (accept_payment_request c request w).1.sent
                ≡ (fund_escrow c request.payee request.terms request.buyer_bps most u).1.sent =
              elim (outcome_cases
                (fund_escrow c request.payee request.terms request.buyer_bps most u)) [
                  | inl (r, v, f) ↦ ground arith
                  | inr (x, v, f) ↦ ground arith
                ] in
            elim (fund_escrow_trace c request.payee request.terms request.buyer_bps most u) [
              | inl same ↦ inl (out ∙ same ∙ quiet)
              | inr funds ↦ inr (
                p,
                u,
                preview_payment_request_acceptance_ok request w u p e,
                quiet,
                subst (FundsEscrow c request.payee request.terms request.buyer_bps most u) (sym out)
                    funds,
              )
            ]
      ]
