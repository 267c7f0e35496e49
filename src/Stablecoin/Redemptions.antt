-- ===== src/Stablecoin/Redemptions.antt =====
-- Which transactions a request for a redemption sends, and under which guards.
use mathlib.Core.Path.{subst, subst₂}
use set.Prelude.{ℕ, ◌≡◌, refl, sym, ◌⊎◌, inl, inr, true, false, List, arith, Bool-cases}
use set.Prelude.Int.{ℤ, pos, ◌≤ℤ◌, leb_ℤ}
use set.Prelude.Text.{Text, codes}
use set.Effects.{Result, ok, Action, outcome_cases, result_cases, pure, lift, ◌>>=◌, ◌>>◌}
use set.Validation.{validate_address, validate_positive_amount}
use set.Stablecoin.Chain.{
  Tx, Event, Contracts, World, read, transact, approve_if_needed, event_arg, or_throw,
}
use set.Stablecoin.Operations.{
  RedemptionResult, parse_error, check_balance, check_collateral, estimate, request_redemption,
  request_redemption_checked,
}
use set.Stablecoin.Steps.{
  Trace, SendsOne, approve_then, check_balance-Quiet, check_collateral-Quiet, estimate-Quiet,
  transact_sends, wrapping_state, check_balance_ok, check_collateral_ok,
}
use set.Stablecoin.Traces.{Found, Funded}

module _ {E : Type 0} (c : Contracts E) where
  abbrev pub IsRequest : ℤ → Text → Tx → Type 0
  IsRequest amount collateral tx = (gas : ℕ) × (tx ≡ Tx.request_redemption amount collateral gas)

  -- The steps of a request after the approval.
  abbrev request_steps : ℤ → Text → Action (World E) RedemptionResult
  request_steps amount collateral = do
    gas ← estimate c (codes "requestRedemption") (c.estimate_request_redemption amount collateral)
    receipt ←
        transact c (Tx.request_redemption amount collateral gas.gas_limit_with_buffer)
          (codes "Redemption request failed")
    request_id ← lift (
        or_throw (parse_error (codes "RedemptionRequested.requestId"))
          (event_arg c receipt Event.redemption_requested (codes "requestId")))
    pure (record { tx_hash = receipt.hash; request_id = request_id })

  IsRequest-SendsOne :
      (amount : ℤ) (collateral : Text)
      → SendsOne c (IsRequest amount collateral) (request_steps amount collateral)
  IsRequest-SendsOne amount collateral v =
      let quiet =
        estimate-Quiet c (codes "requestRedemption")
          (c.estimate_request_redemption amount collateral) v in
      elim (outcome_cases (
        estimate c (codes "requestRedemption") (c.estimate_request_redemption amount collateral)
          v)) [
            | inr (e, u, p) ↦ inl (ground arith)
            | inl (g, u, p) ↦ inr (
              Tx.request_redemption amount collateral g.gas_limit_with_buffer,
              (g.gas_limit_with_buffer, refl),
              ground (
                arith,
                transact_sends c (Tx.request_redemption amount collateral g.gas_limit_with_buffer)
                    (codes "Redemption request failed") u,
              ),
            )
          ]

  -- What a request found before it sent anything, and what it sent.
  pub record Requests (amount : ℤ) (collateral : Text) (sent sent' : List Tx) : Type 0 where
    pub not_paused : Found c c.redemptions_paused false
    pub funded : Funded c c.addresses.ss_usd amount
    pub approved : Found c (c.is_approved_collateral collateral) true
    pub trace :
        Trace c c.addresses.ss_usd c.addresses.treasury amount
          (IsRequest amount collateral)
          sent
          sent'

  request_checked_trace :
      (amount : ℤ) (collateral : Text) (w : World E)
      → let sent' = (request_redemption_checked c amount collateral w).1.sent in
        (sent' ≡ w.sent) ⊎ Requests amount collateral w.sent sent'
  unfolding request_redemption_checked
  request_checked_trace amount collateral w = elim (outcome_cases (read c c.redemptions_paused w)) [
    | inr (e, u, p) ↦ inl (ground arith)
    | inl (true, u, p) ↦ inl (ground arith)
    | inl (false, u, p) ↦ elim (outcome_cases (check_balance c c.addresses.ss_usd amount u)) [
      | inr (e, v, q) ↦ inl (ground (arith, check_balance-Quiet c c.addresses.ss_usd amount u))
      | inl (_, v, q) ↦
          let same : v.sent ≡ w.sent =
            ground (arith, check_balance-Quiet c c.addresses.ss_usd amount u) in
          elim (outcome_cases (check_collateral c collateral v)) [
            | inr (e, x, r) ↦ inl (ground (arith, check_collateral-Quiet c collateral v))
            | inl (_, x, r) ↦
                let (balance, found, enough) = check_balance_ok c c.addresses.ss_usd amount u v q in
                let quiet : x.sent ≡ w.sent =
                  ground (arith, check_collateral-Quiet c collateral v) in
                let e : request_redemption_checked c amount collateral w
                    ≡ (approve_if_needed c c.addresses.ss_usd c.addresses.treasury amount
                          >> request_steps amount collateral)
                        x =
                  ground arith in
                inr (record {
                  not_paused = (w, u, p);
                  funded = (balance, (u, v, found), enough);
                  approved = (v, x, check_collateral_ok c collateral v x r);
                  trace =
                      subst₂
                        (λ (a : List Tx) (o : Result RedemptionResult × World E).
                          Trace c c.addresses.ss_usd c.addresses.treasury amount
                            (IsRequest amount collateral) a o.1.sent)
                        quiet (sym e)
                        (approve_then c c.addresses.ss_usd c.addresses.treasury amount _
                          (request_steps amount collateral) x
                          (IsRequest-SendsOne amount collateral));
                })
          ]
    ]
  ]

  -- `requestRedemption` sends nothing; or the amount is positive, the collateral checked, redemptions
  -- were found open, the signer's balance sufficient and the collateral approved, and then it sends one
  -- approval of the treasury at most, of just the amount, and after that the request or nothing.
  pub request_redemption_trace :
      (amount : ℤ) (preferred_collateral : Text) (w : World E)
      → let sent' = (request_redemption c amount preferred_collateral w).1.sent in
        (sent' ≡ w.sent)
        ⊎ ((collateral : Text) × (validate_address c.ethers preferred_collateral ≡ ok collateral)
            × (pos 1 ≤ℤ amount)
            × Requests amount collateral w.sent sent')
  unfolding request_redemption validate_positive_amount
  request_redemption_trace amount preferred_collateral w =
      elim (Bool-cases (leb_ℤ amount (pos 0))) [
        | inl n ↦ inl (ground arith)
        | inr n ↦ elim (result_cases (validate_address c.ethers preferred_collateral)) [
          | inr (e, p) ↦ inl (ground arith)
          | inl (collateral, p) ↦
              let e : (request_redemption c amount preferred_collateral w).1
                  ≡ (request_redemption_checked c amount collateral w).1 =
                ground (
                  arith,
                  wrapping_state c (codes "Redemption request failed")
                      (request_redemption_checked c amount collateral) w,
                ) in
              elim (request_checked_trace amount collateral w) [
                | inl t ↦ inl (ground arith)
                | inr t ↦ inr (
                  collateral,
                  p,
                  ground arith,
                  subst (λ (x : World E). Requests amount collateral w.sent x.sent) (sym e) t,
                )
              ]
        ]
      ]
