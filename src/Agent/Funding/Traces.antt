-- ===== src/Agent/Funding/Traces.antt =====
-- Which transactions deposits, redemptions and payments send, and under which guards.
use mathlib.Core.Path.{subst, subst₂}
use set.Prelude.{
  ℕ, true, false, ◌≡◌, ◌≢◌, refl, sym, ap, ◌⊎◌, inl, inr, List, ◌∷◌, arith, Bool-cases,
}
use set.Prelude.Int.{ℤ, pos, ◌≤ℤ◌, leb_ℤ}
use set.Prelude.Text.{Text, codes}
use set.Effects.{Result, ok, Action, outcome_cases, >>=-of_ok, >>=-of_err, pure, lift, ◌>>=◌, ◌>>◌}
use set.Validation.{validate_positive_amount}
use set.Agent.Types.{SystemStatus}
use set.Agent.Chain.{Tx, approve, Event, Contracts, World, max_uint256, transact, ensure_allowance}
use set.Agent.Events.{extract_number}
use set.Agent.Status.{Operation, is_paused, get_system_status, assert_system_ready}
use set.Agent.Status.Guards.{assert_system_ready_iff, assert_system_ready-Quiet}
use set.Agent.Funding.{
  deposit, estimate_deposit_gas, top_up_gas_tank, request_redeem, GasTankTopUpResult,
  RedeemRequestResult, DepositResult,
}

-- One approval, of the greatest amount, may have been sent.
abbrev pub MayApprove : Text → Text → List Tx → List Tx → Type 0
MayApprove token spender before after =
    (after ≡ before) ⊎ (after ≡ approve token spender max_uint256 ∷ before)

module _ {E : Type 0} (c : Contracts E) where
  -- The system was asked in the world `w`, and it is ready for the operation.
  abbrev pub Ready : Operation → World E → Type 0
  Ready op w =
      (status : SystemStatus) × (u : World E) × (get_system_status c w ≡ (ok status, u))
      × (status.nav_fresh ≡ true)
      × (is_paused op status ≡ false)

  pub transact_sends : (tx : Tx) (w : World E) → (transact c tx w).1.sent ≡ tx ∷ w.sent
  unfolding transact
  transact_sends tx w = ground arith

  pub ensure_allowance_sends :
      (token spender : Text) (amount : ℤ) (w : World E)
      → MayApprove token spender w.sent (ensure_allowance c token spender amount w).1.sent
  unfolding ensure_allowance
  ensure_allowance_sends token spender amount w = ground arith

  -- One transaction of a kind is sent, or none.
  abbrev pub SendsOne : {A : Type 0} → (Tx → Type 0) → Action (World E) A → Type 0
  SendsOne P k =
      (v : World E) → ((k v).1.sent ≡ v.sent) ⊎ ((tx : Tx) × P tx × ((k v).1.sent ≡ tx ∷ v.sent))

  -- One approval at most is sent, and after it one transaction of the kind or none.
  abbrev pub Trace : Text → Text → (Tx → Type 0) → List Tx → List Tx → Type 0
  Trace token spender P sent sent' =
      (before : List Tx) × MayApprove token spender sent before
      × ((sent' ≡ before) ⊎ ((tx : Tx) × P tx × (sent' ≡ tx ∷ before)))

  pub approve_then :
      {A : Type 0} (token spender : Text) (amount : ℤ) (P : Tx → Type 0) (k : Action (World E) A)
      (u : World E)
      → SendsOne P k
      → Trace token spender P u.sent ((ensure_allowance c token spender amount >> k) u).1.sent
  approve_then {A} token spender amount P k u h =
      elim (outcome_cases (ensure_allowance c token spender amount u)) [
        | inl (x, v, p) ↦ (
          v.sent,
          ground (arith, ensure_allowance_sends token spender amount u),
          subst
              (λ (o : Result A × World E).
                (o.1.sent ≡ v.sent) ⊎ ((tx : Tx) × P tx × (o.1.sent ≡ tx ∷ v.sent)))
              (sym (>>=-of_ok (ensure_allowance c token spender amount) (λ _. k) p)) (h v),
        )
        | inr (x, v, p) ↦ (
          v.sent,
          ground (arith, ensure_allowance_sends token spender amount u),
          inl (
              ap (λ (o : Result A × World E). o.1.sent)
                (>>=-of_err (ensure_allowance c token spender amount) (λ _. k) p)),
        )
      ]

  -- The shape that a deposit and a redemption share.
  abbrev guarded_payment :
      {A : Type 0} → Operation → ℤ → Text → Text → Action (World E) A → Action (World E) A
  guarded_payment op amount token spender k = do
    lift (validate_positive_amount amount)
    assert_system_ready c op
    ensure_allowance c token spender amount
    k

  -- It sends nothing, or the amount is positive and the system is ready for the operation.
  abbrev pub GuardedTrace : Operation → ℤ → Text → Text → (Tx → Type 0) → World E → List Tx → Type 0
  GuardedTrace op amount token spender P w sent' =
      (sent' ≡ w.sent) ⊎ ((pos 1 ≤ℤ amount) × Ready op w × Trace token spender P w.sent sent')

  guarded_payment_trace :
      {A : Type 0} (op : Operation) (amount : ℤ) (token spender : Text) (P : Tx → Type 0)
      (k : Action (World E) A) (w : World E)
      → SendsOne P k
      → GuardedTrace op amount token spender P w
          (guarded_payment op amount token spender k w).1.sent
  unfolding validate_positive_amount
  guarded_payment_trace {A} op amount token spender P k w h =
      elim (Bool-cases (leb_ℤ amount (pos 0))) [
        | inl n ↦ inl (ground arith)
        | inr n ↦ elim (outcome_cases (assert_system_ready c op w)) [
          | inr (x, u, p) ↦ inl (ground (arith, assert_system_ready-Quiet c op w))
          | inl (x, u, p) ↦
              let (status, q, fresh, free) = (assert_system_ready_iff c op w u).0 p in
              let e : guarded_payment op amount token spender k w
                  ≡ (ensure_allowance c token spender amount >> k) u =
                ground arith in
              let quiet : u.sent ≡ w.sent = ground (arith, assert_system_ready-Quiet c op w) in
              inr (
                ground arith,
                (status, u, q, fresh, free),
                subst₂ (λ (a : List Tx) (o : Result A × World E). Trace token spender P a o.1.sent)
                    quiet (sym e) (approve_then token spender amount P k u h),
              )
        ]
      ]

  -- The steps after the approval of a redemption.
  abbrev redeem_steps : ℤ → Action (World E) RedeemRequestResult
  redeem_steps shares = do
    receipt ← transact c (Tx.request_redeem shares c.signer_address)
    claim_id ← lift (extract_number c receipt Event.redeem_requested (codes "claimId"))
    pure (record { tx_hash = receipt.hash; claim_id = claim_id })

  redeem-SendsOne :
      (shares : ℤ)
      → SendsOne (λ tx. tx ≡ Tx.request_redeem shares c.signer_address) (redeem_steps shares)
  redeem-SendsOne shares v =
      inr (_, refl, ground (arith, transact_sends (Tx.request_redeem shares c.signer_address) v))

  -- `requestRedeem` sends nothing, or the amount is positive and the system is ready for redemptions,
  -- and then it sends one approval of the claim queue at most, and after that the redemption or
  -- nothing.
  pub request_redeem_trace :
      (shares : ℤ) (w : World E)
      → GuardedTrace Operation.redeem shares c.addresses.vault c.addresses.claim_queue
          (λ tx. tx ≡ Tx.request_redeem shares c.signer_address)
          w
          (request_redeem c shares w).1.sent
  unfolding request_redeem
  request_redeem_trace shares w =
      guarded_payment_trace Operation.redeem shares c.addresses.vault c.addresses.claim_queue _
        (redeem_steps shares) w (redeem-SendsOne shares)

  abbrev deposit_steps : ℤ → ℤ → Action (World E) DepositResult
  deposit_steps assets min_shares_out = do
    gas ← estimate_deposit_gas c assets min_shares_out
    receipt ←
        transact c (Tx.deposit assets c.signer_address min_shares_out gas.gas_limit_with_buffer)
    shares_received ← lift (extract_number c receipt Event.gateway_deposit (codes "sharesOut"))
    pure (record { tx_hash = receipt.hash; shares_received = shares_received })

  deposit-SendsOne :
      (assets min_shares_out : ℤ)
      → SendsOne
          (λ tx. (gas : ℕ) × (tx ≡ Tx.deposit assets c.signer_address min_shares_out gas))
          (deposit_steps assets min_shares_out)
  unfolding estimate_deposit_gas
  deposit-SendsOne assets min_shares_out v =
      elim (outcome_cases (estimate_deposit_gas c assets min_shares_out v)) [
        | inl (g, u, p) ↦ inr (
          _,
          (g.gas_limit_with_buffer, refl),
          ground (
            arith,
            transact_sends
                (Tx.deposit assets c.signer_address min_shares_out g.gas_limit_with_buffer) u,
          ),
        )
        | inr (x, u, p) ↦ inl (ground arith)
      ]

  -- `deposit` sends nothing, or the amount is positive and the system is ready for deposits, and then
  -- it sends one approval of the gateway at most, and after that the deposit for the agent itself, with
  -- the minimum of shares that was asked for, or nothing.
  pub deposit_trace :
      (assets min_shares_out : ℤ) (w : World E)
      → GuardedTrace Operation.deposit assets c.addresses.settlement_asset c.addresses.gateway
          (λ tx. (gas : ℕ) × (tx ≡ Tx.deposit assets c.signer_address min_shares_out gas))
          w
          (deposit c assets min_shares_out w).1.sent
  unfolding deposit
  deposit_trace assets min_shares_out w =
      guarded_payment_trace Operation.deposit assets c.addresses.settlement_asset
        c.addresses.gateway _ (deposit_steps assets min_shares_out) w
        (deposit-SendsOne assets min_shares_out)

  -- The gateway's ABI of the client has no event `GatewayGasTankTopUp`, so a top-up never returns: its
  -- receipt is never read, also when the transaction has gone through.
  pub top_up_gas_tank_never_returns :
      (assets min_shares_out : ℤ) (w w' : World E) (result : GasTankTopUpResult)
      → top_up_gas_tank c assets min_shares_out w ≢ (ok result, w')
  unfolding top_up_gas_tank extract_number
  top_up_gas_tank_never_returns assets min_shares_out w w' result h = ground arith
