-- ===== src/Stablecoin/Steps.antt =====
-- What the steps of the operations send and let through.
use mathlib.Core.Path.{subst}
use set.Prelude.{
  ℕ, ◌≤◌, ◌≡◌, refl, sym, ap, ◌⊎◌, inl, inr, true, false, none, some, List, ◌∷◌, arith, Bool-cases,
  ltb,
}
use set.Prelude.Int.{ℤ, pos_part}
use set.Prelude.Text.{Text}
use set.Effects.{Result, ok, Action, outcome_cases, lift, >>=-of_ok, >>=-of_err, ◌>>=◌, ◌>>◌}
use set.Validation.{assert_sufficient_balance}
use set.Stablecoin.Chain.{
  Tx, approve, Receipt, Contracts, World, read, send_and_wait, transact, approve_if_needed,
  wrapping,
}
use set.Stablecoin.Operations.{check_balance, check_collateral, estimate}

-- One approval, of the amount, may have been sent.
abbrev pub MayApprove : Text → Text → ℤ → List Tx → List Tx → Type 0
MayApprove token spender amount before after =
    (after ≡ before) ⊎ (after ≡ approve token spender amount ∷ before)

module _ {E : Type 0} (c : Contracts E) where
  abbrev pub Quiet : {A : Type 0} → Action (World E) A → Type 0
  Quiet m = (w : World E) → (m w).1.sent ≡ w.sent

  pub check_balance-Quiet : (token : Text) (amount : ℤ) → Quiet (check_balance c token amount)
  unfolding check_balance
  check_balance-Quiet token amount w = ground arith

  pub check_collateral-Quiet : (token : Text) → Quiet (check_collateral c token)
  unfolding check_collateral
  check_collateral-Quiet token w = ground arith

  pub estimate-Quiet : (name : Text) (m : Action E ℕ) → Quiet (estimate c name m)
  unfolding estimate
  estimate-Quiet name m w = refl

  pub transact_sends :
      (tx : Tx) (reason : Text) (w : World E) → (transact c tx reason w).1.sent ≡ tx ∷ w.sent
  unfolding transact
  transact_sends tx reason w = ground arith

  pub approve_if_needed_sends :
      (token spender : Text) (amount : ℤ) (w : World E)
      → MayApprove token spender amount w.sent (approve_if_needed c token spender amount w).1.sent
  unfolding approve_if_needed
  approve_if_needed_sends token spender amount w = ground arith

  -- The signer was found to have the amount.
  pub check_balance_ok :
      (token : Text) (amount : ℤ) (w u : World E)
      → check_balance c token amount w ≡ (ok tt, u)
      → (balance : ℕ) × (read c (c.balance_of token c.signer_address) w ≡ (ok balance, u))
        × (pos_part amount ≤ balance)
  unfolding check_balance assert_sufficient_balance
  check_balance_ok token amount w u h =
      elim (outcome_cases (read c (c.balance_of token c.signer_address) w)) [
        | inr (e, v, p) ↦ absurd (ground arith)
        | inl (balance, v, p) ↦ elim (Bool-cases (ltb balance (pos_part amount))) [
          | inl low ↦ absurd (ground arith)
          | inr enough ↦ (balance, ground arith, ground arith)
        ]
      ]

  -- The token was found to be approved.
  pub check_collateral_ok :
      (token : Text) (w u : World E)
      → check_collateral c token w ≡ (ok tt, u)
      → read c (c.is_approved_collateral token) w ≡ (ok true, u)
  unfolding check_collateral
  check_collateral_ok token w u h =
      elim (outcome_cases (read c (c.is_approved_collateral token) w)) [
        | inr (e, v, p) ↦ absurd (ground arith)
        | inl (true, v, p) ↦ ground arith
        | inl (false, v, p) ↦ absurd (ground arith)
      ]

  -- A receipt that is let through is one that the node gave, of a transaction that went through.
  pub transact_ok :
      (tx : Tx) (reason : Text) (w u : World E) (receipt : Receipt)
      → transact c tx reason w ≡ (ok receipt, u)
      → (send_and_wait c tx w ≡ (ok (some receipt), u)) × (receipt.status ≡ 1)
  unfolding transact
  transact_ok tx reason w u receipt h = elim (outcome_cases (send_and_wait c tx w)) [
    | inr (e, v, p) ↦ absurd (ground arith)
    | inl (none, v, p) ↦ absurd (ground arith)
    | inl (some r, v, p) ↦ ground arith
  ]

  -- One transaction of a kind is sent, or none.
  abbrev pub SendsOne : {A : Type 0} → (Tx → Type 0) → Action (World E) A → Type 0
  SendsOne P k =
      (v : World E) → ((k v).1.sent ≡ v.sent) ⊎ ((tx : Tx) × P tx × ((k v).1.sent ≡ tx ∷ v.sent))

  -- One approval at most is sent, and after it one transaction of the kind or none.
  abbrev pub Trace : Text → Text → ℤ → (Tx → Type 0) → List Tx → List Tx → Type 0
  Trace token spender amount P sent sent' =
      (before : List Tx) × MayApprove token spender amount sent before
      × ((sent' ≡ before) ⊎ ((tx : Tx) × P tx × (sent' ≡ tx ∷ before)))

  pub approve_then :
      {A : Type 0} (token spender : Text) (amount : ℤ) (P : Tx → Type 0) (k : Action (World E) A)
      (u : World E)
      → SendsOne P k
      → Trace token spender amount P u.sent
          ((approve_if_needed c token spender amount >> k) u).1.sent
  approve_then {A} token spender amount P k u h =
      elim (outcome_cases (approve_if_needed c token spender amount u)) [
        | inl (x, v, p) ↦ (
          v.sent,
          ground (arith, approve_if_needed_sends token spender amount u),
          subst
              (λ (o : Result A × World E).
                (o.1.sent ≡ v.sent) ⊎ ((tx : Tx) × P tx × (o.1.sent ≡ tx ∷ v.sent)))
              (sym (>>=-of_ok (approve_if_needed c token spender amount) (λ _. k) p)) (h v),
        )
        | inr (x, v, p) ↦ (
          v.sent,
          ground (arith, approve_if_needed_sends token spender amount u),
          inl (
              ap (λ (o : Result A × World E). o.1.sent)
                (>>=-of_err (approve_if_needed c token spender amount) (λ _. k) p)),
        )
      ]

  -- A transaction whose receipt is tested, and what is read from it.
  pub transact-SendsOne :
      {A : Type 0} (tx : Tx) (reason : Text) (f : Receipt → Result A)
      → SendsOne (λ t. t ≡ tx) (transact c tx reason >>= λ r. lift (f r))
  transact-SendsOne tx reason f v = inr (tx, refl, ground (arith, transact_sends tx reason v))

  -- The handler of a `try` changes nothing.
  pub wrapping_state :
      {A : Type 0} (context : Text) (m : Action (World E) A) (w : World E)
      → (wrapping context m w).1 ≡ (m w).1
  wrapping_state context m w = ground arith
