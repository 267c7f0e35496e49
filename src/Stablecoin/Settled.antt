-- ===== src/Stablecoin/Settled.antt =====
-- What a deposit returns.
use mathlib.Core.Path.{subst}
use set.Prelude.{ℕ, ◌≡◌, refl, sym, inl, inr, true, false, Option, some, arith, Option-cases}
use set.Prelude.Int.{ℤ}
use set.Prelude.Text.{Text, codes}
use set.Errors.{Thrown}
use set.Effects.{ok, Action, outcome_cases, result_cases, pure, lift, ◌>>=◌}
use set.Validation.{validate_address, validate_positive_amount}
use set.Stablecoin.Chain.{
  Tx, Event, Receipt, Contracts, World, read, send_and_wait, transact, approve_if_needed, event_arg,
  or_throw, wrapping,
}
use set.Stablecoin.Operations.{
  DepositResult, recipient_or_signer, parse_error, check_balance, check_collateral, estimate,
  deposit, deposit_checked,
}
use set.Stablecoin.Steps.{transact_ok}

module _ {E : Type 0} (c : Contracts E) where
  -- A receipt that the node gave, for this transaction, of a success, with this argument of an event.
  pub record Settled (tx : Tx) (event : Event) (arg hash : Text) (amount : ℕ) : Type 0 where
    pub before : World E
    pub after : World E
    pub receipt : Receipt
    pub given : send_and_wait c tx before ≡ (ok (some receipt), after)
    pub succeeded : receipt.status ≡ 1
    pub same_hash : hash ≡ receipt.hash
    pub argument : event_arg c receipt event arg ≡ some amount

  wrapping_ok :
      {A : Type 0} (context : Text) (m : Action (World E) A) (w w' : World E) (a : A)
      → wrapping context m w ≡ (ok a, w')
      → m w ≡ (ok a, w')
  wrapping_ok context m w w' a h = elim (outcome_cases (m w)) [
    | inl (b, u, q) ↦ ground arith
    | inr (e, u, q) ↦ absurd (ground arith)
  ]

  -- After a transaction, an argument of its event, and a result made of the two.
  settled :
      {A : Type 0} (tx : Tx) (reason : Text) (missing : Thrown) (event : Event) (arg : Text)
      (make : Text → ℕ → A) (w w' : World E) (a : A)
      → (transact c tx reason >>= λ receipt.
            lift (or_throw missing (event_arg c receipt event arg)) >>= λ amount.
            pure (make receipt.hash amount))
          w
        ≡ (ok a, w')
      → (hash : Text) × (amount : ℕ) × (a ≡ make hash amount) × Settled tx event arg hash amount
  settled tx reason missing event arg make w w' a h =
      elim (outcome_cases (transact c tx reason w)) [
        | inr (e, u, p) ↦ absurd (ground arith)
        | inl (receipt, u, p) ↦ elim (Option-cases (event_arg c receipt event arg)) [
          | inl z ↦ absurd (ground arith)
          | inr (amount, z) ↦
              let (given, one) = transact_ok c tx reason w u receipt p in
              (
                receipt.hash,
                amount,
                ground arith,
                record {
                  before = w;
                  after = u;
                  receipt = receipt;
                  given = given;
                  succeeded = one;
                  same_hash = refl;
                  argument = z;
                },
              )
        ]
      ]

  abbrev make_deposit : Text → ℕ → DepositResult
  make_deposit hash amount = record { tx_hash = hash; ss_usd_minted = amount }

  -- The last steps of a deposit.
  abbrev deposit_end : Text → ℤ → Text → ℕ → Action (World E) DepositResult
  deposit_end token amount to gas =
      transact c (Tx.deposit token amount to gas) (codes "Deposit transaction failed")
      >>= λ receipt.
          lift (
            or_throw (parse_error (codes "Deposited.ssUSDMinted"))
              (event_arg c receipt Event.deposited (codes "ssUSDMinted")))
          >>= λ minted. pure (make_deposit receipt.hash minted)

  -- A deposit that has returned had its estimate, and its last steps have returned.
  deposit_checked_end :
      (token : Text) (amount : ℤ) (to : Text) (w w' : World E) (r : DepositResult)
      → deposit_checked c token amount to w ≡ (ok r, w')
      → (gas : ℕ) × (u : World E) × (deposit_end token amount to gas u ≡ (ok r, w'))
  unfolding deposit_checked
  deposit_checked_end token amount to w w' r h = elim (outcome_cases (read c c.deposits_paused w)) [
    | inr (e, u, p) ↦ absurd (ground arith)
    | inl (true, u, p) ↦ absurd (ground arith)
    | inl (false, u, p) ↦ elim (outcome_cases (check_collateral c token u)) [
      | inr (e, v, q) ↦ absurd (ground arith)
      | inl (_, v, q) ↦ elim (outcome_cases (check_balance c token amount v)) [
        | inr (e, x, s) ↦ absurd (ground arith)
        | inl (_, x, s) ↦
            elim (outcome_cases (approve_if_needed c token c.addresses.treasury amount x)) [
              | inr (e, y, t) ↦ absurd (ground arith)
              | inl (_, y, t) ↦
                  elim (outcome_cases
                    (estimate c (codes "deposit") (c.estimate_deposit token amount to) y)) [
                      | inr (e, z, k) ↦ absurd (ground arith)
                      | inl (g, z, k) ↦ (g.gas_limit_with_buffer, z, ground arith)
                    ]
            ]
      ]
    ]
  ]

  -- If `deposit` returns, then the token and the recipient are checked, and it returns the hash of a
  -- receipt that the node gave for the deposit of the amount, with status 1, and what its event says
  -- was minted.
  pub deposit-Settled :
      (collateral_token : Text) (amount : ℤ) (recipient : Option Text) (w w' : World E)
      (r : DepositResult)
      → deposit c collateral_token amount recipient w ≡ (ok r, w')
      → (token to : Text) × (gas : ℕ) × (validate_address c.ethers collateral_token ≡ ok token)
        × (recipient_or_signer c recipient ≡ ok to)
        × Settled
            (Tx.deposit token amount to gas)
            Event.deposited
            (codes "ssUSDMinted")
            r.tx_hash
            r.ss_usd_minted
  unfolding deposit
  deposit-Settled collateral_token amount recipient w w' r h =
      elim (result_cases (validate_address c.ethers collateral_token)) [
        | inr (e, p) ↦ absurd (ground arith)
        | inl (token, p) ↦ elim (result_cases (validate_positive_amount amount)) [
          | inr (e, q) ↦ absurd (ground arith)
          | inl (_, q) ↦ elim (result_cases (recipient_or_signer c recipient)) [
            | inr (e, s) ↦ absurd (ground arith)
            | inl (to, s) ↦
                let t : wrapping (codes "Deposit failed") (deposit_checked c token amount to) w
                    ≡ (ok r, w') =
                  ground arith in
                let (gas, u, k) = deposit_checked_end token amount to w w' r (
                  wrapping_ok (codes "Deposit failed") (deposit_checked c token amount to) w w' r
                    t) in
                let (hash, minted, same, done) =
                  settled (Tx.deposit token amount to gas) (codes "Deposit transaction failed") _
                    Event.deposited (codes "ssUSDMinted") make_deposit u w' r k in
                (
                  token,
                  to,
                  gas,
                  p,
                  s,
                  subst
                      (λ (x : DepositResult).
                        Settled (Tx.deposit token amount to gas) Event.deposited
                          (codes "ssUSDMinted") x.tx_hash x.ss_usd_minted)
                      (sym same) done,
                )
          ]
        ]
      ]
