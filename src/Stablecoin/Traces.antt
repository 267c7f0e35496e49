-- ===== src/Stablecoin/Traces.antt =====
-- Which transactions the operations send, and under which guards.
use set.Prelude.{ℕ, ◌≤◌, ◌≡◌, true, false, List}
use set.Prelude.Int.{ℤ, pos_part}
use set.Prelude.Text.{Text, codes}
use set.Effects.{ok, Action, pure, lift, ◌>>=◌}
use set.Stablecoin.Chain.{Tx, Event, Contracts, World, read, transact, event_arg, or_throw}
use set.Stablecoin.Operations.{DepositResult, parse_error, estimate, deposit}
use set.Stablecoin.Steps.{Trace}

module _ {E : Type 0} (c : Contracts E) where
  -- A view was read, with this answer, in some world on the way.
  abbrev pub Found : {A : Type 0} → Action E A → A → Type 0
  Found m a = (u v : World E) × (read c m u ≡ (ok a, v))

  -- The signer was found to have the amount of the token.
  abbrev pub Funded : Text → ℤ → Type 0
  Funded token amount =
      (balance : ℕ) × Found (c.balance_of token c.signer_address) balance
      × (pos_part amount ≤ balance)

  abbrev pub IsDeposit : Text → ℤ → Text → Tx → Type 0
  IsDeposit token amount to tx = (gas : ℕ) × (tx ≡ Tx.deposit token amount to gas)

  -- The steps of a deposit after the approval.
  abbrev deposit_steps : Text → ℤ → Text → Action (World E) DepositResult
  deposit_steps token amount to = do
    gas ← estimate c (codes "deposit") (c.estimate_deposit token amount to)
    receipt ←
        transact c (Tx.deposit token amount to gas.gas_limit_with_buffer)
          (codes "Deposit transaction failed")
    minted ← lift (
        or_throw (parse_error (codes "Deposited.ssUSDMinted"))
          (event_arg c receipt Event.deposited (codes "ssUSDMinted")))
    pure (record { tx_hash = receipt.hash; ss_usd_minted = minted })

  -- What a deposit found before it sent anything, and what it sent.
  pub record Deposits (token : Text) (amount : ℤ) (to : Text) (sent sent' : List Tx) : Type 0 where
    pub not_paused : Found c.deposits_paused false
    pub approved : Found (c.is_approved_collateral token) true
    pub funded : Funded token amount
    pub trace : Trace c token c.addresses.treasury amount (IsDeposit token amount to) sent sent'
