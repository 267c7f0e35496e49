-- ===== src/Agent/Funding/Payments.antt =====
-- `transfer` and `pay`: who is paid, how much, and under which guards.
use set.Prelude.{ℕ, ◌≡◌, ◌⊎◌, inl, inr, List, ◌∷◌, arith, Bool-cases}
use set.Prelude.Int.{ℤ, pos, ◌≤ℤ◌, leb_ℤ}
use set.Prelude.Text.{Text}
use set.Effects.{ok, result_cases}
use set.Validation.{validate_address, validate_positive_amount}
use set.Agent.Types.{AgentStatus}
use set.Agent.Chain.{Tx, Contracts, World}
use set.Agent.Quiet.{Quiet}
use set.Agent.Status.{assets_to_shares}
use set.Agent.Status.Guards.{PassesSpend}
use set.Agent.Funding.{transfer}
use set.Agent.Funding.Traces.{transact_sends}

module _ {E : Type 0} (c : Contracts E) where
  -- `transfer` sends nothing, or it sends a positive number of shares to the checked address.
  pub transfer_trace :
      (to : Text) (shares : ℤ) (w : World E)
      → let sent' = (transfer c to shares w).1.sent in
        (sent' ≡ w.sent)
        ⊎ ((valid_to : Text) × (validate_address c.ethers to ≡ ok valid_to)
            × (pos 1 ≤ℤ shares)
            × (sent' ≡ Tx.transfer valid_to shares ∷ w.sent))
  unfolding transfer validate_positive_amount
  transfer_trace to shares w = elim (result_cases (validate_address c.ethers to)) [
    | inr (e, p) ↦ inl (ground arith)
    | inl (valid_to, p) ↦ elim (Bool-cases (leb_ℤ shares (pos 0))) [
      | inl n ↦ inl (ground arith)
      | inr n ↦ inr (
        valid_to,
        p,
        ground arith,
        ground (arith, transact_sends c (Tx.transfer valid_to shares) w),
      )
    ]
  ]

  -- The one payment that `pay` makes, and what was found before it.
  pub record Pays (to : Text) (amount : ℤ) (w : World E) (sent' : List Tx) : Type 0 where
    pub valid_to : Text
    pub again : Text
    pub status : AgentStatus
    pub u : World E
    pub v : World E
    pub shares : ℕ
    pub checked : validate_address c.ethers to ≡ ok valid_to
    pub positive : pos 1 ≤ℤ amount
    pub passes : PassesSpend c valid_to amount w u status
    pub converted : assets_to_shares c amount u ≡ (ok shares, v)
    pub checked_again : validate_address c.ethers valid_to ≡ ok again
    pub paid : sent' ≡ Tx.transfer again (pos shares) ∷ w.sent
