-- ===== src/Agent/Escrow/Funding.antt =====
-- What funding an escrow sends, and under which guards.
use mathlib.Core.Path.{subst₂}
use set.Prelude.{◌≡◌, refl, sym, ◌⊎◌, inl, inr, Option, List, arith, Bool-cases}
use set.Prelude.Int.{ℤ, pos, ◌≤ℤ◌, leb_ℤ}
use set.Prelude.Text.{Text, codes}
use set.Prelude.Number.{Number}
use set.Effects.{Result, ok, Action, outcome_cases, result_cases, pure, lift, ◌>>=◌, ◌>>◌}
use set.Validation.{validate_address, validate_positive_amount}
use set.Agent.Types.{AgentStatus, InvoiceTerms, EscrowFundResult}
use set.Agent.Chain.{Tx, Event, Contracts, World, transact, ensure_allowance}
use set.Agent.Events.{extract_number}
use set.Agent.Status.{Operation, assert_system_ready, assert_spend_allowed}
use set.Agent.Status.Guards.{
  assert_system_ready_iff, assert_system_ready-Quiet, assert_spend_allowed-Quiet,
  assert_spend_allowed_ok, PassesSpend,
}
use set.Agent.Funding.Traces.{Ready, Trace, SendsOne, approve_then, transact_sends}
use set.Agent.Escrow.{fund_escrow, escrow_cap}

module _ {E : Type 0} (c : Contracts E) where
  -- The steps after the approval.
  abbrev fund_steps : Tx → Action (World E) EscrowFundResult
  fund_steps tx = do
    receipt ← transact c tx
    escrow_id ← lift (extract_number c receipt Event.gateway_escrow_funded (codes "escrowId"))
    shares_out ← lift (extract_number c receipt Event.gateway_escrow_funded (codes "sharesOut"))
    assets_in ← lift (extract_number c receipt Event.gateway_escrow_funded (codes "assetsIn"))
    pure (record {
      tx_hash = receipt.hash;
      escrow_id = escrow_id;
      shares_locked = shares_out;
      assets_in = assets_in;
    })

  fund-SendsOne : (tx : Tx) → SendsOne c (λ t. t ≡ tx) (fund_steps tx)
  fund-SendsOne tx v = inr (_, refl, ground (arith, transact_sends c tx v))

  -- What an escrow that is funded has passed, and the transactions that follow.
  pub record FundsEscrow (merchant : Text) (terms : InvoiceTerms) (buyer_bps : Number)
      (most : Option ℤ) (w : World E) (sent' : List Tx) : Type 0 where
    pub payee : Text
    pub ready : World E
    pub passed : World E
    pub status : AgentStatus
    pub addressed : validate_address c.ethers merchant ≡ ok payee
    pub positive : pos 1 ≤ℤ terms.assets_due
    pub is_ready : Ready c Operation.escrow w
    pub spendable : PassesSpend c payee terms.assets_due ready passed status
    pub still : passed.sent ≡ w.sent
    pub trace :
        Trace c c.addresses.settlement_asset c.addresses.gateway
          (λ tx.
            tx
            ≡ Tx.deposit_to_escrow c.addresses.escrow payee terms buyer_bps
                (escrow_cap most terms.assets_due))
          w.sent
          sent'

  -- `fundEscrow` sends nothing; or the merchant's address and the amount due are valid, the system is
  -- ready for escrows and the payment passes the spending guard, and then it sends one approval of the
  -- gateway at most, and after that one deposit into the escrow contract, for the merchant and the
  -- terms that were given and up to the cap, or nothing.
  pub fund_escrow_trace :
      (merchant : Text) (terms : InvoiceTerms) (buyer_bps : Number) (most : Option ℤ) (w : World E)
      → ((fund_escrow c merchant terms buyer_bps most w).1.sent ≡ w.sent)
        ⊎ FundsEscrow merchant terms buyer_bps most w
            (fund_escrow c merchant terms buyer_bps most w).1.sent
  unfolding fund_escrow validate_positive_amount
  fund_escrow_trace merchant terms buyer_bps most w =
      elim (result_cases (validate_address c.ethers merchant)) [
        | inr (x, a) ↦ inl (ground arith)
        | inl (payee, a) ↦ elim (Bool-cases (leb_ℤ terms.assets_due (pos 0))) [
          | inl n ↦ inl (ground arith)
          | inr n ↦ elim (outcome_cases (assert_system_ready c Operation.escrow w)) [
            | inr (x, u, p) ↦ inl (ground (arith, assert_system_ready-Quiet c Operation.escrow w))
            | inl (x, u, p) ↦
                elim (outcome_cases (assert_spend_allowed c payee terms.assets_due u)) [
                  | inr (y, v, q) ↦ inl (
                      ground (
                        arith,
                        assert_system_ready-Quiet c Operation.escrow w,
                        assert_spend_allowed-Quiet c payee terms.assets_due u,
                      ))
                  | inl (status, v, q) ↦
                      let (system, r, fresh, free) =
                        (assert_system_ready_iff c Operation.escrow w u).0 p in
                      let cap = escrow_cap most terms.assets_due in
                      let tx = Tx.deposit_to_escrow c.addresses.escrow payee terms buyer_bps cap in
                      let e : fund_escrow c merchant terms buyer_bps most w
                          ≡ (ensure_allowance c c.addresses.settlement_asset c.addresses.gateway cap
                                >> fund_steps tx)
                              v =
                        ground arith in
                      let quiet : v.sent ≡ w.sent = ground (
                        arith,
                        assert_system_ready-Quiet c Operation.escrow w,
                        assert_spend_allowed-Quiet c payee terms.assets_due u,
                      ) in
                      inr (record {
                        payee = payee;
                        ready = u;
                        passed = v;
                        status = status;
                        addressed = a;
                        positive = ground arith;
                        is_ready = (system, u, r, fresh, free);
                        spendable = assert_spend_allowed_ok c payee terms.assets_due u v q;
                        still = quiet;
                        trace =
                            subst₂
                              (λ (l : List Tx) (o : Result EscrowFundResult × World E).
                                Trace c c.addresses.settlement_asset c.addresses.gateway
                                  (λ t. t ≡ tx) l o.1.sent)
                              quiet (sym e)
                              (approve_then c c.addresses.settlement_asset c.addresses.gateway cap
                                (λ t. t ≡ tx) (fund_steps tx) v (fund-SendsOne tx));
                      })
                ]
          ]
        ]
      ]
