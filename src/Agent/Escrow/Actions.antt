-- ===== src/Agent/Escrow/Actions.antt =====
-- The settlement actions that are listed, and those that can be executed.
use set.Prelude.{
  ℕ, Bool, true, false, not, ◌&&◌, ◌||◌, ◌≡◌, refl, ◌⊎◌, inl, inr, List, [], ◌∷◌, arith, Bool-cases,
  if◌then◌else◌,
}
use set.Prelude.Text.{Text}
use set.Effects.{ok, outcome_cases, result_cases}
use set.Agent.Types.{
  SettlementAction, SettlementActionType, SettlementActor, SettlementPreview, EscrowInfo,
  DisputeResolution,
}
use set.Agent.Chain.{Tx, Contracts, World}
use set.Agent.Quiet.{Quiet}
use set.Agent.Request.{is_no_resolution}
use set.Agent.Funding.Traces.{transact_sends}
use set.Agent.Escrow.{
  push_if, settlement_actions, preview_escrow_settlement, get_escrow, get_settlement_actions,
  execute_escrow_timeout, resolve_escrow_dispute, validate_non_zero_bytes32,
}

abbrev same_type : SettlementActionType → SettlementActionType → Bool
same_type SettlementActionType.release SettlementActionType.release = true
same_type SettlementActionType.refund SettlementActionType.refund = true
same_type SettlementActionType.resolve_dispute SettlementActionType.resolve_dispute = true
same_type SettlementActionType.execute_timeout SettlementActionType.execute_timeout = true
same_type _ _ = false

abbrev same_actor : SettlementActor → SettlementActor → Bool
same_actor SettlementActor.buyer SettlementActor.buyer = true
same_actor SettlementActor.merchant SettlementActor.merchant = true
same_actor SettlementActor.arbiter SettlementActor.arbiter = true
same_actor SettlementActor.anyone SettlementActor.anyone = true
same_actor _ _ = false

abbrev is_action : SettlementActionType → SettlementActor → SettlementAction → Bool
is_action type actor a = same_type type a.type && same_actor actor a.actor

-- Whether an action of a type, by an actor, is in a list.
abbrev pub lists : SettlementActionType → SettlementActor → List SettlementAction → Bool
lists type actor [] = false
lists type actor (a ∷ as') = is_action type actor a || lists type actor as'

lists-push_if :
    (type : SettlementActionType) (actor : SettlementActor) (b : Bool) (a : SettlementAction)
    (rest : List SettlementAction)
    → lists type actor (push_if b a rest) ≡ (b && is_action type actor a || lists type actor rest)
lists-push_if type actor true a rest = refl
lists-push_if type actor false a rest = refl

-- What may be done with an escrow, by the preview and by the escrow's timeout resolution.
abbrev pub is_available :
    SettlementPreview → EscrowInfo → SettlementActionType → SettlementActor → Bool
is_available p e SettlementActionType.release SettlementActor.buyer = p.can_buyer_release
is_available p e SettlementActionType.release SettlementActor.merchant = p.can_merchant_release
is_available p e SettlementActionType.release SettlementActor.arbiter = p.can_arbiter_release
is_available p e SettlementActionType.refund SettlementActor.buyer = p.can_buyer_refund
is_available p e SettlementActionType.refund SettlementActor.arbiter = p.can_arbiter_refund
is_available p e SettlementActionType.resolve_dispute SettlementActor.arbiter =
    p.can_arbiter_resolve
is_available p e SettlementActionType.execute_timeout SettlementActor.anyone =
    p.dispute_timed_out && not (is_no_resolution e.timeout_resolution)
is_available _ _ _ _ = false

-- An action is listed for an actor exactly if it is available to that actor.
pub settlement_actions_available :
    (p : SettlementPreview) (e : EscrowInfo) (type : SettlementActionType) (actor : SettlementActor)
    → lists type actor (settlement_actions p e) ≡ is_available p e type actor
unfolding settlement_actions
settlement_actions_available p e SettlementActionType.release SettlementActor.buyer = ground arith
settlement_actions_available p e _ _ = ground arith

module _ {E : Type 0} (c : Contracts E) where
  -- What `getSettlementActions` reads.
  pub record Reads (id : ℕ) (w u : World E) (p : SettlementPreview) (e : EscrowInfo) : Type 0 where
    pub middle : World E
    pub preview : preview_escrow_settlement c id w ≡ (ok p, middle)
    pub escrow : get_escrow c id middle ≡ (ok e, u)

  preview-Quiet : (id : ℕ) → Quiet (preview_escrow_settlement c id)
  unfolding preview_escrow_settlement
  preview-Quiet id w = refl

  get_escrow-Quiet : (id : ℕ) → Quiet (get_escrow c id)
  unfolding get_escrow
  get_escrow-Quiet id w = ground arith

  -- From what the two reads answer, `executeEscrowTimeout` sends its transaction exactly if
  -- `getSettlementActions` lists a timeout, and sends nothing otherwise.
  pub execute_timeout_listed :
      (id : ℕ) (w u : World E) (p : SettlementPreview) (e : EscrowInfo)
      → Reads id w u p e
      → (get_settlement_actions c id w ≡ (ok (settlement_actions p e), u))
        × ((execute_escrow_timeout c id w).1.sent ≡ (
            if lists SettlementActionType.execute_timeout SettlementActor.anyone
              (settlement_actions p e)
            then Tx.execute_timeout id ∷ w.sent
            else w.sent))
  unfolding get_settlement_actions execute_escrow_timeout
  execute_timeout_listed id w u p e r =
      let q =
        settlement_actions_available p e SettlementActionType.execute_timeout
          SettlementActor.anyone in
      let same : u.sent ≡ w.sent =
        ground (arith, preview-Quiet id w, get_escrow-Quiet id r.middle, r.preview, r.escrow) in
      let pv = r.preview in
      let es = r.escrow in
      (ground arith, rw q (ground (arith, transact_sends c (Tx.execute_timeout id) u)))

  -- A resolution by the arbiter is sent only as `RELEASE` or `REFUND`, only if the preview of the
  -- moment lists it, and only with evidence that is not zero; otherwise nothing is sent.
  pub resolve_dispute_trace :
      (id : ℕ) (resolution : DisputeResolution) (evidence : Text) (w : World E)
      → let sent' = (resolve_escrow_dispute c id resolution evidence w).1.sent in
        (sent' ≡ w.sent)
        ⊎ ((p : SettlementPreview) × (u : World E) × (hash : Text) × (preview_escrow_settlement c id
                w
              ≡ (ok p, u))
            × (p.can_arbiter_resolve ≡ true)
            × (is_no_resolution resolution ≡ false)
            × (validate_non_zero_bytes32 evidence ≡ ok hash)
            × (sent' ≡ Tx.resolve_dispute id resolution hash ∷ w.sent))
  unfolding resolve_escrow_dispute
  resolve_dispute_trace id resolution evidence w = elim (Bool-cases (is_no_resolution resolution)) [
    | inl n ↦ inl (ground arith)
    | inr n ↦ elim (outcome_cases (preview_escrow_settlement c id w)) [
      | inr (x, u, q) ↦ inl (ground (arith, preview-Quiet id w))
      | inl (p, u, q) ↦
          let same : u.sent ≡ w.sent = ground (arith, preview-Quiet id w) in
          elim (Bool-cases p.can_arbiter_resolve) [
            | inr b ↦ inl (ground arith)
            | inl b ↦ elim (result_cases (validate_non_zero_bytes32 evidence)) [
              | inr (x, r) ↦ inl (ground arith)
              | inl (hash, r) ↦ inr (
                p,
                u,
                hash,
                q,
                b,
                n,
                r,
                ground (arith, transact_sends c (Tx.resolve_dispute id resolution hash) u),
              )
            ]
          ]
    ]
  ]
