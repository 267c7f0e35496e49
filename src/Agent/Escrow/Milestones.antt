-- ===== src/Agent/Escrow/Milestones.antt =====
-- `fulfillPayment` submits every milestone that is left.
use mathlib.Core.List.{append_assoc}
use set.Prelude.{
  ℕ, zero, suc, ◌-◌, true, false, ◌≡◌, refl, ap, ◌∙◌, ◌⊎◌, inl, inr, none, List, [], ◌∷◌, ◌++◌,
  length, length-append, arith, Bool-cases,
}
use set.Prelude.Text.{Text}
use set.Effects.{ok, outcome_cases}
use set.Agent.Types.{FulfillmentType, FulfillmentProof, EscrowInfo}
use set.Agent.Chain.{Tx, Contracts, World, read}
use set.Agent.Quiet.{Quiet}
use set.Agent.Funding.Traces.{transact_sends}
use set.Agent.Escrow.{
  get_escrow, validate_non_zero_bytes32, fulfillment_type_of, submit_fulfillment, fulfill_from,
  fulfill_payment,
}

-- Submissions for an escrow, all with the same evidence.
abbrev pub AllSubmit : ℕ → Text → List Tx → Type 0
AllSubmit id hash [] = Unit
AllSubmit id hash (tx ∷ txs) =
    ((t : FulfillmentType) × (tx ≡ Tx.submit_fulfillment id t hash)) × AllSubmit id hash txs

AllSubmit-append :
    (id : ℕ) (hash : Text) (xs ys : List Tx)
    → AllSubmit id hash xs
    → AllSubmit id hash ys
    → AllSubmit id hash (xs ++ ys)
AllSubmit-append id hash [] ys h k = k
AllSubmit-append id hash (x ∷ xs) ys h k = (h.0, AllSubmit-append id hash xs ys h.1 k)

module _ {E : Type 0} (c : Contracts E) where
  fulfillment_type_of-Quiet : (proof : FulfillmentProof) → Quiet (fulfillment_type_of c proof)
  unfolding fulfillment_type_of get_escrow
  fulfillment_type_of-Quiet proof w = ground arith

  -- A submission that returns has sent one transaction.
  submit_ok :
      (proof : FulfillmentProof) (hash r : Text) (w w' : World E)
      → validate_non_zero_bytes32 proof.evidence_hash ≡ ok hash
      → submit_fulfillment c proof w ≡ (ok r, w')
      → (t : FulfillmentType) × (w'.sent ≡ Tx.submit_fulfillment proof.escrow_id t hash ∷ w.sent)
  unfolding submit_fulfillment
  submit_ok proof hash r w w' v h = elim (outcome_cases (fulfillment_type_of c proof w)) [
    | inr (x, u, p) ↦ ground arith
    | inl (t, u, p) ↦ (
      t,
      ground (
        arith,
        fulfillment_type_of-Quiet proof w,
        transact_sends c (Tx.submit_fulfillment proof.escrow_id t hash) u,
      ),
    )
  ]

  abbrev milestone_proof : ℕ → ℕ → Text → FulfillmentProof
  milestone_proof id m evidence = record {
    escrow_id = id;
    milestone_number = m;
    evidence_hash = evidence;
    fulfillment_type = none;
  }

  -- What the loop has sent, when it returns after `n` rounds.
  abbrev pub Submitted : ℕ → Text → ℕ → List Text → World E → World E → Type 0
  Submitted id hash n rs w w' =
      (length rs ≡ n)
      × ((txs : List Tx) × (w'.sent ≡ txs ++ w.sent) × (length txs ≡ n) × AllSubmit id hash txs)

  fulfill_from_ok :
      (n m id : ℕ) (evidence hash : Text) (w w' : World E) (rs : List Text)
      → validate_non_zero_bytes32 evidence ≡ ok hash
      → fulfill_from c id evidence n m w ≡ (ok rs, w')
      → Submitted id hash n rs w w'
  unfolding fulfill_from
  fulfill_from_ok zero m id evidence hash w w' rs v h = (ground arith, ([], ground arith, refl, tt))
  fulfill_from_ok (suc n) m id evidence hash w w' rs v h =
      elim (outcome_cases (submit_fulfillment c (milestone_proof id m evidence) w)) [
        | inr (x, u, p) ↦ ground arith
        | inl (r, u, p) ↦ elim (outcome_cases (fulfill_from c id evidence n (suc m) u)) [
          | inr (x, t, q) ↦ ground arith
          | inl (rest, t, q) ↦
              let (type, sent) = submit_ok (milestone_proof id m evidence) hash r w u v p in
              let (len, (txs, out, many, all)) =
                fulfill_from_ok n (suc m) id evidence hash u t rest v q in
              let e : rs ≡ r ∷ rest = ground arith in
              let e' : w' ≡ t = ground arith in
              (
                rw e (ap suc len),
                (
                  txs ++ Tx.submit_fulfillment id type hash ∷ [],
                  rw (e', append_assoc) (out ∙ ap (λ (l : List Tx). txs ++ l) sent),
                  omega (arith, length-append txs (Tx.submit_fulfillment id type hash ∷ []), many),
                  AllSubmit-append id hash txs _ all ((type, refl), tt),
                ),
              )
        ]
      ]

  -- The escrow was read, and it needs no fulfillment.
  abbrev pub NeedsNone : ℕ → World E → World E → Type 0
  NeedsNone id w w' =
      (info : EscrowInfo) × (get_escrow c id w ≡ (ok info, w'))
      × (info.requires_fulfillment ≡ false)

  -- What `fulfillPayment` has read before its loop.
  pub record Milestones (id : ℕ) (w u : World E) (completed required : ℕ) : Type 0 where
    pub info : EscrowInfo
    pub first : World E
    pub second : World E
    pub escrow : get_escrow c id w ≡ (ok info, first)
    pub needed : info.requires_fulfillment ≡ true
    pub done : read c (c.escrow_completed_milestones id) first ≡ (ok completed, second)
    pub asked : read c (c.escrow_required_milestones id) second ≡ (ok required, u)

  get_escrow-Quiet : (id : ℕ) → Quiet (get_escrow c id)
  unfolding get_escrow
  get_escrow-Quiet id w = ground arith

  -- When `fulfillPayment` returns, either the escrow was read and needs no fulfillment, the result is empty
  -- and nothing was sent; or the escrow was read and needs it, and one
  -- submission was sent and one result returned for each of the milestones that were required and not
  -- completed, all of them with the evidence given.
  pub fulfill_payment_ok :
      (id : ℕ) (evidence hash : Text) (w w' : World E) (rs : List Text)
      → validate_non_zero_bytes32 evidence ≡ ok hash
      → fulfill_payment c id evidence w ≡ (ok rs, w')
      → (NeedsNone id w w' × (rs ≡ []) × (w'.sent ≡ w.sent))
        ⊎ ((completed : ℕ) × (required : ℕ) × (u : World E) × Milestones id w u completed required
            × Submitted id hash (required - completed) rs w w')
  unfolding fulfill_payment
  fulfill_payment_ok id evidence hash w w' rs v h = elim (outcome_cases (get_escrow c id w)) [
    | inr (x, u, p) ↦ ground arith
    | inl (info, u1, p) ↦ elim (Bool-cases info.requires_fulfillment) [
      | inr b ↦ inl ((info, ground arith, b), ground arith, ground (arith, get_escrow-Quiet id w))
      | inl b ↦ elim (outcome_cases (read c (c.escrow_completed_milestones id) u1)) [
        | inr (x, u, q) ↦ ground arith
        | inl (completed, u2, q) ↦
            elim (outcome_cases (read c (c.escrow_required_milestones id) u2)) [
              | inr (x, u, r) ↦ ground arith
              | inl (required, u3, r) ↦
                  let k : fulfill_from c id evidence (required - completed) (suc completed) u3
                      ≡ (ok rs, w') =
                    ground arith in
                  let same : u3.sent ≡ w.sent = ground (arith, get_escrow-Quiet id w) in
                  let sub =
                    fulfill_from_ok (required - completed) (suc completed) id evidence hash u3 w' rs
                      v k in
                  inr (
                    completed,
                    required,
                    u3,
                    record {
                      info = info;
                      first = u1;
                      second = u2;
                      escrow = p;
                      needed = b;
                      done = q;
                      asked = r;
                    },
                    let (len, (txs, out, many, all)) = sub in
                        (len, (txs, out ∙ ap (λ (l : List Tx). txs ++ l) same, many, all)),
                  )
            ]
      ]
    ]
  ]
