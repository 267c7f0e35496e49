-- ===== src/Transactions/Builder/Once.antt =====
-- What one attempt sends and returns.
use set.Prelude.{
  ℕ, ◌*◌, ◌≡◌, ◌≢◌, refl, ◌⊎◌, inl, inr, none, some, List, ◌∷◌, arith, Bool-cases, ◌==◌,
}
use set.Prelude.Text.{Text}
use set.Errors.{Thrown}
use set.Effects.{ok, err, Action, outcome_cases}
use set.Transactions.Builder.{
  TxStatus, TransactionReceipt, TxResult, TxBuilderOptions, TxOverrides, Call, Wallet, result_of,
  estimate_tx_gas, simulate, send_and_wait, try_once,
}

module _ {S : Type 0} (call : Call S) (o : TxBuilderOptions S) (value : ℕ) where
  -- A receipt with status 0 is reverted and has no confirmations; every other one is confirmed with those
  -- that were asked for.
  abbrev pub Ended : TxResult → TransactionReceipt → Type 0
  Ended result receipt =
      ((receipt.status ≡ 0) × (result.status ≡ TxStatus.reverted) × (result.confirmations ≡ none))
      ⊎ ((receipt.status ≢ 0)
          × (result.status ≡ TxStatus.confirmed)
          × (result.confirmations ≡ some o.confirmations))

  -- The result of a receipt that the node gave for a transaction that was sent.
  pub record Mined (result : TxResult) : Type 0 where
    pub hash : Text
    pub receipt : TransactionReceipt
    pub submission : TxOverrides
    pub prior : S
    pub posted : S
    pub carries : submission.value ≡ value
    pub accepted : call.send submission prior ≡ (ok hash, posted)
    pub before : S
    pub after : S
    pub waited :
        call.wait_or_timeout hash o.confirmations o.confirmation_timeout_ms before
        ≡ (ok receipt, after)
    pub ended : Ended result receipt
    pub shown : (result.hash ≡ some hash) × (result.receipt ≡ some receipt) × (result.error ≡ none)
    pub paid : result.total_cost ≡ some (receipt.gas_used * receipt.gas_price)

  -- One submission that carries the value was added, or none.
  abbrev pub SendsOnce : List TxOverrides → List TxOverrides → Type 0
  SendsOnce before after = (t : TxOverrides) × (after ≡ t ∷ before) × (t.value ≡ value)

  pub estimate-submitted :
      (w : Wallet S) → (estimate_tx_gas call o value w).1.submitted ≡ w.submitted
  unfolding estimate_tx_gas
  estimate-submitted w = ground arith

  pub simulate-submitted : (w : Wallet S) → (simulate call o value w).1.submitted ≡ w.submitted
  unfolding simulate
  simulate-submitted w = ground arith

  abbrev wait : Text → Action S TransactionReceipt
  wait hash = call.wait_or_timeout hash o.confirmations o.confirmation_timeout_ms

  send_and_wait_ok :
      (w w' : Wallet S) (result : TxResult)
      → send_and_wait call o value w ≡ (ok result, w')
      → SendsOnce w.submitted w'.submitted × Mined result
  unfolding send_and_wait result_of
  send_and_wait_ok w w' result h = elim (outcome_cases (estimate_tx_gas call o value w)) [
    | inr (e, u, p) ↦ ground arith
    | inl ((limit, price, cost), u, p) ↦
        let t : TxOverrides = record { value = value; gas_limit = limit; gas_price = price } in
        elim (outcome_cases (call.send t (o.on_status_change TxStatus.sending u.env))) [
          | inr (e, s, q) ↦ ground arith
          | inl (hash, s, q) ↦
              elim (outcome_cases (wait hash (o.on_status_change TxStatus.confirming s))) [
                | inr (e, s', r) ↦ ground arith
                | inl (receipt, s', r) ↦ elim (Bool-cases (receipt.status == 0)) [
                  | inl z ↦ (
                    (t, ground (arith, estimate-submitted w), refl),
                    record {
                      hash = hash;
                      receipt = receipt;
                      submission = t;
                      prior = o.on_status_change TxStatus.sending u.env;
                      posted = s;
                      carries = refl;
                      accepted = q;
                      before = o.on_status_change TxStatus.confirming s;
                      after = s';
                      waited = r;
                      ended = inl (ground arith, ground arith, ground arith);
                      shown = (ground arith, ground arith, ground arith);
                      paid = ground arith;
                    },
                  )
                  | inr z ↦ (
                    (t, ground (arith, estimate-submitted w), refl),
                    record {
                      hash = hash;
                      receipt = receipt;
                      submission = t;
                      prior = o.on_status_change TxStatus.sending u.env;
                      posted = s;
                      carries = refl;
                      accepted = q;
                      before = o.on_status_change TxStatus.confirming s;
                      after = s';
                      waited = r;
                      ended = inr ((λ q. ground arith), ground arith, ground arith);
                      shown = (ground arith, ground arith, ground arith);
                      paid = ground arith;
                    },
                  )
                ]
              ]
        ]
  ]

  send_and_wait_err :
      (w w' : Wallet S) (e : Thrown)
      → send_and_wait call o value w ≡ (err e, w')
      → (w'.submitted ≡ w.submitted) ⊎ SendsOnce w.submitted w'.submitted
  unfolding send_and_wait
  send_and_wait_err w w' e h = elim (outcome_cases (estimate_tx_gas call o value w)) [
    | inr (x, u, p) ↦ inl (ground (arith, estimate-submitted w))
    | inl ((limit, price, cost), u, p) ↦
        let t : TxOverrides = record { value = value; gas_limit = limit; gas_price = price } in
        elim (outcome_cases (call.send t (o.on_status_change TxStatus.sending u.env))) [
          | inr (x, s, q) ↦ inr (t, ground (arith, estimate-submitted w), refl)
          | inl (hash, s, q) ↦
              elim (outcome_cases (wait hash (o.on_status_change TxStatus.confirming s))) [
                | inr (x, s', r) ↦ inr (t, ground (arith, estimate-submitted w), refl)
                | inl (receipt, s', r) ↦ elim (Bool-cases (receipt.status == 0)) [
                  | inl z ↦ ground arith
                  | inr z ↦ ground arith
                ]
              ]
        ]
  ]

  pub try_once_ok :
      (w w' : Wallet S) (result : TxResult)
      → try_once call o value w ≡ (ok result, w')
      → ((result.status ≡ TxStatus.failed) × (w'.submitted ≡ w.submitted))
        ⊎ (SendsOnce w.submitted w'.submitted × Mined result)
  unfolding try_once
  try_once_ok w w' result h = elim (Bool-cases o.simulate) [
    | inr b ↦ inr (send_and_wait_ok w w' result (ground arith))
    | inl b ↦ elim (outcome_cases (simulate call o value w)) [
      | inr (e, u, p) ↦ ground arith
      | inl (none, u, p) ↦
          let (out, mined) = send_and_wait_ok u w' result (ground arith) in
          inr (ground (arith, simulate-submitted w, out), mined)
      | inl (some m, u, p) ↦ inl (ground arith, ground (arith, simulate-submitted w))
    ]
  ]

  pub try_once_err :
      (w w' : Wallet S) (e : Thrown)
      → try_once call o value w ≡ (err e, w')
      → (w'.submitted ≡ w.submitted) ⊎ SendsOnce w.submitted w'.submitted
  unfolding try_once
  try_once_err w w' e h = elim (Bool-cases o.simulate) [
    | inr b ↦ send_and_wait_err w w' e (ground arith)
    | inl b ↦ elim (outcome_cases (simulate call o value w)) [
      | inr (x, u, p) ↦ ground (arith, simulate-submitted w)
      | inl (none, u, p) ↦
          let out = send_and_wait_err u w' e (ground arith) in
          ground (arith, simulate-submitted w, out)
      | inl (some m, u, p) ↦ ground arith
    ]
  ]
