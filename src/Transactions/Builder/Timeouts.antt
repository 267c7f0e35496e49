-- ===== src/Transactions/Builder/Timeouts.antt =====
-- `execute` on a node that accepts every transaction and confirms none in time.
use set.Prelude.{
  ℕ, zero, suc, ◌+◌, ◌≡◌, ◌≢◌, refl, false, Option, some, ◌∷◌, length, arith, Bool-cases, inl, inr,
}
use set.Prelude.Text.{Text, codes, includes}
use set.Errors.{Thrown, error, message_of}
use set.Effects.{ok, err, outcome_cases}
use set.Transactions.Builder.{
  TxStatus, TxBuilderOptions, TxOverrides, Call, Wallet, failed_with, is_final, estimate_tx_gas,
  simulate, send_and_wait, try_once, back_off, execute_from, execute,
}
use set.Transactions.Builder.Attempts.{execute_step_last, execute_step_again}
use set.Transactions.Builder.Once.{estimate-submitted}

abbrev pub timeout_error : Thrown
timeout_error = error (codes "Confirmation timeout")

timeout_not_final : is_final (message_of timeout_error) ≡ false
unfolding is_final includes
timeout_not_final = refl

module _ {S : Type 0} (call : Call S) (o : TxBuilderOptions S) (value : ℕ) where
  -- Every request is answered, but the timeout is over before the transaction is mined.
  pub record Stalls : Type 0 where
    pub simulated : (s : S) → (call.static_call value s).0 ≡ ok tt
    pub priced : (s : S) → (price : Option ℕ) × ((call.gas_price s).0 ≡ ok price)
    pub estimated : (s : S) → (gas : ℕ) × ((call.estimate_gas value s).0 ≡ ok gas)
    pub accepted : (t : TxOverrides) (s : S) → (hash : Text) × ((call.send t s).0 ≡ ok hash)
    pub late :
        (hash : Text) (s : S)
        → (call.wait_or_timeout hash o.confirmations o.confirmation_timeout_ms s).0
          ≡ err timeout_error

  module _ (stalls : Stalls) where
    estimate_stalls :
        (w : Wallet S) (e : Thrown) (u : Wallet S) → estimate_tx_gas call o value w ≢ (err e, u)
    unfolding estimate_tx_gas
    estimate_stalls w e u h =
        let s = o.on_status_change TxStatus.estimating_gas w.env in
        let (price, p) = stalls.priced s in
        let (gas, q) = stalls.estimated (call.gas_price s).1 in
        elim (outcome_cases (call.gas_price s)) [
          | inr (x, s', r) ↦ ground arith
          | inl (x, s', r) ↦ elim (outcome_cases (call.estimate_gas value s')) [
            | inr (y, s'', r') ↦ ground arith
            | inl (y, s'', r') ↦ ground arith
          ]
        ]

    send_and_wait_stalls :
        (w : Wallet S)
        → (w' : Wallet S) × (send_and_wait call o value w ≡ (err timeout_error, w'))
          × (length w'.submitted ≡ length w.submitted + 1)
    unfolding send_and_wait
    send_and_wait_stalls w = elim (outcome_cases (estimate_tx_gas call o value w)) [
      | inr (e, u, p) ↦ absurd (estimate_stalls w e u p)
      | inl ((limit, price, cost), u, p) ↦
          let t : TxOverrides = record { value = value; gas_limit = limit; gas_price = price } in
          let s = o.on_status_change TxStatus.sending u.env in
          elim (outcome_cases (call.send t s)) [
            | inr (e, v, q) ↦ let (hash, a) = stalls.accepted t s in ground arith
            | inl (hash, v, q) ↦
                let s' = o.on_status_change TxStatus.confirming v in
                elim (outcome_cases
                  (call.wait_or_timeout hash o.confirmations o.confirmation_timeout_ms s')) [
                    | inl (x, z, r) ↦ ground (arith, stalls.late hash s')
                    | inr (x, z, r) ↦ (
                      record { env = z; submitted = t ∷ u.submitted },
                      ground (arith, stalls.late hash s'),
                      ground (arith, estimate-submitted call o value w),
                    )
                  ]
          ]
    ]

    try_once_stalls :
        (w : Wallet S)
        → (w' : Wallet S) × (try_once call o value w ≡ (err timeout_error, w'))
          × (length w'.submitted ≡ length w.submitted + 1)
    unfolding try_once simulate
    try_once_stalls w = elim (Bool-cases o.simulate) [
      | inr b ↦ let (w', p, n) = send_and_wait_stalls w in (w', ground arith, n)
      | inl b ↦
          let s = o.on_status_change TxStatus.simulating w.env in
          elim (outcome_cases (call.static_call value s)) [
            | inr (e, v, q) ↦ ground (arith, stalls.simulated s)
            | inl (x, v, q) ↦
                let (w', p, n) = send_and_wait_stalls (record w { env = v }) in
                (w', ground arith, n)
          ]
    ]

    execute_from_stalls :
        (n attempt : ℕ) (w : Wallet S)
        → let x = execute_from call o n attempt value w in
          (x.0 ≡ failed_with (some (message_of timeout_error)))
          × (length x.1.submitted ≡ length w.submitted + (n + 1))
    execute_from_stalls zero attempt w =
        let (w', p, k) = try_once_stalls w in
        rw (execute_step_last call o value attempt w w' p) (refl, k)
    execute_from_stalls (suc n) attempt w =
        let (w', p, k) = try_once_stalls w in
        let (r, k') = execute_from_stalls n (suc attempt) (back_off call o attempt w') in
        rw (execute_step_again call o value n attempt w w' p timeout_not_final)
          (r, omega (arith, k, k'))

    -- On a node that accepts every transaction and confirms none before the timeout, `execute` sends
    -- the transaction once more for every retry, and returns `FAILED`.
    pub execute_resends :
        (w : Wallet S)
        → let x = execute call o value w in
          (x.0 ≡ failed_with (some (message_of timeout_error)))
          × (length x.1.submitted ≡ length w.submitted + (o.max_retries + 1))
    unfolding execute
    execute_resends w = execute_from_stalls o.max_retries 0 w
