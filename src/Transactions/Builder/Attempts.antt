-- ===== src/Transactions/Builder/Attempts.antt =====
-- What `execute` sends and returns.
use mathlib.Core.List.{append_assoc}
use set.Prelude.{
  ℕ, zero, suc, ◌≤◌, ◌≡◌, refl, ◌⊎◌, inl, inr, true, false, some, List, [], ◌∷◌, ◌++◌, length,
  length-append, ap, ◌∙◌, sym, arith, Bool-cases,
}
use set.Errors.{Thrown, message_of}
use set.Effects.{ok, err, outcome_cases}
use set.Transactions.Builder.Once.{Mined, try_once_ok, try_once_err}
use set.Transactions.Builder.{
  TxStatus, TxResult, TxBuilderOptions, TxOverrides, Call, Wallet, failed_with, is_final, try_once,
  back_off, execute_from, execute,
}

-- Submissions that all carry the same value.
abbrev pub AllCarry : ℕ → List TxOverrides → Type 0
AllCarry value [] = Unit
AllCarry value (t ∷ ts) = (t.value ≡ value) × AllCarry value ts

AllCarry-append :
    (value : ℕ) (ts us : List TxOverrides)
    → AllCarry value ts
    → AllCarry value us
    → AllCarry value (ts ++ us)
AllCarry-append value [] us h k = k
AllCarry-append value (t ∷ ts) us h k = (h.0, AllCarry-append value ts us h.1 k)

module _ {S : Type 0} (call : Call S) (o : TxBuilderOptions S) (value : ℕ) where
  -- What a result of `execute` is after the submissions `ts`: it is `FAILED`, or it is the result of a
  -- receipt for one of them.
  abbrev pub Explained : TxResult → List TxOverrides → Type 0
  Explained result ts =
      (result.status ≡ TxStatus.failed) ⊎ (Mined call o value result × (1 ≤ length ts))

  -- The submissions of a run of at most `n` attempts, with its result.
  abbrev pub Run : ℕ → TxResult → List TxOverrides → List TxOverrides → Type 0
  Run n result before after =
      (ts : List TxOverrides) × (after ≡ ts ++ before)
      × (length ts ≤ n)
      × AllCarry value ts
      × Explained result ts

  stop_after :
      (e : Thrown) (w w' : Wallet S) (n : ℕ)
      → try_once call o value w ≡ (err e, w')
      → Run (suc n) (failed_with (some (message_of e))) w.submitted w'.submitted
  stop_after e w w' n p = elim (try_once_err call o value w w' e p) [
    | inl same ↦ ([], same, omega arith, tt, inl refl)
    | inr (t, out, carry) ↦ (t ∷ [], out, omega arith, (carry, tt), inl refl)
  ]

  end_with :
      (result : TxResult) (w w' : Wallet S) (n : ℕ)
      → try_once call o value w ≡ (ok result, w')
      → Run (suc n) result w.submitted w'.submitted
  end_with result w w' n p = elim (try_once_ok call o value w w' result p) [
    | inl (failed, same) ↦ ([], same, omega arith, tt, inl failed)
    | inr ((t, out, carry), mined) ↦
        (t ∷ [], out, omega arith, (carry, tt), inr (mined, omega arith))
  ]

  more :
      {result : TxResult} (t : TxOverrides) (ts : List TxOverrides)
      → Explained result ts
      → Explained result (ts ++ t ∷ [])
  more t ts (inl failed) = inl failed
  more t ts (inr (mined, some_sent)) =
      inr (mined, omega (arith, some_sent, length-append ts (t ∷ [])))

  go_on :
      (e : Thrown) (w w' v : Wallet S) (result : TxResult) (n : ℕ)
      → try_once call o value w ≡ (err e, w')
      → Run n result w'.submitted v.submitted
      → Run (suc n) result w.submitted v.submitted
  go_on e w w' v result n p (ts, out, few, all, why) = elim (try_once_err call o value w w' e p) [
    | inl same ↦
        (ts, out ∙ ap (λ (l : List TxOverrides). ts ++ l) same, omega (arith, few), all, why)
    | inr (t, sent, carry) ↦ (
      ts ++ t ∷ [],
      out
          ∙ ap (λ (l : List TxOverrides). ts ++ l) sent
          ∙ sym (append_assoc ts (t ∷ []) w.submitted),
      omega (arith, few, length-append ts (t ∷ [])),
      AllCarry-append value ts _ all (carry, tt),
      more t ts why,
    )
  ]

  pub execute_step_end :
      (n attempt : ℕ) (w w' : Wallet S) {r : TxResult}
      → try_once call o value w ≡ (ok r, w')
      → execute_from call o n attempt value w ≡ (r, w')
  unfolding execute_from
  execute_step_end zero attempt w w' p = ground arith
  execute_step_end (suc n) attempt w w' p = ground arith

  pub execute_step_last :
      (attempt : ℕ) (w w' : Wallet S) {e : Thrown}
      → try_once call o value w ≡ (err e, w')
      → execute_from call o 0 attempt value w ≡ (failed_with (some (message_of e)), w')
  unfolding execute_from
  execute_step_last attempt w w' p = ground arith

  pub execute_step_stop :
      (n attempt : ℕ) (w w' : Wallet S) {e : Thrown}
      → try_once call o value w ≡ (err e, w')
      → is_final (message_of e) ≡ true
      → execute_from call o n attempt value w ≡ (failed_with (some (message_of e)), w')
  unfolding execute_from
  execute_step_stop zero attempt w w' p b = ground arith
  execute_step_stop (suc n) attempt w w' p b = ground arith

  pub execute_step_again :
      (n attempt : ℕ) (w w' : Wallet S) {e : Thrown}
      → try_once call o value w ≡ (err e, w')
      → is_final (message_of e) ≡ false
      → execute_from call o (suc n) attempt value w
        ≡ execute_from call o n (suc attempt) value (back_off call o attempt w')
  unfolding execute_from
  execute_step_again n attempt w w' p b = ground arith

  execute_from-Run :
      (n attempt : ℕ) (w : Wallet S)
      → let x = execute_from call o n attempt value w in Run (suc n) x.0 w.submitted x.1.submitted
  execute_from-Run zero attempt w = elim (outcome_cases (try_once call o value w)) [
    | inl (r, w', p) ↦ rw (execute_step_end 0 attempt w w' p) (end_with r w w' 0 p)
    | inr (e, w', p) ↦ rw (execute_step_last attempt w w' p) (stop_after e w w' 0 p)
  ]
  execute_from-Run (suc n) attempt w =
      let rest : Wallet S → TxResult × Wallet S =
        λ w'. execute_from call o n (suc attempt) value (back_off call o attempt w') in
      elim (outcome_cases (try_once call o value w)) [
        | inl (r, w', p) ↦ rw (execute_step_end (suc n) attempt w w' p) (end_with r w w' (suc n) p)
        | inr (e, w', p) ↦ elim (Bool-cases (is_final (message_of e))) [
          | inl b ↦ rw (execute_step_stop (suc n) attempt w w' p b) (stop_after e w w' (suc n) p)
          | inr b ↦ rw (execute_step_again n attempt w w' p b) (
              go_on e w w' (rest w').1 (rest w').0 (suc n) p
                (execute_from-Run n (suc attempt) (back_off call o attempt w')))
        ]
      ]

  -- `execute` always returns. It sends at most one transaction more than there are retries, all with
  -- the value given; and it returns `FAILED`, or the result of a receipt that the node gave after at
  -- least one of them was sent, with its hash and cost, which is `REVERTED` if that receipt's status is 0, and
  -- else `CONFIRMED`.
  pub execute-Run :
      (w : Wallet S)
      → let x = execute call o value w in Run (suc o.max_retries) x.0 w.submitted x.1.submitted
  unfolding execute
  execute-Run w = execute_from-Run o.max_retries 0 w
