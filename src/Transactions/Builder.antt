-- ===== src/Transactions/Builder.antt =====
-- `TransactionBuilder`. The node and the contract's method, with its arguments and its value, are the
-- parameter `Call`; the race of `tx.wait` against the timeout is one action of it. What
-- `onStatusChange` does is part of the environment, and it does not throw.
pub mod Once
pub mod Attempts
pub mod Timeouts
use set.Prelude.{
  ℕ, zero, suc, ◌+◌, ◌*◌, ◌^◌, Bool, true, false, not, ◌||◌, Option, none, some, List, ◌∷◌, ◌++◌,
  ltb, ◌==◌, if◌then◌else◌,
}
use set.Prelude.Text.{Text, codes, includes}
use set.Errors.{Thrown, message_of}
use set.Effects.{Result, ok, err, Action, pure, when, ◌>>=◌, ◌>>◌}

pub data TxStatus : Type 0 where
  pending simulating estimating_gas sending confirming confirmed failed reverted : TxStatus

-- The fields of ethers' receipt that are read.
pub record TransactionReceipt : Type 0 where
  pub status : ℕ
  pub gas_used : ℕ
  pub gas_price : ℕ
  pub block_number : ℕ

-- `gasUsed`, `gasPrice` and `blockNumber` are copies of the receipt's.
pub record TxResult : Type 0 where
  pub status : TxStatus
  pub hash : Option Text
  pub receipt : Option TransactionReceipt
  pub error : Option Text
  pub total_cost : Option ℕ
  pub confirmations : Option ℕ

-- A multiplier `m` is given by what `BigInt(Math.ceil(Number(x) * m))` makes of `x`.
pub record TxBuilderOptions (S : Type 0) : Type 0 where
  pub max_retries : ℕ
  pub base_delay_ms : ℕ
  pub max_delay_ms : ℕ
  pub gas_price_multiplied : ℕ → ℕ
  pub gas_limit_multiplied : ℕ → ℕ
  pub confirmations : ℕ
  pub confirmation_timeout_ms : ℕ
  pub simulate : Bool
  pub on_status_change : TxStatus → S → S

pub record TxOverrides : Type 0 where
  pub value : ℕ
  pub gas_limit : ℕ
  pub gas_price : ℕ

pub record Call (S : Type 0) : Type 0 where
  pub static_call : ℕ → Action S (Unit {0})
  pub gas_price : Action S (Option ℕ)
  pub estimate_gas : ℕ → Action S ℕ
  pub send : TxOverrides → Action S Text
  pub wait_or_timeout : Text → ℕ → ℕ → Action S TransactionReceipt
  pub sleep : ℕ → S → S

-- The environment, and what was sent to the node, the last first.
pub record Wallet (S : Type 0) : Type 0 where
  pub env : S
  pub submitted : List TxOverrides

abbrev pub get_backoff_delay : ℕ → ℕ → ℕ → ℕ
get_backoff_delay attempt base_ms max_ms =
    let delay = base_ms * 2 ^ attempt in if ltb delay max_ms then delay else max_ms

-- `x || BigInt(0)`
abbrev pub or_zero : Option ℕ → ℕ
or_zero none = 0
or_zero (some n) = n

abbrev pub failed_with : Option Text → TxResult
failed_with e = record {
  status = TxStatus.failed;
  hash = none;
  receipt = none;
  error = e;
  total_cost = none;
  confirmations = none;
}

-- The result for a receipt: `REVERTED` if its status is 0, else `CONFIRMED`.
unfoldable pub result_of : Text → ℕ → TransactionReceipt → TxResult
result_of hash confirmations r = record {
  status = (if r.status == 0 then TxStatus.reverted else TxStatus.confirmed);
  hash = some hash;
  receipt = some r;
  error = none;
  total_cost = some (r.gas_used * r.gas_price);
  confirmations = (if r.status == 0 then none else some confirmations);
}

-- The errors after which `execute` does not try again.
unfoldable pub is_final : Text → Bool
is_final m = includes m (codes "Simulation failed") || includes m (codes "user rejected")

module _ {S : Type 0} (call : Call S) (o : TxBuilderOptions S) where
  abbrev pub in_env : {A : Type 0} → Action S A → Action (Wallet S) A
  in_env m w = let (r, s) = m w.env in (r, record w { env = s })

  abbrev pub update_status : TxStatus → Action (Wallet S) (Unit {0})
  update_status status w = (ok tt, record w { env = o.on_status_change status w.env })

  abbrev pub submit : TxOverrides → Action (Wallet S) Text
  submit t w =
      let (r, s) = call.send t w.env in (r, record { env = s; submitted = t ∷ w.submitted })

  unfoldable pub estimate_tx_gas : ℕ → Action (Wallet S) (ℕ × ℕ × ℕ)
  estimate_tx_gas value = do
    update_status TxStatus.estimating_gas
    price ← in_env call.gas_price
    estimate ← in_env (call.estimate_gas value)
    let gas_limit = o.gas_limit_multiplied estimate
    let adjusted = o.gas_price_multiplied (or_zero price)
    pure (gas_limit, adjusted, gas_limit * adjusted + value)

  -- `none` for a success, else the error's message.
  unfoldable pub simulate : ℕ → Action (Wallet S) (Option Text)
  simulate value w =
      let (r, s) = call.static_call value (o.on_status_change TxStatus.simulating w.env) in
      let w' = record w { env = s } in
      elim r [ ok _ ↦ (ok none, w') | err e ↦ (ok (some (message_of e)), w') ]

  -- From the estimate of the gas to the result, in the `try` of `execute`.
  unfoldable pub send_and_wait : ℕ → Action (Wallet S) TxResult
  unfolding estimate_tx_gas
  send_and_wait value = do
    (gas_limit, gas_price, _) ← estimate_tx_gas value
    update_status TxStatus.sending
    hash ← submit (record { value = value; gas_limit = gas_limit; gas_price = gas_price })
    update_status TxStatus.confirming
    receipt ← in_env (call.wait_or_timeout hash o.confirmations o.confirmation_timeout_ms)
    when (not (receipt.status == 0)) (update_status TxStatus.confirmed)
    pure (result_of hash o.confirmations receipt)

  -- The body of the `try`: a failed simulation is a result.
  unfoldable pub try_once : ℕ → Action (Wallet S) TxResult
  unfolding simulate send_and_wait
  try_once value = elim o.simulate [
    | false ↦ send_and_wait value
    | true ↦ simulate value >>= λ e. elim e [
      | none ↦ send_and_wait value
      | some m ↦ pure (failed_with (some (codes "Simulation failed: " ++ m)))
    ]
  ]

  -- The status and the sleep before attempt `attempt + 1`.
  abbrev pub back_off : ℕ → Wallet S → Wallet S
  back_off attempt w = record w {
    env =
        call.sleep (get_backoff_delay attempt o.base_delay_ms o.max_delay_ms)
          (o.on_status_change TxStatus.pending w.env);
  }

  -- The loop, on the attempts that are left after this one.
  unfoldable pub execute_from : ℕ → ℕ → ℕ → Wallet S → TxResult × Wallet S
  execute_from zero attempt value w =
      let (r, w') = try_once value w in
      elim r [ ok result ↦ (result, w') | err e ↦ (failed_with (some (message_of e)), w') ]
  execute_from (suc left) attempt value w =
      let (r, w') = try_once value w in
      elim r [
        | ok result ↦ (result, w')
        | err e ↦
            let again = execute_from left (suc attempt) value (back_off attempt w') in
            if is_final (message_of e) then (failed_with (some (message_of e)), w') else again
      ]

  -- `execute` never throws. `maxRetries` is a natural number.
  unfoldable pub execute : ℕ → Wallet S → TxResult × Wallet S
  unfolding execute_from
  execute value w = execute_from o.max_retries 0 value w
