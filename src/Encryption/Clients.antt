-- ===== src/Encryption/Clients.antt =====
-- `ThresholdKeyRegistryClient`, `EncryptedMempoolClient` and `MEVProtectionClient`.
use set.Prelude.{
  ℕ, ◌+◌, ◌*◌, ◌/◌, Bool, true, false, not, ◌&&◌, ◌||◌, Option, none, some, List, [], ◌∷◌, ◌++◌,
  ltb, if◌then◌else◌,
}
use set.Prelude.Text.{Text, codes, text_eq}
use set.Errors.{Thrown, error}
use set.Effects.{Result, ok, err, Action, pure, throw_if, lift, ◌>>=◌, ◌>>◌}
use set.Polling.{poll}
use set.Encryption.Cipher.{TransactionParams, encrypt}
use set.Encryption.Chain.{
  EncryptedTxStatus, status_number, status_name, numeric_value, strictly_equal, at_least,
  ThresholdKey, EncryptedTransaction, DecryptedTransaction, SubmitOptions, MempoolStats, Tx, Log,
  Protocol, World, on_env, send_and_wait, world_runtime,
}

-- `a ?? b`
abbrev pub nullish : Option ℕ → ℕ → ℕ
nullish none b = b
nullish (some a) b = a

abbrev pub default_gas_limit : ℕ
default_gas_limit = 200000

abbrev pub default_max_fee : ℕ
default_max_fee = 1000000000

abbrev pub name_text : Option Text → Text
name_text none = codes "undefined"
name_text (some t) = t

abbrev pub status_timeout : Text → EncryptedTxStatus → Thrown
status_timeout tx_id target = error (
    codes "Timeout waiting for transaction "
    ++ (tx_id ++ (codes " to reach status " ++ name_text (status_name (status_number target)))))

-- The first log of the topic.
unfoldable pub find_submitted : Text → List Log → Option Log
find_submitted topic [] = none
find_submitted topic ([] ∷ logs) = find_submitted topic logs
find_submitted topic ((t ∷ ts) ∷ logs) =
    if text_eq t topic then some (t ∷ ts) else find_submitted topic logs

-- `event.topics[1]`, which is `undefined` if there is none.
abbrev pub second_topic : Log → Option Text
second_topic (t ∷ (u ∷ ts)) = some u
second_topic _ = none

-- `event ? event.topics[1] : throw`
abbrev pub event_id : Option Log → Result (Option Text)
event_id none = err (error (codes "Failed to extract transaction ID from event"))
event_id (some log) = ok (second_topic log)

module _ {E : Type 0} (c : Protocol E) where
  unfoldable pub get_current_epoch : Action (World E) ℕ
  get_current_epoch = on_env c.current_epoch

  unfoldable pub get_current_public_key : Action (World E) Text
  get_current_public_key = on_env c.get_current_public_key

  unfoldable pub get_epoch_key : ℕ → Action (World E) ThresholdKey
  get_epoch_key epoch = on_env (c.get_epoch_key epoch)

  unfoldable pub is_epoch_key_valid : ℕ → Action (World E) Bool
  is_epoch_key_valid epoch = on_env (c.is_epoch_key_valid epoch)

  unfoldable pub get_active_keypers : Action (World E) (List Text)
  get_active_keypers = on_env c.get_active_keypers

  unfoldable pub submit_encrypted_transaction :
      TransactionParams → SubmitOptions → Action (World E) (Option Text)
  unfolding get_current_epoch get_current_public_key find_submitted
  submit_encrypted_transaction params options = do
    epoch ← get_current_epoch
    public_key ← get_current_public_key
    payload ← on_env (encrypt c.crypto params public_key)
    let gas_limit = nullish options.gas_limit default_gas_limit
    let max_fee = nullish options.max_fee_per_gas default_max_fee
    let deposit = nullish options.value_deposit params.value
    throw_if (ltb deposit params.value) (error (codes "valueDeposit must be >= txParams.value"))
    logs ←
        send_and_wait c (Tx.submit payload epoch gas_limit max_fee (gas_limit * max_fee + deposit))
    lift (event_id (find_submitted c.submitted_topic logs))

  unfoldable pub cancel_encrypted : Text → Action (World E) (Unit {0})
  cancel_encrypted tx_id = do send_and_wait c (Tx.cancel tx_id); pure tt

  unfoldable pub get_transaction : Text → Action (World E) EncryptedTransaction
  get_transaction tx_id = on_env (c.get_encrypted_tx tx_id)

  unfoldable pub get_decrypted_transaction : Text → Action (World E) DecryptedTransaction
  get_decrypted_transaction tx_id = on_env (c.get_decrypted_tx tx_id)

  -- A round of `waitForStatus`.
  unfoldable pub status_round :
      Text → EncryptedTxStatus → Action (World E) (Option EncryptedTransaction)
  unfolding get_transaction
  status_round tx_id target = do
    tx ← get_transaction tx_id
    throw_if
        (not (strictly_equal tx.status target)
          && (strictly_equal tx.status EncryptedTxStatus.failed
              || strictly_equal tx.status EncryptedTxStatus.expired))
        (error (
          codes "Transaction "
          ++ (tx_id
              ++ (codes " reached terminal status: "
                  ++ name_text (status_name (numeric_value tx.status))))))
    pure (if strictly_equal tx.status target then some tx else none)

  unfoldable pub wait_for_status :
      Text → EncryptedTxStatus → ℕ → ℕ → World E → Option (Result EncryptedTransaction × World E)
  unfolding status_round poll
  wait_for_status tx_id target timeout poll_interval =
      poll (world_runtime c) (status_round tx_id target) poll_interval timeout
        (status_timeout tx_id target)

  unfoldable pub get_user_pending_transactions : Text → Action (World E) (List Text)
  get_user_pending_transactions user = on_env (c.get_user_pending_txs user)

  unfoldable pub get_stats : Action (World E) MempoolStats
  get_stats = do
    (submitted, executed, failed, expired) ← on_env c.get_stats
    pure (record { submitted = submitted; executed = executed; failed = failed; expired = expired })

  unfoldable pub get_pending_queue_length : Action (World E) ℕ
  get_pending_queue_length = on_env c.get_pending_queue_length

-- What `getStatus` and `getTransactionStatus` return.
pub record ProtectionStatus : Type 0 where
  pub available : Bool
  pub epoch : ℕ
  pub threshold : ℕ
  pub keyper_count : ℕ
  pub expires_at : ℕ

pub record TransactionStatus : Type 0 where
  pub status : Option Text
  pub executed : Bool
  pub success : Bool

-- `dtx?.executed ?? false`
abbrev pub or_false : Option DecryptedTransaction → (DecryptedTransaction → Bool) → Bool
or_false none f = false
or_false (some dtx) f = f dtx

module _ {E : Type 0} (c : Protocol E) where
  -- Errors count as not available.
  unfoldable pub is_available : World E → Bool × World E
  unfolding get_current_epoch is_epoch_key_valid
  is_available w =
      let (r, w') = (get_current_epoch c >>= is_epoch_key_valid c) w in
      elim r [ ok valid ↦ (valid, w') | err e ↦ (false, w') ]

  unfoldable pub get_status : Action (World E) ProtectionStatus
  unfolding get_current_epoch get_epoch_key
  get_status = do
    epoch ← get_current_epoch c
    key ← get_epoch_key c epoch
    now ← λ w. (ok (c.runtime.clock w.env / 1000), w)
    pure (record {
      available = not key.revoked && ltb now key.expires_at;
      epoch = key.epoch;
      threshold = key.threshold;
      keyper_count = key.keyper_count;
      expires_at = key.expires_at;
    })

  -- The two halves of `submit`: the transaction's id, and the function that waits for its execution.
  unfoldable pub submit_protected : Text → Text → ℕ → SubmitOptions → Action (World E) (Option Text)
  unfolding submit_encrypted_transaction
  submit_protected to call_data value options =
      submit_encrypted_transaction c (record { to = to; call_data = call_data; value = value })
        options

  unfoldable pub wait_for_execution : Text → World E → Option (Result (Bool × Text) × World E)
  unfolding wait_for_status get_decrypted_transaction
  wait_for_execution tx_id w =
      elim (wait_for_status c tx_id EncryptedTxStatus.executed 120000 2000 w) [
        | none ↦ none
        | some (r, u) ↦ elim r [
          | err e ↦ some (err e, u)
          | ok tx ↦
              some
                ((get_decrypted_transaction c tx_id >>= λ dtx. pure (dtx.success, dtx.call_data)) u)
        ]
      ]

  unfoldable pub get_transaction_status : Text → Action (World E) TransactionStatus
  unfolding get_transaction get_decrypted_transaction
  get_transaction_status tx_id = do
    etx ← get_transaction c tx_id
    dtx ← elim (at_least etx.status EncryptedTxStatus.decrypted) [
      | false ↦ pure none
      | true ↦ get_decrypted_transaction c tx_id >>= λ d. pure (some d)
    ]
    pure (record {
      status = status_name (numeric_value etx.status);
      executed = or_false dtx (λ d. d.executed);
      success = or_false dtx (λ d. d.success);
    })
