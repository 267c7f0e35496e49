-- ===== src/Encryption/Chain.antt =====
-- What the clients work on: the key registry and the mempool behind ethers, as the parameter `Protocol`,
-- and the world, which is their state and the list of the transactions that were asked to be sent.
use set.Prelude.{ℕ, zero, suc, Bool, false, Option, none, some, List, ◌∷◌, leb, ◌==◌}
use set.Prelude.Text.{Text, codes}
use set.Effects.{Action, ◌>>=◌}
use set.Retry.{Runtime}
use set.Encryption.Cipher.{Crypto}

pub data EncryptedTxStatus : Type 0 where
  pending ordered decrypting decrypted executed failed expired : EncryptedTxStatus

-- The number that a member of the enumeration is.
abbrev pub status_number : EncryptedTxStatus → ℕ
status_number pending = 0
status_number ordered = 1
status_number decrypting = 2
status_number decrypted = 3
status_number executed = 4
status_number failed = 5
status_number expired = 6

-- `EncryptedTxStatus[n]`, or `undefined`.
abbrev pub status_name : ℕ → Option Text
status_name zero = some (codes "Pending")
status_name (suc zero) = some (codes "Ordered")
status_name (suc (suc zero)) = some (codes "Decrypting")
status_name (suc (suc (suc zero))) = some (codes "Decrypted")
status_name (suc (suc (suc (suc zero)))) = some (codes "Executed")
status_name (suc (suc (suc (suc (suc zero))))) = some (codes "Failed")
status_name (suc (suc (suc (suc (suc (suc zero)))))) = some (codes "Expired")
status_name _ = none

-- A JavaScript value that is a natural number: a `number`, or a `bigint`.
pub data Numeric : Type 0 where
  number bigint : ℕ → Numeric

abbrev pub numeric_value : Numeric → ℕ
numeric_value (number n) = n
numeric_value (bigint n) = n

-- `x === s` for a member of the enumeration: a `bigint` is never equal to a `number`.
abbrev pub strictly_equal : Numeric → EncryptedTxStatus → Bool
strictly_equal (number n) s = n == status_number s
strictly_equal (bigint n) s = false

-- `x >= s`, which compares a `bigint` with a `number` by value.
abbrev pub at_least : Numeric → EncryptedTxStatus → Bool
at_least x s = leb (status_number s) (numeric_value x)

pub record ThresholdKey : Type 0 where
  pub epoch : ℕ
  pub aggregated_pub_key : Text
  pub key_commitment : Text
  pub threshold : ℕ
  pub keyper_count : ℕ
  pub activated_at : ℕ
  pub expires_at : ℕ
  pub revoked : Bool

pub record EncryptedTransaction : Type 0 where
  pub id : Text
  pub sender : Text
  pub encrypted_payload : Text
  pub payload_hash : Text
  pub epoch : ℕ
  pub gas_limit : ℕ
  pub max_fee_per_gas : ℕ
  pub value_deposit : ℕ
  pub submitted_at : ℕ
  pub order_position : ℕ
  pub status : Numeric

pub record DecryptedTransaction : Type 0 where
  pub encrypted_id : Text
  pub to : Text
  pub call_data : Text
  pub value : ℕ
  pub decrypted_at : ℕ
  pub executed : Bool
  pub success : Bool

pub record SubmitOptions : Type 0 where
  pub gas_limit : Option ℕ
  pub max_fee_per_gas : Option ℕ
  pub value_deposit : Option ℕ

pub record MempoolStats : Type 0 where
  pub submitted : ℕ
  pub executed : ℕ
  pub failed : ℕ
  pub expired : ℕ

-- `submit` has the payload, the epoch, the gas limit, the fee and the value that is sent along.
pub data Tx : Type 0 where
  submit : Text → ℕ → ℕ → ℕ → ℕ → Tx
  cancel : Text → Tx

-- The topics of a log.
abbrev pub Log : Type 0
Log = List Text

-- Each view is one call to the node; it may fail, and the state may have moved when it answers.
pub record Protocol (E : Type 0) : Type 0 where
  pub runtime : Runtime E
  pub crypto : Crypto E
  pub submitted_topic : Text
  -- key registry
  pub current_epoch : Action E ℕ
  pub get_current_public_key : Action E Text
  pub get_epoch_key : ℕ → Action E ThresholdKey
  pub is_epoch_key_valid : ℕ → Action E Bool
  pub get_active_keypers : Action E (List Text)
  -- mempool
  pub get_encrypted_tx : Text → Action E EncryptedTransaction
  pub get_decrypted_tx : Text → Action E DecryptedTransaction
  pub get_user_pending_txs : Text → Action E (List Text)
  pub get_stats : Action E (ℕ × ℕ × ℕ × ℕ)
  pub get_pending_queue_length : Action E ℕ
  -- sending, and the logs of the receipt that `tx.wait` gives for a hash
  pub send : Tx → Action E Text
  pub wait : Text → Action E (List Log)

-- `sent` has the last transaction first. A call that the node refuses is listed too.
pub record World (E : Type 0) : Type 0 where
  pub env : E
  pub sent : List Tx

module _ {E : Type 0} where
  -- An action of the environment, which sends nothing.
  abbrev pub on_env : {A : Type 0} → Action E A → Action (World E) A
  on_env m w = let (r, e) = m w.env in (r, record w { env = e })

  module _ (c : Protocol E) where
    abbrev pub send_tx : Tx → Action (World E) Text
    send_tx tx w = let (r, e) = c.send tx w.env in (r, record { env = e; sent = tx ∷ w.sent })

    abbrev pub send_and_wait : Tx → Action (World E) (List Log)
    send_and_wait tx = do hash ← send_tx tx; on_env (c.wait hash)

    -- The clock and the timer, on the world.
    abbrev pub world_runtime : Runtime (World E)
    world_runtime = record {
      clock = λ w. c.runtime.clock w.env;
      sleep = λ ms w. record w { env = c.runtime.sleep ms w.env };
      random = λ w. let (n, e) = c.runtime.random w.env in (n, record w { env = e });
    }
