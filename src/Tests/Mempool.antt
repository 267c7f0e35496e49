-- ===== src/Tests/Mempool.antt =====
-- Encrypted transactions, with ciphers and contracts that answer.
use set.Prelude.{
  ℕ, ◌+◌, ◌≡◌, ◌⊎◌, refl, true, false, none, some, List, [], ◌∷◌, ◌++◌, leb, ltb, ◌-◌, ◌*◌, ◌/◌,
  ◌%◌, ◌<◌, if◌then◌else◌, arith,
}
use set.Prelude.Text.{Text, codes}
use set.Errors.{Thrown}
use set.Effects.{Result, ok, err}
use set.Encryption.Cipher.{TransactionParams, Crypto, is_true, encrypt, verify}
use set.Encryption.Chain.{
  EncryptedTxStatus, bigint, EncryptedTransaction, DecryptedTransaction, ThresholdKey,
  SubmitOptions, Protocol, World,
}
use set.Encryption.Clients.{submit_encrypted_transaction, wait_for_status, status_timeout}
use set.Encryption.Recovery.{IsBytes, recover, encrypt-recover}
use set.Encryption.Submission.{Submits, submit_trace}
use set.Encryption.Waiting.{wait_for_status_never_returns}
use set.Tests.Fixture.{sample_runtime, answer, agent_addr, merchant_addr, bytes}

abbrev nonce : List ℕ
nonce =
    1 ∷ 2 ∷ 3 ∷ 4 ∷ 5 ∷ 6 ∷ 7 ∷ 8 ∷ 9 ∷ 10 ∷ 11 ∷ 12 ∷ 13 ∷ 14 ∷ 15 ∷ 16 ∷ 17 ∷ 18 ∷ 19 ∷ 20 ∷ 21
    ∷ 22 ∷ 23 ∷ 24 ∷ 25 ∷ 26 ∷ 27 ∷ 28 ∷ 29 ∷ 30 ∷ 31 ∷ 32 ∷ []

abbrev hex_digit : ℕ → ℕ
hex_digit d = if ltb d 10 then b'0' + d else 87 + d

abbrev digit_value : ℕ → ℕ
digit_value c = if leb b'a' c then c - 87 else c - b'0'

abbrev to_hex : List ℕ → Text
to_hex [] = []
to_hex (b ∷ bs) = hex_digit (b / 16) ∷ hex_digit (b % 16) ∷ to_hex bs

abbrev read_hex : Text → List ℕ
read_hex (a ∷ b ∷ s) = (digit_value a * 16 + digit_value b) ∷ read_hex s
read_hex _ = []

digit_back : (d : ℕ) → d < 16 → digit_value (hex_digit d) ≡ d
digit_back d h = ground arith

byte_back :
    (b : ℕ) → b < 256 → digit_value (hex_digit (b / 16)) * 16 + digit_value (hex_digit (b % 16)) ≡ b
byte_back b h =
    rw (digit_back (b / 16) (omega arith), digit_back (b % 16) (omega arith)) (omega arith)

read_hex-to_hex : (bs : List ℕ) → IsBytes bs → read_hex (to_hex bs) ≡ bs
read_hex-to_hex [] h = refl
read_hex-to_hex (b ∷ bs) h = rw (byte_back b h.0, read_hex-to_hex bs h.1) refl

abbrev sample_crypto : Crypto ℕ
sample_crypto = record {
  allow_insecure = some (codes "true");
  encode = λ params. ok (200 ∷ 17 ∷ 0 ∷ []);
  bytes_of = λ key. ok (9 ∷ []);
  random_bytes = λ n s. (nonce, s + 1);
  keccak256 = λ bs. 77 ∷ 255 ∷ [];
  hexlify = λ bs. b'0' ∷ b'x' ∷ to_hex bs;
  from_hex = read_hex;
}

abbrev sample_params : TransactionParams
sample_params = record { to = merchant_addr; call_data = codes "0x"; value = 5 }

abbrev sample_payload : Text
sample_payload = b'0' ∷ b'x' ∷ to_hex (nonce ++ (133 ∷ 238 ∷ 77 ∷ []))

encrypted : encrypt sample_crypto sample_params (codes "0x09") 0 ≡ (ok sample_payload, 1)
unfolding encrypt
encrypted = refl

encrypt-recover_example :
    (is_true (some (codes "true")) ≡ true)
    × (recover sample_crypto (9 ∷ []) sample_payload ≡ 200 ∷ 17 ∷ 0 ∷ [])
    × (verify sample_crypto sample_payload ≡ leb 32 3)
encrypt-recover_example =
    encrypt-recover sample_crypto sample_params (codes "0x09") 0 1 sample_payload
      (200 ∷ 17 ∷ 0 ∷ []) (9 ∷ []) encrypted refl refl (omega arith) (omega arith)
      (λ bs h. omega arith) (omega arith) refl read_hex-to_hex

abbrev sample_etx : Text → ℕ → EncryptedTransaction
sample_etx id n = record {
  id = id;
  sender = agent_addr;
  encrypted_payload = codes "0x";
  payload_hash = bytes;
  epoch = 3;
  gas_limit = 200000;
  max_fee_per_gas = 1000000000;
  value_deposit = 5;
  submitted_at = 10;
  order_position = 1;
  status = bigint n;
}

abbrev sample_dtx : Text → DecryptedTransaction
sample_dtx id = record {
  encrypted_id = id;
  to = merchant_addr;
  call_data = codes "0x";
  value = 5;
  decrypted_at = 20;
  executed = true;
  success = true;
}

abbrev sample_key : ℕ → ThresholdKey
sample_key epoch = record {
  epoch = epoch;
  aggregated_pub_key = codes "0x09";
  key_commitment = bytes;
  threshold = 2;
  keyper_count = 3;
  activated_at = 0;
  expires_at = 1000;
  revoked = false;
}

-- Every transaction is executed: its status is 4.
abbrev sample_mempool : Protocol ℕ
sample_mempool = record {
  runtime = sample_runtime;
  crypto = sample_crypto;
  submitted_topic = codes "topic";
  current_epoch = answer 3;
  get_current_public_key = answer (codes "0x09");
  get_epoch_key = λ epoch. answer (sample_key epoch);
  is_epoch_key_valid = λ epoch. answer true;
  get_active_keypers = answer [];
  get_encrypted_tx = λ id. answer (sample_etx id 4);
  get_decrypted_tx = λ id. answer (sample_dtx id);
  get_user_pending_txs = λ user. answer [];
  get_stats = answer (1, 1, 0, 0);
  get_pending_queue_length = answer 0;
  send = λ tx s. (ok (codes "0xhash"), s + 1);
  wait = λ hash s. (ok ((codes "topic" ∷ codes "0xid" ∷ []) ∷ []), s + 1);
}

abbrev at_start : World ℕ
at_start = record { env = 0; sent = [] }

abbrev defaults : SubmitOptions
defaults = record { gas_limit = none; max_fee_per_gas = none; value_deposit = none }

submit_trace_example :
    let sent' =
      (submit_encrypted_transaction sample_mempool sample_params defaults at_start).1.sent in
    (sent' ≡ []) ⊎ Submits sample_mempool sample_params defaults at_start sent'
submit_trace_example = submit_trace sample_mempool sample_params defaults at_start

abbrev timed_out : Thrown
timed_out = status_timeout (codes "0xid") EncryptedTxStatus.executed

waited :
    wait_for_status sample_mempool (codes "0xid") EncryptedTxStatus.executed 5000 2000 at_start
    ≡ some (err timed_out, record { env = 6000; sent = [] })
unfolding wait_for_status
waited = refl

decoded :
    (x y : ℕ) (tx : EncryptedTransaction)
    → sample_mempool.get_encrypted_tx (codes "0xid") x ≡ (ok tx, y)
    → (n : ℕ) × (tx.status ≡ bigint n)
decoded x y tx h = (4, ground arith)

wait_for_status_never_returns_example :
    (e : Thrown) × (◌≡◌ {A = Result EncryptedTransaction} (err timed_out) (err e))
    × ((e ≡ timed_out) ⊎ ((x y : ℕ) × (answer (sample_etx (codes "0xid") 4) x ≡ (err e, y))))
wait_for_status_never_returns_example =
    wait_for_status_never_returns sample_mempool (codes "0xid") EncryptedTxStatus.executed decoded
      5000 2000 at_start (record { env = 6000; sent = [] }) (err timed_out) waited
