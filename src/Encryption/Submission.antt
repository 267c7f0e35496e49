-- ===== src/Encryption/Submission.antt =====
-- What `submitEncryptedTransaction` sends.
use set.Prelude.{ℕ, ◌+◌, ◌*◌, ◌≤◌, ◌≡◌, ◌⊎◌, inl, inr, true, List, ◌∷◌, arith, Bool-cases, ltb}
use set.Prelude.Text.{Text}
use set.Effects.{ok, outcome_cases}
use set.Encryption.Cipher.{TransactionParams, encrypt, is_true}
use set.Encryption.Chain.{SubmitOptions, Tx, Protocol, World}
use set.Encryption.Clients.{
  nullish, default_gas_limit, default_max_fee, get_current_epoch, get_current_public_key,
  submit_encrypted_transaction,
}

abbrev pub gas_limit_of : SubmitOptions → ℕ
gas_limit_of options = nullish options.gas_limit default_gas_limit

abbrev pub max_fee_of : SubmitOptions → ℕ
max_fee_of options = nullish options.max_fee_per_gas default_max_fee

abbrev pub deposit_of : TransactionParams → SubmitOptions → ℕ
deposit_of params options = nullish options.value_deposit params.value

module _ {E : Type 0} (c : Protocol E) (params : TransactionParams) (options : SubmitOptions) where
  -- What was found before the one transaction, and what that is.
  pub record Submits (w : World E) (sent' : List Tx) : Type 0 where
    pub epoch : ℕ
    pub public_key : Text
    pub payload : Text
    pub u : E
    pub v : E
    pub x : E
    pub epoch_read : c.current_epoch w.env ≡ (ok epoch, u)
    pub key_read : c.get_current_public_key u ≡ (ok public_key, v)
    pub payload_made : encrypt c.crypto params public_key v ≡ (ok payload, x)
    pub allowed : is_true c.crypto.allow_insecure ≡ true
    pub covered : params.value ≤ deposit_of params options
    pub one :
        sent'
        ≡ Tx.submit payload epoch
            (gas_limit_of options)
            (max_fee_of options)
            (gas_limit_of options * max_fee_of options + deposit_of params options)
          ∷ w.sent

  encrypt_allowed :
      (public_key : Text) (s t : E) (payload : Text)
      → encrypt c.crypto params public_key s ≡ (ok payload, t)
      → is_true c.crypto.allow_insecure ≡ true
  unfolding encrypt
  encrypt_allowed public_key s t payload h = elim (Bool-cases (is_true c.crypto.allow_insecure)) [
    | inl y ↦ y
    | inr n ↦ absurd (ground arith)
  ]

  -- A submission sends nothing; or the insecure cipher is allowed, the epoch and its key were read, the
  -- parameters were encrypted with that key, and the deposit is at least the value, and then it sends one
  -- transaction: that payload for that epoch, with the gas limit and the fee asked for or their
  -- defaults, and with a value of the gas limit times the fee and the deposit.
  pub submit_trace :
      (w : World E)
      → let sent' = (submit_encrypted_transaction c params options w).1.sent in
        (sent' ≡ w.sent) ⊎ Submits w sent'
  unfolding submit_encrypted_transaction get_current_epoch get_current_public_key
  submit_trace w = elim (outcome_cases (c.current_epoch w.env)) [
    | inr (e, u, p) ↦ inl (ground arith)
    | inl (epoch, u, p) ↦ elim (outcome_cases (c.get_current_public_key u)) [
      | inr (e, v, q) ↦ inl (ground arith)
      | inl (public_key, v, q) ↦ elim (outcome_cases (encrypt c.crypto params public_key v)) [
        | inr (e, x, r) ↦ inl (ground arith)
        | inl (payload, x, r) ↦ elim (Bool-cases (ltb (deposit_of params options) params.value)) [
          | inl low ↦ inl (ground arith)
          | inr enough ↦ inr (record {
            epoch = epoch;
            public_key = public_key;
            payload = payload;
            u = u;
            v = v;
            x = x;
            epoch_read = p;
            key_read = q;
            payload_made = r;
            allowed = encrypt_allowed public_key v x payload r;
            covered = ground arith;
            one = ground arith;
          })
        ]
      ]
    ]
  ]
