-- ===== src/Encryption/Cipher.antt =====
-- `ThresholdEncryption`. Bytes are natural numbers below 256. ethers (`AbiCoder`, `keccak256`, `concat`,
-- `hexlify`, `randomBytes`) and Node's `Buffer.from(…, "hex")` are the parameter `Crypto`. Amounts of
-- wei are natural numbers: ethers refuses to encode others.
use Prim.Native.Nat.{bit_xor}
use set.Prelude.{
  ℕ, zero, suc, ◌%◌, Bool, false, not, Option, none, some, List, [], ◌∷◌, ◌++◌, length, leb,
}
use set.Prelude.Text.{Text, codes, text_eq}
use set.Errors.{Thrown, error}
use set.Effects.{Result, ok, Action, pure, throw_if, lift, ◌>>=◌, ◌>>◌}
use set.Transactions.Batches.{take, drop}

pub record TransactionParams : Type 0 where
  pub to : Text
  pub call_data : Text
  pub value : ℕ

-- `encode` is the ABI encoding as bytes; `bytes_of` is what `concat` reads of a hex string; `hexlify` and
-- `from_hex` go from bytes to hex and back.
pub record Crypto (S : Type 0) : Type 0 where
  pub allow_insecure : Option Text
  pub encode : TransactionParams → Result (List ℕ)
  pub bytes_of : Text → Result (List ℕ)
  pub random_bytes : ℕ → S → List ℕ × S
  pub keccak256 : List ℕ → List ℕ
  pub hexlify : List ℕ → Text
  pub from_hex : Text → List ℕ

-- `bytes[i]`, for an index that is in range.
abbrev pub byte_at : List ℕ → ℕ → ℕ
byte_at [] i = 0
byte_at (b ∷ bs) zero = b
byte_at (b ∷ bs) (suc i) = byte_at bs i

-- The loop: `ciphertext[i] = plaintext[i] ^ keyBytes[i % keyBytes.length]`, from the index `i`.
unfoldable pub xor_from : List ℕ → ℕ → List ℕ → List ℕ
xor_from key i [] = []
xor_from key i (b ∷ bs) = bit_xor b (byte_at key (i % length key)) ∷ xor_from key (suc i) bs

abbrev pub is_true : Option Text → Bool
is_true none = false
is_true (some t) = text_eq t (codes "true")

abbrev pub encryption_disabled : Thrown
encryption_disabled = error (
    codes "ThresholdEncryption.encrypt is disabled because the bundled fallback is insecure. "
    ++ (codes "Integrate a real threshold encryption backend or set "
        ++ codes "SET_SDK_ALLOW_INSECURE_ENCRYPTION=true for non-production demos."))

module _ {S : Type 0} (crypto : Crypto S) where
  abbrev pub draw : ℕ → Action S (List ℕ)
  draw n s = let (bytes, s') = crypto.random_bytes n s in (ok bytes, s')

  unfoldable pub encrypt : TransactionParams → Text → Action S Text
  unfolding xor_from
  encrypt params public_key = do
    throw_if (not (is_true crypto.allow_insecure)) encryption_disabled
    plaintext ← lift (crypto.encode params)
    nonce ← draw 32
    key ← lift (crypto.bytes_of public_key)
    let ciphertext = xor_from (crypto.keccak256 (key ++ nonce)) 0 plaintext
    pure (crypto.hexlify (nonce ++ ciphertext))

  -- `payload.slice(2)` and `payload.slice(0, 66)`
  unfoldable pub verify : Text → Bool
  verify payload = leb 64 (length (crypto.from_hex (drop 2 payload)))

unfoldable pub extract_nonce : Text → Text
extract_nonce payload = take 66 payload
