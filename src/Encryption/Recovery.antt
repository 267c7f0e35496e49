-- ===== src/Encryption/Recovery.antt =====
-- The fallback cipher gives its plaintext back to everybody who knows the public key.
use Prim.Native.Nat.{bit_xor}
use set.Prelude.{
  if◌then◌else◌, false, ℕ, zero, suc, ◌<◌, ◌≡◌, refl, Bool, true, List, [], ◌∷◌, ◌++◌, length,
  arith, ◌==◌, ==_iff, ap, ltb, ◌&&◌, leb, inl, inr, ◌%◌, length-append, Bool-cases,
}
use set.Prelude.Text.{Text}
use set.Effects.{ok}
use set.Transactions.Batches.{take, drop}
use set.Encryption.Cipher.{TransactionParams, Crypto, byte_at, xor_from, is_true, encrypt, verify}

-- A key byte gives bytes and undoes itself on the bytes below `n`, which is tested from the greatest one
-- down.
undoes : ℕ → ℕ → Bool
undoes key zero = true
undoes key (suc n) =
    if bit_xor (bit_xor n key) key == n && ltb (bit_xor n key) 256 then undoes key n else false

-- So do all key bytes below `k`.
all_undo : ℕ → Bool
all_undo zero = true
all_undo (suc k) = if undoes k 256 then all_undo k else false

undoes_at :
    (key n b : ℕ)
    → b < n
    → undoes key n ≡ true
    → (bit_xor (bit_xor b key) key ≡ b) × (bit_xor b key < 256)
unfolding undoes
undoes_at key zero b h t = absurd (omega arith)
undoes_at key (suc n) b h t =
    ground (arith, undoes_at key n b, ==_iff (bit_xor (bit_xor n key) key) n)

undoes_for : (k key : ℕ) → key < k → all_undo k ≡ true → undoes key 256 ≡ true
unfolding all_undo
undoes_for zero key h t = absurd (omega arith)
undoes_for (suc k) key h t = ground (arith, undoes_for k key)

bytes_undo : all_undo 256 ≡ true
unfolding all_undo undoes
bytes_undo = refl

xor_byte : (b k : ℕ) → b < 256 → k < 256 → (bit_xor (bit_xor b k) k ≡ b) × (bit_xor b k < 256)
xor_byte b k below key = undoes_at k 256 b below (undoes_for 256 k key bytes_undo)

abbrev pub IsBytes : List ℕ → Type 0
IsBytes [] = Unit
IsBytes (b ∷ bs) = (b < 256) × IsBytes bs

byte_at_lt : (bs : List ℕ) (i : ℕ) → IsBytes bs → byte_at bs i < 256
byte_at_lt [] i h = omega arith
byte_at_lt (b ∷ bs) zero h = h.0
byte_at_lt (b ∷ bs) (suc i) h = byte_at_lt bs i h.1

xor_from-xor_from :
    (key : List ℕ) (i : ℕ) (bs : List ℕ)
    → IsBytes key
    → IsBytes bs
    → xor_from key i (xor_from key i bs) ≡ bs
unfolding xor_from
xor_from-xor_from key i [] hk h = refl
xor_from-xor_from key i (b ∷ bs) hk h =
    rw
      (
        (xor_byte b (byte_at key (i % length key)) h.0 (byte_at_lt key (i % length key) hk)).0,
        xor_from-xor_from key (suc i) bs hk h.1,
      )
      refl

xor_from-IsBytes :
    (key : List ℕ) (i : ℕ) (bs : List ℕ) → IsBytes key → IsBytes bs → IsBytes (xor_from key i bs)
unfolding xor_from
xor_from-IsBytes key i [] hk h = tt
xor_from-IsBytes key i (b ∷ bs) hk h = (
  (xor_byte b (byte_at key (i % length key)) h.0 (byte_at_lt key (i % length key) hk)).1,
  xor_from-IsBytes key (suc i) bs hk h.1,
)

IsBytes-append : (xs ys : List ℕ) → IsBytes xs → IsBytes ys → IsBytes (xs ++ ys)
IsBytes-append [] ys hx hy = hy
IsBytes-append (x ∷ xs) ys hx hy = (hx.0, IsBytes-append xs ys hx.1 hy)

length-xor_from : (key : List ℕ) (i : ℕ) (bs : List ℕ) → length (xor_from key i bs) ≡ length bs
unfolding xor_from
length-xor_from key i [] = refl
length-xor_from key i (b ∷ bs) = ap (λ n. suc n) (length-xor_from key (suc i) bs)

take-append : (n : ℕ) (xs ys : List ℕ) → length xs ≡ n → take n (xs ++ ys) ≡ xs
take-append zero [] ys h = refl
take-append zero (x ∷ xs) ys h = absurd (omega arith)
take-append (suc n) [] ys h = absurd (omega arith)
take-append (suc n) (x ∷ xs) ys h = ap (λ t. x ∷ t) (take-append n xs ys (omega arith))

drop-append : (n : ℕ) (xs ys : List ℕ) → length xs ≡ n → drop n (xs ++ ys) ≡ ys
drop-append zero [] ys h = refl
drop-append zero (x ∷ xs) ys h = absurd (omega arith)
drop-append (suc n) [] ys h = absurd (omega arith)
drop-append (suc n) (x ∷ xs) ys h = drop-append n xs ys (omega arith)

module _ {S : Type 0} (crypto : Crypto S) where
  -- What anybody can compute from the bytes of the public key and a payload: the key stream again, from
  -- the nonce that the payload begins with, on the rest of the payload.
  pub recover : List ℕ → Text → List ℕ
  unfolding xor_from
  recover public_key payload =
      let bytes = crypto.from_hex (drop 2 payload) in
      xor_from (crypto.keccak256 (public_key ++ take 32 bytes)) 0 (drop 32 bytes)

  -- What `encrypt` returns, if it returns.
  encrypted :
      (params : TransactionParams) (public_key : Text) (s t : S) (payload : Text)
      (plaintext key : List ℕ)
      → encrypt crypto params public_key s ≡ (ok payload, t)
      → crypto.encode params ≡ ok plaintext
      → crypto.bytes_of public_key ≡ ok key
      → let nonce = (crypto.random_bytes 32 s).0 in
        (is_true crypto.allow_insecure ≡ true)
        × (payload
            ≡ crypto.hexlify (nonce ++ xor_from (crypto.keccak256 (key ++ nonce)) 0 plaintext))
  unfolding encrypt
  encrypted params public_key s t payload plaintext key h p q =
      elim (Bool-cases (is_true crypto.allow_insecure)) [
        | inl y ↦ (y, ground arith)
        | inr n ↦ absurd (ground arith)
      ]

  -- A payload is returned only if the insecure cipher is allowed; then its plaintext can be recovered from
  -- the payload and the public key alone, and `verify` accepts it exactly if the plaintext has at least
  -- 32 bytes. This is for a plaintext, a key and a hash of bytes that are bytes, a nonce of as many bytes
  -- as were asked for, and a hex form of bytes that can be read back.
  pub encrypt-recover :
      (params : TransactionParams) (public_key : Text) (s t : S) (payload : Text)
      (plaintext key : List ℕ)
      → encrypt crypto params public_key s ≡ (ok payload, t)
      → crypto.encode params ≡ ok plaintext
      → crypto.bytes_of public_key ≡ ok key
      → IsBytes plaintext
      → IsBytes key
      → ((bs : List ℕ) → IsBytes bs → IsBytes (crypto.keccak256 bs))
      → IsBytes (crypto.random_bytes 32 s).0
      → length (crypto.random_bytes 32 s).0 ≡ 32
      → ((bs : List ℕ) → IsBytes bs → crypto.from_hex (drop 2 (crypto.hexlify bs)) ≡ bs)
      → (is_true crypto.allow_insecure ≡ true)
        × (recover key payload ≡ plaintext)
        × (verify crypto payload ≡ leb 32 (length plaintext))
  unfolding recover verify
  encrypt-recover params public_key s t payload plaintext key h p q bytes key_bytes hash drawn
        enough hex =
      let (y, e) = encrypted params public_key s t payload plaintext key h p q in
      let nonce : List ℕ = (crypto.random_bytes 32 s).0 in
      let stream : List ℕ = crypto.keccak256 (key ++ nonce) in
      let cipher : List ℕ = xor_from stream 0 plaintext in
      let stream_bytes : IsBytes stream =
        hash (key ++ nonce) (IsBytes-append key nonce key_bytes drawn) in
      let read_back : crypto.from_hex (drop 2 (crypto.hexlify (nonce ++ cipher)))
          ≡ nonce ++ cipher =
        hex (nonce ++ cipher) (
          IsBytes-append nonce cipher drawn
            (xor_from-IsBytes stream 0 plaintext stream_bytes bytes)) in
      (
        y,
        rw (e, read_back, take-append 32 nonce cipher enough, drop-append 32 nonce cipher enough)
            (xor_from-xor_from stream 0 plaintext stream_bytes bytes),
        rw (e, read_back, length-append nonce cipher, enough, length-xor_from stream 0 plaintext)
            (ground arith),
      )
