-- ===== src/Stablecoin/Throws.antt =====
-- What the operations throw.
use mathlib.Core.Path.{subst}
use set.Prelude.{ℕ, ◌≡◌, refl, sym, inl, inr, Option, none, some, [], ◌∷◌, arith, Bool-cases}
use set.Prelude.Int.{ℤ, pos, leb_ℤ}
use set.Prelude.Text.{Text, codes}
use set.Errors.{Thrown, SdkError, sdk, wrap_error}
use set.Effects.{Result, ok, err, Action, outcome_cases, result_cases, pure, lift, ◌>>=◌, ◌>>◌}
use set.Validation.{validate_address, validate_positive_amount}
use set.Stablecoin.Chain.{Tx, Contracts, World, transact, wrapping}
use set.Stablecoin.Operations.{
  recipient_or_signer, deposit, deposit_checked, request_redemption, request_redemption_checked,
  cancel_redemption, wrap, wrap_checked, unwrap, unwrap_checked,
}

abbrev pub IsSdkError : Thrown → Type 0
IsSdkError e = (s : SdkError) × (e ≡ sdk s)

-- If it throws, it throws an `SDKError`.
abbrev pub ThrowsSdk : {A : Type 0} → Result A → Type 0
ThrowsSdk (ok a) = Unit
ThrowsSdk (err e) = IsSdkError e

of_equal : {A S : Type 0} (x y : Result A × S) → x ≡ y → ThrowsSdk y.0 → ThrowsSdk x.0
of_equal x y p h = subst (λ z. ThrowsSdk z.0) (sym p) h

of_error : {A : Type 0} (r : Result A) (e : Thrown) → r ≡ err e → ThrowsSdk r → IsSdkError e
of_error (ok a) e p h = absurd (ground arith)
of_error (err x) e p (s, q) = (s, ground arith)

module _ {E : Type 0} (c : Contracts E) where
  wrapping-ThrowsSdk :
      {A : Type 0} (context : Text) (m : Action (World E) A) (w : World E)
      → ThrowsSdk (wrapping context m w).0
  wrapping-ThrowsSdk {A} context m w = elim (outcome_cases (m w)) [
    | inl (a, u, p) ↦ of_equal (wrapping context m w) (ok a, u) (ground arith) tt
    | inr (e, u, p) ↦
        of_equal (wrapping context m w) (err (sdk (wrap_error e (some context))), u) (ground arith)
          (_, refl)
  ]

  validate_address-ThrowsSdk : (t : Text) → ThrowsSdk (validate_address c.ethers t)
  unfolding validate_address
  validate_address-ThrowsSdk [] = (_, refl)
  validate_address-ThrowsSdk (x ∷ t) = elim (Bool-cases (c.ethers.is_address (x ∷ t))) [
    | inl y ↦ rw y tt
    | inr y ↦ rw y (_, refl)
  ]

  validate_positive-ThrowsSdk : (a : ℤ) → ThrowsSdk (validate_positive_amount a)
  unfolding validate_positive_amount
  validate_positive-ThrowsSdk a = elim (Bool-cases (leb_ℤ a (pos 0))) [
    | inl y ↦ rw y (_, refl)
    | inr y ↦ rw y tt
  ]

  recipient-ThrowsSdk : (r : Option Text) → ThrowsSdk (recipient_or_signer c r)
  recipient-ThrowsSdk none = tt
  recipient-ThrowsSdk (some []) = tt
  recipient-ThrowsSdk (some (x ∷ s)) = validate_address-ThrowsSdk (x ∷ s)

  -- What the five operations throw.
  pub record Throws (w : World E) : Type 0 where
    pub deposit_throws :
        (token : Text) (amount : ℤ) (recipient : Option Text)
        → ThrowsSdk (deposit c token amount recipient w).0
    pub request_throws :
        (amount : ℤ) (collateral : Text) → ThrowsSdk (request_redemption c amount collateral w).0
    pub cancel_throws : (id : ℕ) → ThrowsSdk (cancel_redemption c id w).0
    pub wrap_throws : (amount : ℤ) → ThrowsSdk (wrap c amount w).0
    pub unwrap_throws : (amount : ℤ) → ThrowsSdk (unwrap c amount w).0

  deposit-ThrowsSdk :
      (token : Text) (amount : ℤ) (recipient : Option Text) (w : World E)
      → ThrowsSdk (deposit c token amount recipient w).0
  unfolding deposit
  deposit-ThrowsSdk token amount recipient w =
      elim (result_cases (validate_address c.ethers token)) [
        | inr (e, p) ↦
            of_equal (deposit c token amount recipient w) (err e, w) (ground arith)
              (of_error (validate_address c.ethers token) e p (validate_address-ThrowsSdk token))
        | inl (t, p) ↦ elim (result_cases (validate_positive_amount amount)) [
          | inr (e, q) ↦
              of_equal (deposit c token amount recipient w) (err e, w) (ground arith)
                (of_error (validate_positive_amount amount) e q
                  (validate_positive-ThrowsSdk amount))
          | inl (_, q) ↦ elim (result_cases (recipient_or_signer c recipient)) [
            | inr (e, r) ↦
                of_equal (deposit c token amount recipient w) (err e, w) (ground arith)
                  (of_error (recipient_or_signer c recipient) e r (recipient-ThrowsSdk recipient))
            | inl (to, r) ↦
                of_equal (deposit c token amount recipient w)
                  (wrapping (codes "Deposit failed") (deposit_checked c t amount to) w)
                  (ground arith)
                  (wrapping-ThrowsSdk (codes "Deposit failed") (deposit_checked c t amount to) w)
          ]
        ]
      ]

  request-ThrowsSdk :
      (amount : ℤ) (collateral : Text) (w : World E)
      → ThrowsSdk (request_redemption c amount collateral w).0
  unfolding request_redemption
  request-ThrowsSdk amount collateral w = elim (result_cases (validate_positive_amount amount)) [
    | inr (e, p) ↦
        of_equal (request_redemption c amount collateral w) (err e, w) (ground arith)
          (of_error (validate_positive_amount amount) e p (validate_positive-ThrowsSdk amount))
    | inl (_, p) ↦ elim (result_cases (validate_address c.ethers collateral)) [
      | inr (e, q) ↦
          of_equal (request_redemption c amount collateral w) (err e, w) (ground arith)
            (of_error (validate_address c.ethers collateral) e q
              (validate_address-ThrowsSdk collateral))
      | inl (t, q) ↦
          of_equal (request_redemption c amount collateral w)
            (wrapping (codes "Redemption request failed") (request_redemption_checked c amount t) w)
            (ground arith)
            (wrapping-ThrowsSdk (codes "Redemption request failed")
              (request_redemption_checked c amount t) w)
    ]
  ]

  -- A checked amount, and a `try` after it.
  amount-ThrowsSdk :
      {A : Type 0} (amount : ℤ) (context : Text) (m : Action (World E) A) (w : World E)
      → ThrowsSdk ((lift (validate_positive_amount amount) >> wrapping context m) w).0
  amount-ThrowsSdk amount context m w = elim (result_cases (validate_positive_amount amount)) [
    | inr (e, p) ↦
        of_equal ((lift (validate_positive_amount amount) >> wrapping context m) w) (err e, w)
          (ground arith)
          (of_error (validate_positive_amount amount) e p (validate_positive-ThrowsSdk amount))
    | inl (_, p) ↦
        of_equal ((lift (validate_positive_amount amount) >> wrapping context m) w)
          (wrapping context m w) (ground arith) (wrapping-ThrowsSdk context m w)
  ]

  -- Whatever the node answers, the operations throw nothing but `SDKError`s.
  pub operations-Throws : (w : World E) → Throws w
  unfolding cancel_redemption wrap unwrap
  operations-Throws w = record {
    deposit_throws = λ token amount recipient. deposit-ThrowsSdk token amount recipient w;
    request_throws = λ amount collateral. request-ThrowsSdk amount collateral w;
    cancel_throws = λ id.
        wrapping-ThrowsSdk (codes "Cancel redemption failed")
          (do
            receipt ← transact c (Tx.cancel_redemption id) (codes "Cancel redemption failed")
            pure receipt.hash)
          w;
    wrap_throws = λ amount. amount-ThrowsSdk amount (codes "Wrap failed") (wrap_checked c amount) w;
    unwrap_throws =
        λ amount. amount-ThrowsSdk amount (codes "Unwrap failed") (unwrap_checked c amount) w;
  }
