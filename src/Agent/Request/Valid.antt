-- ===== src/Agent/Request/Valid.antt =====
-- `assertValidPaymentRequest` against the rules of a payment request.
use set.Prelude.{ℕ, ◌≤◌, ◌<◌, true, false, ◌≡◌, refl, ap, ◌∙◌, ◌↔◌, ◌⊎◌, inl, inr, arith}
use set.Prelude.Int.{ℤ, pos, ◌≤ℤ◌, eqb_ℤ}
use set.Prelude.Number.{Number, int}
use set.Prelude.Text.{Text}
use set.Effects.{Result, ok, result_cases}
use set.Validation.{Ethers, validate_address, validate_positive_amount}
use set.Agent.Types.{InvoiceTerms, PaymentRequest}
use set.Agent.Request.{
  is_blank, is_bad_bps, is_no_type, is_no_resolution, check_fulfillment, check_dispute,
  check_request, assert_valid_payment_request,
}

-- Milestones and a type of fulfillment are given exactly if fulfillment is required.
abbrev pub IsFulfillable : InvoiceTerms → Type 0
IsFulfillable terms =
    ((terms.requires_fulfillment ≡ true)
      × (is_no_type terms.fulfillment_type ≡ false)
      × (0 < terms.required_milestones))
    ⊎ ((terms.requires_fulfillment ≡ false)
        × (is_no_type terms.fulfillment_type ≡ true)
        × (terms.required_milestones ≡ 0))

-- A timeout resolution comes with a window, and an arbiter's deadline with a timeout resolution.
abbrev pub IsDisputable : InvoiceTerms → Type 0
IsDisputable terms =
    ((is_no_resolution terms.dispute_timeout_resolution ≡ true) × (terms.arbiter_deadline ≡ 0))
    ⊎ ((is_no_resolution terms.dispute_timeout_resolution ≡ false)
        × ((0 < terms.challenge_window) ⊎ (0 < terms.arbiter_deadline)))

-- The yield split of the buyer is a whole number of basis points, at most 10000.
abbrev pub IsBps : Number → Type 0
IsBps bps = (n : ℕ) × (bps ≡ int (pos n)) × (n ≤ 10000)

pub record IsValidRequest (request : PaymentRequest) (now : ℕ) : Type 0 where
  pub positive : pos 1 ≤ℤ request.amount
  pub named : is_blank request.request_id ≡ false
  pub agreed : request.amount ≡ request.terms.assets_due
  pub same_expiry : request.expires_at ≡ request.terms.expiry
  pub bps : IsBps request.buyer_bps
  pub unexpired : now < request.expires_at
  pub unreleased : now ≤ request.terms.release_after
  pub fulfillable : IsFulfillable request.terms
  pub disputable : IsDisputable request.terms

check_fulfillment_iff :
    (terms : InvoiceTerms) (r : Result Text) (p : Text)
    → (check_fulfillment terms r ≡ ok p) ↔ (IsFulfillable terms × (r ≡ ok p))
unfolding check_fulfillment
check_fulfillment_iff terms r p = (λ h. ground arith, λ h. ground arith)

check_dispute_iff :
    (terms : InvoiceTerms) (r : Result Text) (p : Text)
    → (check_dispute terms r ≡ ok p) ↔ (IsDisputable terms × (r ≡ ok p))
unfolding check_dispute
check_dispute_iff terms r p = (λ h. ground arith, λ h. ground arith)

bad-IsBps_iff : (bps : Number) → (is_bad_bps bps ≡ false) ↔ IsBps bps
bad-IsBps_iff (int (pos n)) = (λ h. (n, refl, ground arith), λ h. ground arith)
bad-IsBps_iff _ = (λ h. ground arith, λ h. ground arith)

eqb_ℤ_iff : (a b : ℤ) → (eqb_ℤ a b ≡ true) ↔ (a ≡ b)
eqb_ℤ_iff a b = (λ h. ground arith, λ h. ground arith)

-- What the tests before those on fulfillment and disputes ask for.
record IsPlain (request : PaymentRequest) (now : ℕ) : Type 0 where
  named : is_blank request.request_id ≡ false
  agreed : request.amount ≡ request.terms.assets_due
  same_expiry : request.expires_at ≡ request.terms.expiry
  bps : is_bad_bps request.buyer_bps ≡ false
  unexpired : now < request.expires_at
  unreleased : now ≤ request.terms.release_after

check_request-IsPlain :
    (request : PaymentRequest) (now : ℕ) (p : Text)
    → (check_request request now (ok p) ≡ ok p) ↔ (
        IsPlain request now
        × (check_fulfillment request.terms (check_dispute request.terms (ok p)) ≡ ok p))
unfolding check_request
check_request-IsPlain request now p = (
  λ h. (ground (arith, eqb_ℤ_iff request.amount request.terms.assets_due), ground arith),
  λ h. ground (arith, eqb_ℤ_iff request.amount request.terms.assets_due),
)

check_request_ok :
    (request : PaymentRequest) (now : ℕ) (p q : Text)
    → check_request request now (ok p) ≡ ok q
    → p ≡ q
unfolding check_request check_fulfillment check_dispute
check_request_ok request now p q h = ground arith

-- `assertValidPaymentRequest` returns exactly for the requests that follow the rules and whose
-- payee is an address, and it returns the checksummed address.
pub assert_valid_payment_request_iff :
    (ethers : Ethers) (request : PaymentRequest) (now : ℕ) (payee : Text)
    → (assert_valid_payment_request ethers request now ≡ ok payee)
      ↔ ((validate_address ethers request.payee ≡ ok payee) × IsValidRequest request now)
unfolding assert_valid_payment_request validate_positive_amount
assert_valid_payment_request_iff ethers request now payee = (to, from)
  where
    to :
        assert_valid_payment_request ethers request now ≡ ok payee
        → (validate_address ethers request.payee ≡ ok payee) × IsValidRequest request now
    to h = elim (result_cases (validate_address ethers request.payee)) [
      | inr (e, q) ↦ ground arith
      | inl (a, q) ↦
          let r : check_request request now (ok a) ≡ ok payee = ground arith in
          let same = check_request_ok request now a payee r in
          let (plain, rest) = (check_request-IsPlain request now payee).0 (rw same at r) in
          let (full, rest') = (check_fulfillment_iff request.terms _ payee).0 rest in
          let (disp, _) = (check_dispute_iff request.terms _ payee).0 rest' in
          (
            q ∙ ap ok same,
            record {
              positive = ground arith;
              named = plain.named;
              agreed = plain.agreed;
              same_expiry = plain.same_expiry;
              bps = (bad-IsBps_iff request.buyer_bps).0 plain.bps;
              unexpired = plain.unexpired;
              unreleased = plain.unreleased;
              fulfillable = full;
              disputable = disp;
            },
          )
    ]

    from :
        (validate_address ethers request.payee ≡ ok payee) × IsValidRequest request now
        → assert_valid_payment_request ethers request now ≡ ok payee
    from (q, v) =
        let plain : IsPlain request now = record {
          named = v.named;
          agreed = v.agreed;
          same_expiry = v.same_expiry;
          bps = (bad-IsBps_iff request.buyer_bps).1 v.bps;
          unexpired = v.unexpired;
          unreleased = v.unreleased;
        } in
        let r = (check_request-IsPlain request now payee).1 (
          plain,
          (check_fulfillment_iff request.terms _ payee).1
              (v.fulfillable, (check_dispute_iff request.terms _ payee).1 (v.disputable, refl)),
        ) in
        let positive : pos 1 ≤ℤ request.terms.assets_due = rw (← v.agreed) v.positive in
        ground (arith, r, v.positive)
