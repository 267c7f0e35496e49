-- ===== src/Agent/Request.antt =====
-- Payment requests between agents: `createPaymentRequest` and `assertValidPaymentRequest`. The texts
-- of the errors are shortened to their fixed part.
pub mod Valid
pub mod Created
use set.Prelude.{
  ℕ, zero, suc, ◌+◌, ◌*◌, Bool, true, false, not, ◌&&◌, ◌||◌, Option, none, some, List, [], ◌∷◌,
  ltb, leb, ◌==◌, if◌then◌else◌,
}
use set.Prelude.Int.{ℤ, pos, ltb_ℤ, leb_ℤ, eqb_ℤ}
use set.Prelude.Text.{Text, codes}
use set.Prelude.Number.{Number, is_integer, lt_int, gt_int}
use set.Errors.{AgentErrorCode, Thrown, agent, agent_error}
use set.Effects.{Result, ok, err, Action, pure, lift, ◌>>=◌, ◌>>◌}
use set.Validation.{Ethers, all, validate_address, validate_positive_amount}
use set.Agent.Types.{FulfillmentType, DisputeResolution, InvoiceTerms, PaymentRequest}
use set.Agent.Chain.{Contracts, World, max_uint256}
use set.Agent.Status.{now_seconds}

-- White space, by `String.prototype.trim`.
abbrev pub is_white : ℕ → Bool
is_white c =
    leb 9 c && leb c 13
    || c == 32
    || c == 0xa0
    || c == 0x1680
    || leb 0x2000 c && leb c 0x200a
    || c == 0x2028
    || c == 0x2029
    || c == 0x202f
    || c == 0x205f
    || c == 0x3000
    || c == 0xfeff

-- `id.trim().length === 0`
abbrev pub is_blank : Text → Bool
is_blank id = all is_white id

abbrev pub is_no_type : FulfillmentType → Bool
is_no_type FulfillmentType.none = true
is_no_type _ = false

abbrev pub is_no_resolution : DisputeResolution → Bool
is_no_resolution DisputeResolution.none = true
is_no_resolution _ = false

-- A list of checks, in order: the first that fails throws.
infixr 5 ◌!◌
abbrev pub ◌!◌ : {A : Type 0} → Bool × AgentErrorCode × Text → Result A → Result A
(b, code, message) ! rest = if b then err (agent (agent_error code message)) else rest

-- The part on fulfillment.
unfoldable pub check_fulfillment : {A : Type 0} → InvoiceTerms → Result A → Result A
check_fulfillment terms rest =
    if terms.requires_fulfillment
    then ((
      is_no_type terms.fulfillment_type,
      AgentErrorCode.invalid_payment_request,
      codes "Payment request requires fulfillment but does not specify a fulfillment type",
    )
        ! (
          terms.required_milestones == 0,
          AgentErrorCode.invalid_payment_request,
          codes "Payment request requires fulfillment but has zero milestones",
        )
        ! rest)
    else ((
      not (is_no_type terms.fulfillment_type),
      AgentErrorCode.invalid_payment_request,
      codes "Payment request marks fulfillment as optional but still sets a fulfillment type",
    )
        ! (
          not (terms.required_milestones == 0),
          AgentErrorCode.invalid_payment_request,
          codes "Payment request marks fulfillment as optional but still sets milestones",
        )
        ! rest)

-- The part on disputes.
unfoldable pub check_dispute : {A : Type 0} → InvoiceTerms → Result A → Result A
check_dispute terms rest =
    if terms.challenge_window == 0 && terms.arbiter_deadline == 0
    then ((
      not (is_no_resolution terms.dispute_timeout_resolution),
      AgentErrorCode.invalid_payment_request,
      codes "Payment request cannot set timeout resolution without a challenge or arbiter window",
    )
        ! rest)
    else ((
      ltb 0 terms.arbiter_deadline && is_no_resolution terms.dispute_timeout_resolution,
      AgentErrorCode.invalid_payment_request,
      codes "Payment request with an arbiter deadline must define a timeout resolution",
    )
        ! rest)

abbrev pub is_bad_bps : Number → Bool
is_bad_bps bps = not (is_integer bps) || lt_int bps (pos 0) || gt_int bps (pos 10000)

-- The checks that throw an `AgentError`.
unfoldable pub check_request : {A : Type 0} → PaymentRequest → ℕ → Result A → Result A
check_request request now rest =
    (
      is_blank request.request_id,
      AgentErrorCode.invalid_payment_request,
      codes "Payment request ID cannot be empty",
    )
    ! (
      not (eqb_ℤ request.amount request.terms.assets_due),
      AgentErrorCode.invalid_payment_request,
      codes "Payment request amount does not match invoice terms",
    )
    ! (
      not (request.expires_at == request.terms.expiry),
      AgentErrorCode.invalid_payment_request,
      codes "Payment request expiry does not match invoice terms",
    )
    ! (
      is_bad_bps request.buyer_bps,
      AgentErrorCode.invalid_payment_request,
      codes "Payment request buyer yield split must be an integer between 0 and 10000 bps",
    )
    ! (leb request.expires_at now, AgentErrorCode.payment_expired, codes "Payment request expired")
    ! (
      ltb request.terms.release_after now,
      AgentErrorCode.invalid_payment_request,
      codes "Payment request release time is already in the past",
    )
    ! check_fulfillment request.terms (check_dispute request.terms rest)

unfoldable pub assert_valid_payment_request : Ethers → PaymentRequest → ℕ → Result Text
assert_valid_payment_request ethers request now = elim (validate_address ethers request.payee) [
  | err e ↦ err e
  | ok payee ↦ elim (validate_positive_amount request.amount) [
    | err e ↦ err e
    | ok _ ↦ elim (validate_positive_amount request.terms.assets_due) [
      | err e ↦ err e
      | ok _ ↦ check_request request now (ok payee)
    ]
  ]
]

-- The parameters of `createPaymentRequest`; what is not given is `none`.
pub record RequestParams : Type 0 where
  pub amount : ℤ
  pub hold_period_seconds : Option ℕ
  pub fulfillment_type : Option FulfillmentType
  pub milestones : Option ℕ
  pub challenge_window_seconds : Option ℕ
  pub arbiter_deadline_seconds : Option ℕ
  pub buyer_bps : Option Number
  pub expires_in_seconds : Option ℕ

-- `a ?? b`
abbrev pub or_default : {A : Type 0} → Option A → A → A
or_default none d = d
or_default (some a) d = a

-- The object that `createPaymentRequest` builds, at `now` seconds. The text of the request's id is
-- made of the agent's address, the time and random characters: it begins with `pr_`.
unfoldable pub make_request : Text → Text → ℕ → RequestParams → PaymentRequest
make_request agent_addr id_suffix now params =
    let expires_at = now + or_default params.expires_in_seconds 3600 in
    let milestones = or_default params.milestones 0 in
    let requires_fulfillment = ltb 0 milestones in
    let challenge_window = or_default params.challenge_window_seconds 21600 in
    let arbiter_deadline = or_default params.arbiter_deadline_seconds 604800 in
    let timeout_resolution =
      if challenge_window == 0 && arbiter_deadline == 0
      then DisputeResolution.none
      else DisputeResolution.refund in
    let fulfillment_type =
      if requires_fulfillment
      then or_default params.fulfillment_type FulfillmentType.digital
      else FulfillmentType.none in
    record {
      request_id = b'p' ∷ b'r' ∷ b'_' ∷ id_suffix;
      payee = agent_addr;
      amount = params.amount;
      terms = record {
        assets_due = params.amount;
        expiry = expires_at;
        release_after = now + or_default params.hold_period_seconds 300;
        max_nav_age = 172800;
        max_shares_in = pos max_uint256;
        requires_fulfillment = requires_fulfillment;
        fulfillment_type = fulfillment_type;
        required_milestones = milestones;
        challenge_window = challenge_window;
        arbiter_deadline = arbiter_deadline;
        dispute_timeout_resolution = timeout_resolution;
      };
      buyer_bps = or_default params.buyer_bps (Number.int (pos 0));
      expires_at = expires_at;
    }

module _ {E : Type 0} (c : Contracts E) where
  -- `id_suffix` is the part of the request's id behind `pr_`.
  unfoldable pub create_payment_request : Text → RequestParams → Action (World E) PaymentRequest
  create_payment_request id_suffix params = do
    now ← now_seconds c
    let request = make_request c.signer_address id_suffix now params
    lift (assert_valid_payment_request c.ethers request now)
    pure request
