-- ===== src/Agent/Request/Created.antt =====
-- The requests that `createPaymentRequest` makes, and how long they can be accepted.
use set.Prelude.{
  ℕ, ◌+◌, ◌/◌, ◌≤◌, ◌<◌, true, false, ◌≡◌, refl, ◌↔◌, ◌⊎◌, arith, ltb, if◌then◌else◌, ◌&&◌, ◌==◌,
}
use set.Prelude.Int.{pos, ◌≤ℤ◌}
use set.Prelude.Text.{Text}
use set.Prelude.Number.{int}
use set.Effects.{ok}
use set.Validation.{Ethers, validate_address}
use set.Agent.Types.{FulfillmentType, DisputeResolution}
use set.Agent.Chain.{Contracts, World}
use set.Agent.Request.{
  is_no_type, is_no_resolution, RequestParams, or_default, make_request,
  assert_valid_payment_request, create_payment_request,
}
use set.Agent.Request.Valid.{IsBps, IsValidRequest, assert_valid_payment_request_iff}

-- What the parameters have to be: a positive amount, a yield split in basis points, and no
-- fulfillment type `NONE` beside milestones.
pub record IsSound (params : RequestParams) : Type 0 where
  pub positive : pos 1 ≤ℤ params.amount
  pub bps : IsBps (or_default params.buyer_bps (int (pos 0)))
  pub typed :
      (or_default params.milestones 0 ≡ 0)
      ⊎ (is_no_type (or_default params.fulfillment_type FulfillmentType.digital) ≡ false)

made_typed :
    (t : FulfillmentType) (m : ℕ)
    → ((ltb 0 m ≡ true)
        × (is_no_type (if ltb 0 m then t else FulfillmentType.none) ≡ false)
        × (0 < m))
      ⊎ ((ltb 0 m ≡ false)
          × (is_no_type (if ltb 0 m then t else FulfillmentType.none) ≡ true)
          × (m ≡ 0))
    → (m ≡ 0) ⊎ (is_no_type t ≡ false)
made_typed t m h = ground arith

made_fulfillable :
    (t : FulfillmentType) (m : ℕ)
    → (m ≡ 0) ⊎ (is_no_type t ≡ false)
    → ((ltb 0 m ≡ true)
        × (is_no_type (if ltb 0 m then t else FulfillmentType.none) ≡ false)
        × (0 < m))
      ⊎ ((ltb 0 m ≡ false)
          × (is_no_type (if ltb 0 m then t else FulfillmentType.none) ≡ true)
          × (m ≡ 0))
made_fulfillable t m h = ground arith

made_disputable :
    (window deadline : ℕ)
    → let r =
        if window == 0 && deadline == 0 then DisputeResolution.none else DisputeResolution.refund in
      ((is_no_resolution r ≡ true) × (deadline ≡ 0))
      ⊎ ((is_no_resolution r ≡ false) × ((0 < window) ⊎ (0 < deadline)))
made_disputable window deadline = ground arith

-- A request made at one time is valid at a later one exactly if its parameters are sound, and that
-- time is before the expiry and not after the end of the holding period.
make_request_window :
    (agent suffix : Text) (made now : ℕ) (params : RequestParams)
    → IsValidRequest (make_request agent suffix made params) now ↔ (
        IsSound params
        × (now < made + or_default params.expires_in_seconds 3600)
        × (now ≤ made + or_default params.hold_period_seconds 300))
unfolding make_request
make_request_window agent suffix made now params =
    let t = or_default params.fulfillment_type FulfillmentType.digital in
    let m = or_default params.milestones 0 in
    (
      (λ v. (
        record { positive = v.positive; bps = v.bps; typed = made_typed t m v.fulfillable },
        v.unexpired,
        v.unreleased,
      )),
      λ (sound, unexpired, unreleased). record {
        positive = sound.positive;
        named = refl;
        agreed = refl;
        same_expiry = refl;
        bps = sound.bps;
        unexpired = unexpired;
        unreleased = unreleased;
        fulfillable = made_fulfillable t m sound.typed;
        disputable =
            made_disputable (or_default params.challenge_window_seconds 21600)
              (or_default params.arbiter_deadline_seconds 604800);
      },
    )

-- What `createPaymentRequest` makes at one time is accepted by `assertValidPaymentRequest` at a later
-- one exactly if the agent's address is one, the parameters are sound, and the later time is before
-- the expiry and not after the end of the holding period: 300 seconds if none is given, also where
-- the expiry, 3600 seconds if none is given, is later.
pub created_request_window :
    (ethers : Ethers) (agent suffix payee : Text) (made now : ℕ) (params : RequestParams)
    → (assert_valid_payment_request ethers (make_request agent suffix made params) now ≡ ok payee)
      ↔ ((validate_address ethers agent ≡ ok payee)
          × IsSound params
          × (now < made + or_default params.expires_in_seconds 3600)
          × (now ≤ made + or_default params.hold_period_seconds 300))
unfolding make_request
created_request_window ethers agent suffix payee made now params =
    let valid =
      assert_valid_payment_request_iff ethers (make_request agent suffix made params) now payee in
    let window = make_request_window agent suffix made now params in
    (
      (λ h. let (a, v) = valid.0 h in let (s, e, r) = window.0 v in (a, s, e, r)),
      λ (a, s, e, r). valid.1 (a, window.1 (s, e, r)),
    )

-- With an address for the agent, sound parameters and a positive time to the expiry,
-- `createPaymentRequest` returns the request that it builds at the current time, and sends nothing.
pub create_payment_request_returns :
    {E : Type 0} (c : Contracts E) (suffix payee : Text) (params : RequestParams) (w : World E)
    → validate_address c.ethers c.signer_address ≡ ok payee
    → IsSound params
    → 0 < or_default params.expires_in_seconds 3600
    → let made = c.runtime.clock w.env / 1000 in
      create_payment_request c suffix params w
      ≡ (ok (make_request c.signer_address suffix made params), w)
unfolding create_payment_request
create_payment_request_returns c suffix payee params w a s h =
    let made = c.runtime.clock w.env / 1000 in
    rw
      ((created_request_window c.ethers c.signer_address suffix payee made made params).1
        (a, s, omega arith, omega arith))
      refl
