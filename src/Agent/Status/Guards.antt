-- ===== src/Agent/Status/Guards.antt =====
-- What the client's guards let pass.
use set.Prelude.{true, false, ◌≡◌, ◌↔◌, ◌⊎◌, inl, inr, arith, Bool-cases}
use set.Prelude.Int.{ℤ, pos, ◌≤ℤ◌}
use set.Prelude.Text.{Text}
use set.Effects.{ok, outcome_cases}
use set.Agent.Types.{AgentStatus, SystemStatus}
use set.Agent.Chain.{Contracts, World, read}
use set.Agent.Quiet.{Quiet}
use set.Agent.Status.{
  Operation, is_paused, get_system_status, assert_system_ready, get_status, is_merchant_allowed,
  is_merchant_refused, check_spend, assert_spend_allowed,
}

module _ {E : Type 0} (c : Contracts E) where
  -- `assertSystemReady` returns exactly if the status was read, the NAV is fresh and the operation
  -- is not paused.
  pub assert_system_ready_iff :
      (op : Operation) (w w' : World E)
      → (assert_system_ready c op w ≡ (ok tt, w')) ↔ (
          (status : SystemStatus) × (get_system_status c w ≡ (ok status, w'))
          × (status.nav_fresh ≡ true)
          × (is_paused op status ≡ false))
  unfolding assert_system_ready
  assert_system_ready_iff op w w' = (
    (λ h. elim (outcome_cases (get_system_status c w)) [
      | inl (status, u, p) ↦ elim (Bool-cases (is_paused op status)) [
        | inl q ↦ ground arith
        | inr q ↦ (status, ground arith, ground arith, ground arith)
      ]
      | inr (e, u, p) ↦ ground arith
    ]),
    (λ h. let (status, p, fresh, free) = h in ground arith),
  )

  pub get_system_status-Quiet : Quiet (get_system_status c)
  unfolding get_system_status
  get_system_status-Quiet w = ground arith

  pub assert_system_ready-Quiet : (op : Operation) → Quiet (assert_system_ready c op)
  unfolding assert_system_ready
  assert_system_ready-Quiet op w = ground (arith, get_system_status-Quiet w)

  get_status-Quiet : Quiet (get_status c)
  unfolding get_status
  get_status-Quiet w = ground arith

  is_merchant_refused-Quiet :
      (status : AgentStatus) (merchant : Text) → Quiet (is_merchant_refused c status merchant)
  unfolding is_merchant_refused
  is_merchant_refused-Quiet status merchant w = ground arith

  -- No allowlist is enforced, and nothing is read; or the merchant is found on the agent's allowlist.
  abbrev pub Welcome : AgentStatus → Text → World E → World E → Type 0
  Welcome status merchant w w' =
      ((status.policy.enforce_merchant_allowlist ≡ false) × (w ≡ w'))
      ⊎ ((status.policy.enforce_merchant_allowlist ≡ true)
          × (read c (c.merchant_allowlist c.signer_address merchant) w ≡ (ok true, w')))

  is_merchant_refused_iff :
      (status : AgentStatus) (merchant : Text) (w w' : World E)
      → (is_merchant_refused c status merchant w ≡ (ok false, w')) ↔ Welcome status merchant w w'
  unfolding is_merchant_refused is_merchant_allowed
  is_merchant_refused_iff status merchant w w' = (
    (λ h. elim (Bool-cases status.policy.enforce_merchant_allowlist) [
      | inr b ↦ inl (b, ground arith)
      | inl b ↦ elim (outcome_cases (read c (c.merchant_allowlist c.signer_address merchant) w)) [
        | inl (true, u, p) ↦ inr (b, ground arith)
        | inl (false, u, p) ↦ ground arith
        | inr (e, u, p) ↦ ground arith
      ]
    ]),
    (λ h. elim h [ inl (b, same) ↦ ground arith | inr (b, found) ↦ ground arith ]),
  )

  -- What holds of a payment that the spending guard lets pass, and of the status that it has read.
  pub record PassesSpend (merchant : Text) (assets : ℤ) (w w' : World E) (status : AgentStatus)
      : Type 0 where
    pub asked : World E
    pub was_read : get_status c w ≡ (ok status, asked)
    pub afloat : status.is_grounded ≡ false
    pub in_session : status.session_active ≡ true
    pub welcome : Welcome status merchant asked w'
    pub affordable : assets ≤ℤ pos status.available_spend

  check_spend_ok :
      (status st : AgentStatus) (merchant : Text) (assets : ℤ) (w w' : World E)
      → check_spend c status merchant assets w ≡ (ok st, w')
      → (st ≡ status)
        × (status.is_grounded ≡ false)
        × (status.session_active ≡ true)
        × (is_merchant_refused c status merchant w ≡ (ok false, w'))
        × (assets ≤ℤ pos status.available_spend)
  unfolding check_spend
  check_spend_ok status st merchant assets w w' h =
      elim (outcome_cases (is_merchant_refused c status merchant w)) [
        | inl (b, u, p) ↦ ground arith
        | inr (e, u, p) ↦ ground arith
      ]

  check_spend-Quiet :
      (status : AgentStatus) (merchant : Text) (assets : ℤ)
      → Quiet (check_spend c status merchant assets)
  unfolding check_spend
  check_spend-Quiet status merchant assets w =
      ground (arith, is_merchant_refused-Quiet status merchant w)

  pub assert_spend_allowed_ok :
      (merchant : Text) (assets : ℤ) (w w' : World E) {status : AgentStatus}
      → assert_spend_allowed c merchant assets w ≡ (ok status, w')
      → PassesSpend merchant assets w w' status
  unfolding assert_spend_allowed
  assert_spend_allowed_ok merchant assets w w' {status} h = elim (outcome_cases (get_status c w)) [
    | inl (st, u, p) ↦
        let q : check_spend c st merchant assets u ≡ (ok status, w') = ground arith in
        let (same, a, b, d, e) = check_spend_ok st status merchant assets u w' q in
        record {
          asked = u;
          was_read = ground arith;
          afloat = ground arith;
          in_session = ground arith;
          welcome = (is_merchant_refused_iff status merchant u w').0 (ground arith);
          affordable = ground arith;
        }
    | inr (e, u, p) ↦ ground arith
  ]

  -- `assertSpendAllowed` returns exactly if the status was read, the agent is not grounded and in an
  -- active session, the merchant is not refused by an allowlist, and the amount is within the
  -- available spend; and then it returns that status.
  pub assert_spend_allowed_iff :
      (merchant : Text) (assets : ℤ) (w w' : World E) (status : AgentStatus)
      → (assert_spend_allowed c merchant assets w ≡ (ok status, w'))
        ↔ PassesSpend merchant assets w w' status
  unfolding assert_spend_allowed check_spend
  assert_spend_allowed_iff merchant assets w w' status = (
    (λ h. assert_spend_allowed_ok merchant assets w w' h),
    λ h.
        let welcome : is_merchant_refused c status merchant h.asked ≡ (ok false, w') =
          (is_merchant_refused_iff status merchant h.asked w').1 h.welcome in
        ground (arith, h.was_read, h.afloat, h.in_session, welcome, h.affordable),
  )

  pub assert_spend_allowed-Quiet :
      (merchant : Text) (assets : ℤ) → Quiet (assert_spend_allowed c merchant assets)
  unfolding assert_spend_allowed
  assert_spend_allowed-Quiet merchant assets w = elim (outcome_cases (get_status c w)) [
    | inl (st, u, p) ↦ ground (arith, get_status-Quiet w, check_spend-Quiet st merchant assets u)
    | inr (e, u, p) ↦ ground (arith, get_status-Quiet w)
  ]
