-- ===== src/Agent/Status.antt =====
-- The client's system and agent queries, and the guards that they serve: `assertSystemReady` and
-- `assertSpendAllowed`.
pub mod Guards
use set.Prelude.{
  ℕ, ◌+◌, ◌/◌, Bool, true, false, not, ◌&&◌, ◌||◌, Option, none, some, ◌++◌, ltb, leb, ◌==◌,
  if◌then◌else◌,
}
use set.Prelude.Int.{ℤ, pos, ltb_ℤ}
use set.Prelude.Text.{Text, codes}
use set.Errors.{AgentErrorCode, Thrown, sdk, agent, agent_error, wrap_error}
use set.Effects.{Result, ok, err, Action, pure, throw, throw_if, catch, ◌>>=◌, ◌>>◌}
use set.Math.{AvailableSpendInputs, compute_available_spend_assets}
use set.Agent.Types.{AgentPolicy, AgentStatus, SystemStatus}
use set.Agent.Chain.{Contracts, World, on_env, read}

abbrev pub throw_agent : {S A : Type 0} → AgentErrorCode → Text → Action S A
throw_agent code message = throw (agent (agent_error code message))

abbrev pub agent_throw_if : {S : Type 0} → Bool → AgentErrorCode → Text → Action S (Unit {0})
agent_throw_if b code message = throw_if b (agent (agent_error code message))

pub data Operation : Type 0 where
  deposit escrow redeem bridge : Operation

-- The `switch` of `assertSystemReady`: the flag that stops the operation.
abbrev pub is_paused : Operation → SystemStatus → Bool
is_paused Operation.deposit status = not status.mint_deposit_allowed
is_paused Operation.escrow status = status.escrow_ops_paused
is_paused Operation.redeem status = not status.request_redeem_allowed
is_paused Operation.bridge status = not status.bridging_allowed

abbrev paused_message : Operation → Text
paused_message Operation.deposit = codes "Deposits are paused"
paused_message Operation.escrow = codes "Escrow operations are paused"
paused_message Operation.redeem = codes "Redemptions are paused"
paused_message Operation.bridge = codes "Bridging is paused"

-- `policy.sessionExpiry === 0 || policy.sessionExpiry > now`, now in seconds.
abbrev pub is_session_active : AgentPolicy → ℕ → Bool
is_session_active policy now = policy.session_expiry == 0 || ltb now policy.session_expiry

module _ {E : Type 0} (c : Contracts E) where
  unfoldable pub get_system_status : Action (World E) SystemStatus
  get_system_status =
      catch (read c c.get_status)
        (λ e. sdk (wrap_error e (some (codes "Failed to get system status"))))

  unfoldable pub assert_system_ready : Operation → Action (World E) (Unit {0})
  assert_system_ready operation = do
    status ← get_system_status
    agent_throw_if (not status.nav_fresh) AgentErrorCode.nav_stale (codes "NAV oracle is stale")
    agent_throw_if (is_paused operation status) AgentErrorCode.system_paused
        (paused_message operation)

  unfoldable pub get_current_nav : Action (World E) (ℕ × Bool)
  get_current_nav = read c c.try_current_nav_ray

  unfoldable pub shares_to_assets : ℤ → Action (World E) ℕ
  shares_to_assets shares = read c (c.convert_to_assets shares)

  unfoldable pub assets_to_shares : ℤ → Action (World E) ℕ
  assets_to_shares assets = read c (c.convert_to_shares assets)

  -- The object that `getStatus` builds from what it has read, at `now` seconds.
  unfoldable pub make_status : ℕ → ℕ → AgentPolicy → Bool → ℕ × ℕ × ℕ → ℕ → AgentStatus
  make_status shares gas_tank_shares policy is_grounded (assets, floor, nav_ray) now =
      let session_active = is_session_active policy now in
      let available_spend = compute_available_spend_assets (record {
        collateral_assets = assets;
        effective_floor_assets = floor;
        nav_ray = nav_ray;
        per_tx_limit_assets = policy.per_tx_limit_assets;
        daily_limit_assets = policy.daily_limit_assets;
        spent_today_assets = policy.spent_today_assets;
        policy_exists = policy.exists;
        session_active = session_active;
      }) in
      record {
        address = c.signer_address;
        shares = shares;
        assets = assets;
        effective_floor_assets = floor;
        gas_tank_shares = gas_tank_shares;
        policy = policy;
        is_grounded = is_grounded;
        available_spend = available_spend;
        session_active = session_active;
      }

  -- `Math.floor(Date.now() / 1000)`
  abbrev pub now_seconds : Action (World E) ℕ
  now_seconds w = (ok (c.runtime.clock w.env / 1000), w)

  unfoldable pub get_status : Action (World E) AgentStatus
  unfolding make_status
  get_status = do
    shares ← read c (c.balance_of c.addresses.vault c.signer_address)
    gas_tank_shares ← read c (c.gas_tank_shares c.signer_address)
    policy ← read c (c.policies c.signer_address)
    is_grounded ← read c (c.is_grounded_now c.signer_address)
    collateral ← read c (c.current_assets c.signer_address)
    now ← now_seconds
    pure (make_status shares gas_tank_shares policy is_grounded collateral now)

  unfoldable pub is_merchant_allowed : Text → Action (World E) Bool
  is_merchant_allowed merchant = read c (c.merchant_allowlist c.signer_address merchant)

  -- `status.policy.enforceMerchantAllowlist && !(await this.isMerchantAllowed(merchant))`
  unfoldable pub is_merchant_refused : AgentStatus → Text → Action (World E) Bool
  unfolding is_merchant_allowed
  is_merchant_refused status merchant = elim status.policy.enforce_merchant_allowlist [
    | false ↦ pure false
    | true ↦ is_merchant_allowed merchant >>= λ allowed. pure (not allowed)
  ]

  -- The tests of `assertSpendAllowed`, on the status that was read.
  unfoldable pub check_spend : AgentStatus → Text → ℤ → Action (World E) AgentStatus
  check_spend status merchant assets = do
    agent_throw_if status.is_grounded AgentErrorCode.agent_grounded
        (codes "Agent is below collateral floor, cannot spend")
    agent_throw_if (not status.session_active) AgentErrorCode.session_expired
        (codes "Agent session has expired")
    refused ← is_merchant_refused status merchant
    agent_throw_if refused AgentErrorCode.policy_violation
        (codes "Merchant " ++ (merchant ++ codes " is not on the agent allowlist"))
    agent_throw_if (ltb_ℤ (pos status.available_spend) assets) AgentErrorCode.policy_violation
        (codes "Payment exceeds available spend")
    pure status

  unfoldable pub assert_spend_allowed : Text → ℤ → Action (World E) AgentStatus
  unfolding check_spend
  assert_spend_allowed merchant assets = do status ← get_status; check_spend status merchant assets
