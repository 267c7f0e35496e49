-- ===== src/Stablecoin/Queries.antt =====
-- The methods of sdk/src/stablecoin/StablecoinClient.ts that read the contracts. The NAV history's
-- numbers become floats: how an APY is made of two reports is a parameter. `Promise.all` is a
-- sequence of reads.
use set.Prelude.{ℕ, Bool, true, not, List, [], ◌∷◌, ltb, leb, if◌then◌else◌}
use set.Prelude.Int.{ℤ}
use set.Prelude.Text.{Text, codes}
use set.Errors.{SdkErrorCode, Thrown, sdk, error, sdk_error}
use set.Effects.{ok, err, Action, pure, throw_if, lift, when, ◌>>=◌, ◌>>◌}
use set.Validation.{validate_address, validate_positive_amount}
use set.Stablecoin.Chain.{
  Contracts, World, NavReport, RedemptionRequest, TokenInfo, on_env, read, wrapping,
}

pub record UserBalance : Type 0 where
  pub ss_usd : ℕ
  pub ss_usd_shares : ℕ
  pub wss_usd : ℕ
  pub wss_usd_value : ℕ

pub record StablecoinStats (Float : Type 0) : Type 0 where
  pub total_supply : ℕ
  pub total_shares : ℕ
  pub nav_per_share : ℕ
  pub total_collateral : ℕ
  pub collateral_ratio : ℕ
  pub apy : Float

-- `new NAVStaleError(timestamp)`: a time that is no date of JavaScript makes `toISOString` throw.
abbrev pub nav_stale : ℕ → Thrown
nav_stale timestamp =
    if leb timestamp 8640000000000
    then sdk (sdk_error SdkErrorCode.nav_stale (codes "NAV data is stale"))
    else error (codes "Invalid time value")

abbrev pub last : {A : Type 0} → A → List A → A
last a [] = a
last a (b ∷ l) = last b l

module _ {E : Type 0} (c : Contracts E) where
  -- A view with a checked address, and its errors wrapped.
  unfoldable pub get_redemption_request : ℕ → Action (World E) RedemptionRequest
  get_redemption_request request_id =
      wrapping (codes "Failed to get redemption request")
        (read c (c.get_redemption_request request_id))

  unfoldable pub get_user_redemptions : Text → Action (World E) (List ℕ)
  get_user_redemptions user = do
    valid ← lift (validate_address c.ethers user)
    wrapping (codes "Failed to get user redemptions") (read c (c.get_user_redemptions valid))

  unfoldable pub get_balance : Text → Action (World E) UserBalance
  get_balance address = do
    valid ← lift (validate_address c.ethers address)
    wrapping (codes "Failed to get balance") (do
      ss_usd ← read c (c.balance_of c.addresses.ss_usd valid)
      shares ← read c (c.shares_of valid)
      wss_usd ← read c (c.balance_of c.addresses.wss_usd valid)
      wss_usd_value ← read c (c.get_ssdc_value valid)
      pure (record {
        ss_usd = ss_usd;
        ss_usd_shares = shares;
        wss_usd = wss_usd;
        wss_usd_value = wss_usd_value;
      }))

  unfoldable pub get_current_nav : Action (World E) NavReport
  get_current_nav = wrapping (codes "Failed to get NAV") (read c c.get_current_nav)

  unfoldable pub is_nav_fresh : Action (World E) Bool
  is_nav_fresh = wrapping (codes "Failed to check NAV freshness") (read c c.is_nav_fresh)

  unfoldable pub assert_nav_fresh : Action (World E) (Unit {0})
  unfolding is_nav_fresh get_current_nav
  assert_nav_fresh = do
    fresh ← is_nav_fresh
    when (not fresh) (do nav ← get_current_nav; throw_if true (nav_stale nav.timestamp))

  unfoldable pub get_collateral_tokens : Action (World E) (List Text)
  get_collateral_tokens =
      wrapping (codes "Failed to get collateral tokens") (read c c.get_collateral_tokens)

  unfoldable pub is_approved_collateral : Text → Action (World E) Bool
  is_approved_collateral token = do
    valid ← lift (validate_address c.ethers token)
    wrapping (codes "Failed to check collateral approval") (read c (c.is_approved_collateral valid))

  unfoldable pub get_token_info : Text → Action (World E) TokenInfo
  get_token_info token = do
    valid ← lift (validate_address c.ethers token)
    wrapping (codes "Failed to get token info") (read c (c.get_token_info valid))

  unfoldable pub get_wss_usd_share_price : Action (World E) ℕ
  get_wss_usd_share_price = wrapping (codes "Failed to get share price") (read c c.get_share_price)

  unfoldable pub convert_to_wss_usd : ℤ → Action (World E) ℕ
  convert_to_wss_usd amount = do
    lift (validate_positive_amount amount)
    wrapping (codes "Failed to convert to wssUSD") (read c (c.convert_to_shares amount))

  unfoldable pub convert_to_ss_usd : ℤ → Action (World E) ℕ
  convert_to_ss_usd amount = do
    lift (validate_positive_amount amount)
    wrapping (codes "Failed to convert to ssUSD") (read c (c.convert_to_assets amount))

  unfoldable pub get_redemption_delay : Action (World E) ℕ
  get_redemption_delay =
      wrapping (codes "Failed to get redemption delay") (read c c.redemption_delay)

  unfoldable pub are_deposits_paused : Action (World E) Bool
  are_deposits_paused =
      wrapping (codes "Failed to check deposit pause status") (read c c.deposits_paused)

  unfoldable pub are_redemptions_paused : Action (World E) Bool
  are_redemptions_paused =
      wrapping (codes "Failed to check redemption pause status") (read c c.redemptions_paused)

  module _ {Float : Type 0} (zero_apy : Float) (annualised : NavReport → NavReport → Float) where
    -- The APY of a history: from its first to its last report, if the last one is later.
    unfoldable pub apy_of : List NavReport → Float
    apy_of [] = zero_apy
    apy_of (oldest ∷ []) = zero_apy
    apy_of (oldest ∷ (next ∷ more)) =
        let newest = last next more in
        if ltb oldest.timestamp newest.timestamp then annualised oldest newest else zero_apy

    -- A history that cannot be read counts as none.
    unfoldable pub get_apy : Action (World E) Float
    unfolding apy_of
    get_apy w =
        let (r, w') = on_env (c.get_nav_history 30) w in
        elim r [ ok history ↦ (ok (apy_of history), w') | err e ↦ (ok zero_apy, w') ]

    unfoldable pub get_stats : Action (World E) (StablecoinStats Float)
    unfolding get_apy
    get_stats = wrapping (codes "Failed to get stats") (do
      total_supply ← read c c.total_supply
      total_shares ← read c c.total_shares
      nav_per_share ← read c c.get_nav_per_share
      total_collateral ← read c c.get_total_collateral_value
      collateral_ratio ← read c c.get_collateral_ratio
      apy ← get_apy
      pure (record {
        total_supply = total_supply;
        total_shares = total_shares;
        nav_per_share = nav_per_share;
        total_collateral = total_collateral;
        collateral_ratio = collateral_ratio;
        apy = apy;
      }))
