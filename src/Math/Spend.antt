-- ===== src/Math/Spend.antt =====
-- The spending budget of an agent (`computeAvailableSpendAssets`) against the policy's rules.
use set.Prelude.{
  ℕ, ◌+◌, ◌-◌, ◌^◌, ◌≤◌, ◌<◌, ◌≡◌, ◌↔◌, ◌⊎◌, Bool, true, not, ◌||◌, arith, ltb, ◌==◌, if◌then◌else◌,
}
use set.Math.Headroom.{saturating_sub, compute_conservative_sponsored_headroom_assets}

abbrev pub max_asset_amount : ℕ
max_asset_amount = 2 ^ 256 - 1

pub record AvailableSpendInputs : Type 0 where
  pub collateral_assets : ℕ
  pub effective_floor_assets : ℕ
  pub nav_ray : ℕ
  pub per_tx_limit_assets : ℕ
  pub daily_limit_assets : ℕ
  pub spent_today_assets : ℕ
  pub policy_exists : Bool
  pub session_active : Bool

unfoldable pub compute_available_spend_assets : AvailableSpendInputs → ℕ
compute_available_spend_assets i =
    if not i.policy_exists || not i.session_active
    then 0
    else let collateral_cap =
        compute_conservative_sponsored_headroom_assets i.collateral_assets i.effective_floor_assets
          i.nav_ray in
      if collateral_cap == 0
      then 0
      else let per_tx_cap =
          if i.per_tx_limit_assets == 0 then max_asset_amount else i.per_tx_limit_assets in
        let daily_remaining =
          if i.daily_limit_assets == 0
          then max_asset_amount
          else saturating_sub i.daily_limit_assets i.spent_today_assets in
        let policy_cap = if ltb per_tx_cap daily_remaining then per_tx_cap else daily_remaining in
        if ltb collateral_cap policy_cap then collateral_cap else policy_cap

-- The rules that a payment has to meet, one by one: a limit of 0 means that there is none.
pub record IsAllowedSpend (i : AvailableSpendInputs) (assets : ℕ) : Type 0 where
  pub policy : i.policy_exists ≡ true
  pub session : i.session_active ≡ true
  pub collateral :
      assets
      ≤ compute_conservative_sponsored_headroom_assets i.collateral_assets i.effective_floor_assets
          i.nav_ray
  pub per_tx : (i.per_tx_limit_assets ≡ 0) ⊎ (assets ≤ i.per_tx_limit_assets)
  pub daily : (i.daily_limit_assets ≡ 0) ⊎ (i.spent_today_assets + assets ≤ i.daily_limit_assets)

-- For a positive amount that a `uint256` holds, being within the available spend and meeting every
-- rule of the policy, the session and the collateral are the same.
pub available_spend_iff :
    (i : AvailableSpendInputs) (assets : ℕ)
    → 0 < assets
    → assets < 2 ^ 256
    → (assets ≤ compute_available_spend_assets i) ↔ IsAllowedSpend i assets
unfolding compute_available_spend_assets saturating_sub
available_spend_iff i a p b = (λ h. ground arith, λ h. ground arith)
