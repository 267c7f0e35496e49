-- ===== src/Math/Headroom.antt =====
-- The collateral headroom of a sponsored escrow (`computeConservativeSponsoredHeadroomAssets`).
use native.Mathlib.Nat.{
  zero-mul, lt_of_mul-lt-mul_right, le_of_eq, mul_comm, zero-div, div-mul-le_self,
  le-div_iff_mul-le, div-le_of_le-mul, lt-div-mul-add, mul-le-mul_right, le_trans,
  div-lt_iff_lt-mul,
}
use set.Prelude.{
  ℕ, zero, suc, ◌+◌, ◌-◌, ◌*◌, ◌/◌, ◌^◌, ◌≤◌, ◌<◌, ◌≡◌, refl, arith, ltb, ==_iff, Bool-cases, ◌==◌,
  if◌then◌else◌, inl, inr,
}

-- The fixed-point unit of the NAV.
abbrev pub ray : ℕ
ray = 10 ^ 27

unfoldable pub saturating_sub : ℕ → ℕ → ℕ
saturating_sub a b = if ltb b a then a - b else 0

unfoldable pub compute_conservative_sponsored_headroom_assets : ℕ → ℕ → ℕ → ℕ
compute_conservative_sponsored_headroom_assets collateral_assets effective_floor_assets nav_ray =
    if nav_ray == 0
    then 0
    else let headroom = saturating_sub collateral_assets effective_floor_assets in
      if headroom == 0
      then 0
      else let spendable_shares = headroom * ray / nav_ray in spendable_shares * nav_ray / ray

-- `saturatingSub` is the truncated subtraction of the natural numbers.
pub saturating_sub_lem : (a b : ℕ) → saturating_sub a b ≡ a - b
unfolding saturating_sub
saturating_sub_lem a b = ground arith

-- Two roundings by `d` and then by `r`, down, against one by `d`.
module _ (d r : ℕ) (hd : 0 < d) (hr : 0 < r) where
  round_trip-le : (h : ℕ) → h * r / d * d / r ≤ h
  round_trip-le h =
      div-le_of_le-mul r (le_trans (div-mul-le_self (h * r) d) (le_of_eq (mul_comm h r)))

  -- An amount that survives the two roundings is bought by shares that are worth no more than `h`.
  round_up-le : (h a : ℕ) → a ≤ h * r / d * d / r → (a * r + (d - 1)) / d * d / r ≤ h
  round_up-le h a p =
      let q : a * r ≤ h * r / d * d = (le-div_iff_mul-le hr).0 p in
      let u : (a * r + (d - 1)) / d < h * r / d + 1 = (div-lt_iff_lt-mul hd).1 (omega arith) in
      let v : (a * r + (d - 1)) / d * d ≤ h * r =
        le_trans (mul-le-mul_right d (omega (arith, u))) (div-mul-le_self (h * r) d) in
      div-le_of_le-mul r (le_trans v (le_of_eq (mul_comm h r)))

  -- The two roundings lose less than the worth of one share and one unit.
  round_trip_loss : (h : ℕ) → h < h * r / d * d / r + (d / r + 2)
  round_trip_loss h = lt_of_mul-lt-mul_right r (
      omega (
        arith,
        lt-div-mul-add {a = h * r} hd,
        lt-div-mul-add {a = h * r / d * d} hr,
        lt-div-mul-add {a = d} hr,
      ))

-- The branches on 0 agree with the general formula, once the NAV is positive.
pub headroom_formula :
    (c f nav : ℕ)
    → 0 < nav
    → compute_conservative_sponsored_headroom_assets c f nav ≡ (c - f) * ray / nav * nav / ray
unfolding compute_conservative_sponsored_headroom_assets
headroom_formula c f nav h = rw saturating_sub_lem (elim (Bool-cases (c - f == 0)) [
  | inl e ↦ let z : c - f ≡ 0 = (==_iff _ _).0 e in rw z (simp (zero-mul, zero-div) (ground arith))
  | inr e ↦ rw e (ground arith)
])

headroom_zero : (c f : ℕ) → compute_conservative_sponsored_headroom_assets c f 0 ≡ 0
unfolding compute_conservative_sponsored_headroom_assets
headroom_zero c f = refl

-- What the contract does with an amount of assets in a sponsored escrow: it locks shares, rounded
-- up, and snapshots their worth, rounded down.
abbrev pub locked_shares : ℕ → ℕ → ℕ
locked_shares nav assets = (assets * ray + (nav - 1)) / nav

abbrev pub snapshot_assets : ℕ → ℕ → ℕ
snapshot_assets nav shares = shares * nav / ray

-- The headroom is never more than the collateral above the floor, it falls short of that by no
-- more than the worth of one share and one unit, and it is 0 at a NAV of 0.
pub headroom_tight :
    (collateral floor nav : ℕ)
    → let room = compute_conservative_sponsored_headroom_assets collateral floor nav in
      (room ≤ collateral - floor)
      × (0 < nav → collateral - floor < room + (nav / ray + 2))
      × (nav ≡ 0 → room ≡ 0)
headroom_tight c f zero =
    (rw (headroom_zero c f) (omega arith), (λ h. elim h [ ]), λ e. headroom_zero c f)
headroom_tight c f (suc n) = rw (headroom_formula c f (suc n) (omega arith)) (
  round_trip-le (suc n) ray (omega arith) (omega arith) (c - f),
  (λ h. round_trip_loss (suc n) ray (omega arith) (omega arith) (c - f)),
  λ e. absurd (omega arith),
)

-- Every amount within the headroom can be reserved by the contract without breaching the floor: the
-- shares that it locks, rounded up, are snapshotted at no more than the collateral above the floor.
pub headroom_safe :
    (collateral floor nav assets : ℕ)
    → 0 < nav
    → assets ≤ compute_conservative_sponsored_headroom_assets collateral floor nav
    → snapshot_assets nav (locked_shares nav assets) ≤ collateral - floor
headroom_safe c f nav a h p =
    round_up-le nav ray h (omega arith) (c - f) a (rw (headroom_formula c f nav h) at p)
