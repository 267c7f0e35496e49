-- ===== src/Math/Nav.antt =====
-- The projection of the NAV (`projectNAVRayFromBase`). The rate is an `int256`; a projection below
-- 0 is cut to 0, so the result is a natural number.
use set.Prelude.{ℕ, ◌+◌, ◌-◌, ◌*◌, ◌≡◌, arith, ltb, leb, if◌then◌else◌}
use set.Prelude.Int.{sub_ℕ, ℤ, pos, pos_part, ◌+ℤ◌, ◌*ℤ◌, ltb_ℤ}

unfoldable pub project_nav_ray_from_base : ℕ → ℕ → ℕ → ℤ → ℕ → ℕ
project_nav_ray_from_base nav0_ray t0_seconds target_timestamp_seconds rate_per_second_ray
      max_staleness_seconds =
    if leb target_timestamp_seconds t0_seconds
    then nav0_ray
    else let elapsed_seconds = target_timestamp_seconds - t0_seconds in
      let bounded_seconds =
        if ltb elapsed_seconds max_staleness_seconds
        then elapsed_seconds
        else max_staleness_seconds in
      let projected_nav = pos nav0_ray +ℤ rate_per_second_ray *ℤ pos bounded_seconds in
      if ltb_ℤ (pos 0) projected_nav then pos_part projected_nav else 0

abbrev min : ℕ → ℕ → ℕ
min a b = if ltb a b then a else b

-- The seconds for which a projection runs: none before `t0`, at most the staleness limit after it.
abbrev pub projection_seconds : ℕ → ℕ → ℕ → ℕ
projection_seconds t0 target max_staleness = min (target - t0) max_staleness

-- The projected NAV is linear in the seconds projected: at a rate of `r` it is the base plus `r` for
-- each second, at a rate of `-r` the base less `r` for each second, cut at 0.
pub project_nav-linear :
    (nav t0 target r stale : ℕ)
    → (project_nav_ray_from_base nav t0 target (pos r) stale
        ≡ nav + r * projection_seconds t0 target stale)
      × (project_nav_ray_from_base nav t0 target (sub_ℕ 0 r) stale
          ≡ nav - r * projection_seconds t0 target stale)
unfolding project_nav_ray_from_base
project_nav-linear nav t0 target r stale = (grind arith, grind arith)
