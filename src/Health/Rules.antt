-- ===== src/Health/Rules.antt =====
-- When a component is healthy, and when it lets the system be.
use set.Prelude.{◌≤◌, ◌<◌, ◌≡◌, ◌↔◌, true, false, arith}
use set.Prelude.Int.{pos, ◌≤ℤ◌}
use set.Health.{Summary, is_healthy, keeps_overall}

-- When a component is healthy.
abbrev pub Fine : Summary → Type 0
Fine (Summary.registry stats) = stats.is_paused ≡ false
Fine (Summary.paymaster status tiers) = (0 < status.balance) × (0 < status.tier_count)
Fine (Summary.treasury_vault health) =
    (health.is_deposits_enabled ≡ true) × (10000 ≤ health.collateralization_ratio)
Fine (Summary.nav_oracle health) = (health.is_fresh ≡ true) × (80 ≤ health.health_score)
Fine (Summary.mempool status rate) = (status.is_paused ≡ false) × (0 < status.queue_capacity)
Fine (Summary.forced_inclusion status rate) =
    (status.is_paused ≡ false) × (0 < status.circuit_breaker_capacity)
Fine (Summary.attestation stats rate) = (0 < stats.total_commitments) × (pos 9500 ≤ℤ rate)
Fine (Summary.timelock config) = 0 < config.min_delay
Fine (Summary.threshold_registry status) =
    (status.is_paused ≡ false) × (status.current_threshold ≤ status.active_count)

-- When it does not make the system unhealthy: the oracle needs to be fresh only.
abbrev pub FineForAll : Summary → Type 0
FineForAll (Summary.nav_oracle health) = health.is_fresh ≡ true
FineForAll summary = Fine summary

pub is_healthy_iff : (summary : Summary) → (is_healthy summary ≡ true) ↔ Fine summary
unfolding is_healthy
is_healthy_iff (Summary.registry stats) = ground arith
is_healthy_iff (Summary.paymaster status tiers) = ground arith
is_healthy_iff (Summary.treasury_vault health) = ground arith
is_healthy_iff (Summary.nav_oracle health) = ground arith
is_healthy_iff (Summary.mempool status rate) = ground arith
is_healthy_iff (Summary.forced_inclusion status rate) = ground arith
is_healthy_iff (Summary.attestation stats rate) = ground arith
is_healthy_iff (Summary.timelock config) = ground arith
is_healthy_iff (Summary.threshold_registry status) = ground arith

pub keeps_overall_iff : (summary : Summary) → (keeps_overall summary ≡ true) ↔ FineForAll summary
unfolding keeps_overall
keeps_overall_iff (Summary.registry stats) = is_healthy_iff (Summary.registry stats)
keeps_overall_iff (Summary.paymaster status tiers) = is_healthy_iff (Summary.paymaster status tiers)
keeps_overall_iff (Summary.treasury_vault health) = is_healthy_iff (Summary.treasury_vault health)
keeps_overall_iff (Summary.nav_oracle health) = ((λ h. h), λ h. h)
keeps_overall_iff (Summary.mempool status rate) = is_healthy_iff (Summary.mempool status rate)
keeps_overall_iff (Summary.forced_inclusion status rate) =
    is_healthy_iff (Summary.forced_inclusion status rate)
keeps_overall_iff (Summary.attestation stats rate) = is_healthy_iff (Summary.attestation stats rate)
keeps_overall_iff (Summary.timelock config) = is_healthy_iff (Summary.timelock config)
keeps_overall_iff (Summary.threshold_registry status) =
    is_healthy_iff (Summary.threshold_registry status)
