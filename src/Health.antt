-- ===== src/Health.antt =====
-- sdk/src/contracts/health.ts, `performSystemHealthCheck`, with the summaries that it reads from the files
-- beside it. A contract is one action for each view that is read; a contract that is not configured is
-- `none`. The checks, which the code starts together, run one after another. The object of the
-- components is the list of its entries in the order they are set; an entry keeps the whole summary, of
-- which the code shows some fields.
pub mod Overall
pub mod Reads
pub mod Rules
use set.Prelude.{
  ℕ, ◌+◌, ◌-◌, ◌*◌, ◌/◌, Bool, true, false, not, ◌&&◌, Option, none, some, List, [], ◌∷◌, ◌++◌, ltb,
  leb, ◌==◌, if◌then◌else◌,
}
use set.Prelude.Text.{Text, codes}
use set.Prelude.Int.{ℤ, pos, sub_ℕ, leb_ℤ}
use set.Errors.{Thrown, sdk, agent, error, value}
use set.Effects.{Result, ok, err, Action, pure, ◌>>=◌}

pub record RegistryStats : Type 0 where
  pub commitment_count : ℕ
  pub proof_count : ℕ
  pub is_paused : Bool
  pub is_strict_mode : Bool

pub record PaymasterStatus : Type 0 where
  pub balance : ℕ
  pub total_sponsored : ℕ
  pub tier_count : ℕ
  pub treasury : Text

pub record SponsorshipTier : Type 0 where
  pub tier_id : ℕ
  pub name : Text
  pub max_per_tx : ℕ
  pub max_per_day : ℕ
  pub max_per_month : ℕ

pub record TreasuryVaultHealth : Type 0 where
  pub collateral_value : ℕ
  pub ss_usd_supply : ℕ
  pub collateralization_ratio : ℕ
  pub is_deposits_enabled : Bool
  pub is_redemptions_enabled : Bool
  pub pending_redemptions_count : ℕ

pub record NavOracleHealth : Type 0 where
  pub is_fresh : Bool
  pub has_history : Bool
  pub has_attestor : Bool
  pub ss_usd_linked : Bool
  pub health_score : ℕ

pub record MempoolStatus : Type 0 where
  pub pending_count : ℕ
  pub queue_capacity : ℕ
  pub submitted : ℕ
  pub executed : ℕ
  pub failed : ℕ
  pub expired : ℕ
  pub is_paused : Bool
  pub current_max_queue_size : ℕ

pub record ForcedInclusionStatus : Type 0 where
  pub pending_count : ℕ
  pub total_forced : ℕ
  pub total_included : ℕ
  pub total_expired : ℕ
  pub bonds_locked : ℕ
  pub is_paused : Bool
  pub circuit_breaker_capacity : ℕ

pub record AttestationStats : Type 0 where
  pub total_commitments : ℕ
  pub total_verifications : ℕ
  pub failed_verifications : ℕ
  pub last_commitment_time : ℕ

pub record TimelockConfig : Type 0 where
  pub min_delay : ℕ
  pub max_delay : ℕ
  pub current_environment : ℕ

pub record ThresholdRegistryStatus : Type 0 where
  pub total_keypers : ℕ
  pub active_count : ℕ
  pub current_threshold : ℕ
  pub epoch : ℕ
  pub dkg_phase : ℕ
  pub is_paused : Bool

-- The summaries, one for each component.
pub data Summary : Type 0 where
  registry : RegistryStats → Summary
  paymaster : PaymasterStatus → List SponsorshipTier → Summary
  treasury_vault : TreasuryVaultHealth → Summary
  nav_oracle : NavOracleHealth → Summary
  mempool : MempoolStatus → ℕ → Summary
  forced_inclusion : ForcedInclusionStatus → ℕ → Summary
  attestation : AttestationStats → ℤ → Summary
  timelock : TimelockConfig → Summary
  threshold_registry : ThresholdRegistryStatus → Summary

-- `getAttestationSuccessRate`; a quotient of `bigint`s is truncated.
abbrev pub success_rate : AttestationStats → ℤ
success_rate stats =
    let total = stats.total_verifications in
    let failures = stats.failed_verifications in
    if total == 0
    then pos 10000
    else if leb failures total
    then pos ((total - failures) * 10000 / total)
    else sub_ℕ 0 ((failures - total) * 10000 / total)

-- `isHealthy` of the summaries.
abbrev pub paymaster_healthy : PaymasterStatus → Bool
paymaster_healthy status = ltb 0 status.balance && ltb 0 status.tier_count

abbrev pub mempool_healthy : MempoolStatus → Bool
mempool_healthy status = not status.is_paused && ltb 0 status.queue_capacity

abbrev pub forced_inclusion_healthy : ForcedInclusionStatus → Bool
forced_inclusion_healthy status = not status.is_paused && ltb 0 status.circuit_breaker_capacity

abbrev pub attestation_healthy : AttestationStats → ℤ → Bool
attestation_healthy stats rate = ltb 0 stats.total_commitments && leb_ℤ (pos 9500) rate

abbrev pub timelock_healthy : TimelockConfig → Bool
timelock_healthy config = ltb 0 config.min_delay

-- `healthy` of the component.
unfoldable pub is_healthy : Summary → Bool
is_healthy (registry stats) = not stats.is_paused
is_healthy (paymaster status tiers) = paymaster_healthy status
is_healthy (treasury_vault health) =
    health.is_deposits_enabled && leb 10000 health.collateralization_ratio
is_healthy (nav_oracle health) = health.is_fresh && leb 80 health.health_score
is_healthy (mempool status rate) = mempool_healthy status
is_healthy (forced_inclusion status rate) = forced_inclusion_healthy status
is_healthy (attestation stats rate) = attestation_healthy stats rate
is_healthy (timelock config) = timelock_healthy config
is_healthy (threshold_registry status) =
    not status.is_paused && leb status.current_threshold status.active_count

-- Whether the check leaves `overallHealthy` as it is.
unfoldable pub keeps_overall : Summary → Bool
unfolding is_healthy
keeps_overall (nav_oracle health) = health.is_fresh
keeps_overall summary = is_healthy summary

pub data Component : Type 0 where
  registry paymaster treasury_vault nav_oracle mempool forced_inclusion attestation timelock :
      Component
  threshold_registry : Component

abbrev pub label : Component → Text
label Component.registry = codes "Registry: "
label Component.paymaster = codes "Paymaster: "
label Component.treasury_vault = codes "TreasuryVault: "
label Component.nav_oracle = codes "NAVOracle: "
label Component.mempool = codes "Mempool: "
label Component.forced_inclusion = codes "ForcedInclusion: "
label Component.attestation = codes "Attestation: "
label Component.timelock = codes "Timelock: "
label Component.threshold_registry = codes "ThresholdRegistry: "

pub record ComponentHealth : Type 0 where
  pub component : Component
  pub healthy : Bool
  pub summary : Option Summary

pub record SystemHealthStatus : Type 0 where
  pub timestamp : ℕ
  pub overall_healthy : Bool
  pub components : List ComponentHealth
  pub errors : List Text

-- `e instanceof Error ? e.message : 'Unknown error'`
abbrev pub error_text : Thrown → Text
error_text (sdk e) = e.message
error_text (agent e) = e.message
error_text (error m) = m
error_text (value v) = codes "Unknown error"

-- The end of a `try`, and its `catch`.
abbrev pub succeeded : Component → Summary → SystemHealthStatus → SystemHealthStatus
succeeded component summary result = record result {
  components =
      result.components
      ++ (record { component = component; healthy = is_healthy summary; summary = some summary }
          ∷ []);
  overall_healthy = if keeps_overall summary then result.overall_healthy else false;
}

abbrev pub failed : Component → Thrown → SystemHealthStatus → SystemHealthStatus
failed component e result = record result {
  components =
      result.components ++ (record { component = component; healthy = false; summary = none } ∷ []);
  errors = result.errors ++ ((label component ++ error_text e) ∷ []);
  overall_healthy = false;
}

abbrev pub Check : Type 0 → Type 0
Check S = Component × Action S Summary

module _ {S : Type 0} where
  unfoldable pub run_check : Check S → SystemHealthStatus → S → SystemHealthStatus × S
  unfolding is_healthy keeps_overall
  run_check (component, check) result s =
      let (r, s') = check s in
      elim r [
        | ok summary ↦ (succeeded component summary result, s')
        | err e ↦ (failed component e result, s')
      ]

  unfoldable pub run_checks : List (Check S) → SystemHealthStatus → S → SystemHealthStatus × S
  unfolding run_check
  run_checks [] result s = (result, s)
  run_checks (check ∷ checks) result s =
      let (result', s') = run_check check result s in run_checks checks result' s'

-- The views of the contracts that are configured.
pub record SystemHealthConfig (S : Type 0) : Type 0 where
  pub registry : Option (Action S RegistryStats)
  pub paymaster : Option (Action S PaymasterStatus × Action S (List SponsorshipTier))
  pub treasury_vault : Option (Action S TreasuryVaultHealth)
  pub nav_oracle : Option (Action S NavOracleHealth)
  pub mempool : Option (Action S MempoolStatus × Action S ℕ)
  pub forced_inclusion : Option (Action S ForcedInclusionStatus × Action S ℕ)
  pub attestation : Option (Action S AttestationStats)
  pub timelock : Option (Action S TimelockConfig)
  pub threshold_registry : Option (Action S ThresholdRegistryStatus)

module _ {S : Type 0} where
  abbrev pub map_action : {A B : Type 0} → (A → B) → Action S A → Action S B
  map_action f m = m >>= λ a. pure (f a)

  abbrev pub both_actions : {A B C : Type 0} → (A → B → C) → Action S A × Action S B → Action S C
  both_actions f (m, k) = m >>= λ a. k >>= λ b. pure (f a b)

  -- The statistics are read once for the summary and once for the rate.
  abbrev pub attestation_summary : Action S AttestationStats → Action S Summary
  attestation_summary get_stats = get_stats >>= λ stats.
      get_stats >>= λ again. pure (Summary.attestation stats (success_rate again))

  -- `if (config.x) checks.push(…)`
  abbrev pub push :
      {A : Type 0} → Component → (A → Action S Summary) → Option A → List (Check S) → List (Check S)
  push component summary none checks = checks
  push component summary (some contract) checks = (component, summary contract) ∷ checks

  unfoldable pub checks_of : SystemHealthConfig S → List (Check S)
  checks_of config = push Component.registry (map_action Summary.registry) config.registry (
      push Component.paymaster (both_actions Summary.paymaster) config.paymaster (
        push Component.treasury_vault (map_action Summary.treasury_vault) config.treasury_vault (
          push Component.nav_oracle (map_action Summary.nav_oracle) config.nav_oracle (
            push Component.mempool (both_actions Summary.mempool) config.mempool (
              push Component.forced_inclusion (both_actions Summary.forced_inclusion)
                config.forced_inclusion
                (push Component.attestation attestation_summary config.attestation (
                  push Component.timelock (map_action Summary.timelock) config.timelock (
                    push Component.threshold_registry (map_action Summary.threshold_registry)
                      config.threshold_registry []))))))))

  -- `now` is `Date.now()`.
  unfoldable pub perform_system_health_check : ℕ → SystemHealthConfig S → S → SystemHealthStatus × S
  unfolding run_checks checks_of
  perform_system_health_check now config =
      run_checks (checks_of config)
        (record { timestamp = now; overall_healthy = true; components = []; errors = [] })
