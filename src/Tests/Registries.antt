-- ===== src/Tests/Registries.antt =====
-- A tree of two leaves, a batch id, and the health of an oracle that is fresh with a low score.
use set.Prelude.{ℕ, ◌+◌, ◌*◌, ◌≡◌, ◌⊎◌, ◌↔◌, refl, true, false, none, some, [], ◌∷◌, ◌++◌, arith}
use set.Prelude.Text.{Text, codes, to_lower_case}
use set.Errors.{value}
use set.Effects.{Result, ok, err}
use set.Validation.{validate_bytes32}
use set.Registry.{verify_merkle_proof, batch_id_from_uuid, normalized}
use set.Registry.Merkle.{
  MerkleTree, proof_of, Collision, verify_merkle_proof-proof_of, verify_merkle_proof-Collision,
}
use set.Registry.BatchIds.{batch_id_from_uuid-injective}
use set.Health.{Component, NavOracleHealth, SystemHealthConfig, perform_system_health_check}
use set.Health.Overall.{Answered, AllFine, perform_system_health_check-Answered}

-- Two texts are hashed to both of them.
abbrev hash_both : Text → Text → Result Text
hash_both a b = ok (a ++ b)

abbrev letters : ℕ → Text
letters i = (b'a' + i) ∷ []

abbrev two_leaves : MerkleTree hash_both 1 letters (codes "ab")
two_leaves = (λ j. letters (2 * j) ++ letters (2 * j + 1), λ j h. refl, refl)

verify_merkle_proof-proof_of_example :
    verify_merkle_proof hash_both
      (codes "b")
      (proof_of hash_both 1 letters (codes "ab") two_leaves 1)
      1
      (codes "ab")
    ≡ ok true
verify_merkle_proof-proof_of_example =
    verify_merkle_proof-proof_of hash_both 1 letters (codes "ab") two_leaves 1 (omega arith)

accepted_b : verify_merkle_proof hash_both (codes "b") (codes "a" ∷ []) 1 (codes "AB") ≡ ok true
unfolding verify_merkle_proof set.Registry.computed_root to_lower_case
accepted_b = refl

accepted_root : verify_merkle_proof hash_both (codes "b") (codes "a" ∷ []) 1 (codes "ab") ≡ ok true
unfolding verify_merkle_proof set.Registry.computed_root to_lower_case
accepted_root = refl

verify_merkle_proof-Collision_example :
    (to_lower_case (codes "b") ≡ to_lower_case (codes "b")) ⊎ Collision hash_both
verify_merkle_proof-Collision_example =
    verify_merkle_proof-Collision hash_both 1 letters (codes "ab") two_leaves 1 (omega arith)
      (codes "b") (codes "a" ∷ []) refl accepted_root

abbrev small_uuid : Text
small_uuid = codes "0190a5f2-7c3b-7d4e-8f60-a1b2c3d4e5f6"

abbrev large_uuid : Text
large_uuid = codes " 0190A5F2-7C3B-7D4E-8F60-A1B2C3D4E5F6"

abbrev batch_id : Text
batch_id = codes "0x0190a5f27c3b7d4e8f60a1b2c3d4e5f600000000000000000000000000000000"

small_accepted : batch_id_from_uuid small_uuid ≡ ok batch_id
unfolding batch_id_from_uuid set.Registry.remove_dashes to_lower_case
small_accepted = refl

large_accepted : batch_id_from_uuid large_uuid ≡ ok batch_id
unfolding batch_id_from_uuid set.Registry.remove_dashes to_lower_case
large_accepted = refl

batch_id_from_uuid-injective_example :
    (normalized large_uuid ≡ normalized small_uuid) × (validate_bytes32 batch_id ≡ ok batch_id)
batch_id_from_uuid-injective_example =
    batch_id_from_uuid-injective large_uuid small_uuid batch_id large_accepted small_accepted

abbrev low_oracle : NavOracleHealth
low_oracle = record {
  is_fresh = true;
  has_history = true;
  has_attestor = false;
  ss_usd_linked = true;
  health_score = 50;
}

abbrev oracle_only : SystemHealthConfig ℕ
oracle_only = record {
  registry = none;
  paymaster = none;
  treasury_vault = none;
  nav_oracle = some (λ s. (ok low_oracle, s + 1));
  mempool = none;
  forced_inclusion = none;
  attestation = none;
  timelock = none;
  threshold_registry = none;
}

abbrev with_failing_registry : SystemHealthConfig ℕ
with_failing_registry = record oracle_only {
  registry = some (λ s. (err (value (codes "offline")), s + 1));
}

-- The component is unhealthy, and the system healthy.
oracle_overall : (perform_system_health_check 0 oracle_only 0).0.overall_healthy ≡ true
unfolding perform_system_health_check
oracle_overall = refl

failing_errors :
    (perform_system_health_check 0 with_failing_registry 0).0.errors
    ≡ codes "Registry: Unknown error" ∷ []
unfolding perform_system_health_check
failing_errors = refl

perform_system_health_check-Answered_example :
    let (result, t) = perform_system_health_check 0 with_failing_registry 0 in
    Answered with_failing_registry
      (Component.registry ∷ Component.nav_oracle ∷ [])
      0
      result.components
      result.errors
      t
    × ((result.overall_healthy ≡ true) ↔ AllFine result.components)
perform_system_health_check-Answered_example =
    perform_system_health_check-Answered 0 with_failing_registry 0
