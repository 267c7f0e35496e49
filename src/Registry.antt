-- ===== src/Registry.antt =====
-- sdk/src/contracts/registry.ts: proofs that an event is in a batch, the ids of batches, and the
-- commitment of a batch. keccak256 of two packed bytes32 is the parameter `hash_pair`, which throws for
-- texts that are not 32 bytes; the contract is one action for each view.
pub mod BatchIds
pub mod Merkle
use set.Prelude.{
  ℕ, zero, suc, not, ◌&&◌, ◌||◌, ◌++◌, leb, ◌+◌, ◌*◌, ◌/◌, ◌%◌, Bool, true, false, Option, none,
  some, List, [], ◌∷◌, ◌==◌, if◌then◌else◌,
}
use set.Prelude.Text.{Text, codes, text_eq, to_lower_case}
use set.Agent.Request.{is_white}
use set.Errors.{error}
use set.Validation.{is_hex_digit, is_empty}
use set.Effects.{Result, ok, err, Action, pure, ◌>>=◌}

-- `computedHash.toLowerCase() === expectedRoot.toLowerCase()`
abbrev pub same_hash : Text → Text → Bool
same_hash a b = text_eq (to_lower_case a) (to_lower_case b)

module _ (hash_pair : Text → Text → Result Text) where
  unfoldable pub compute_tenant_store_key : Text → Text → Result Text
  compute_tenant_store_key tenant_id store_id = hash_pair tenant_id store_id

  -- One round of the loop of `verifyMerkleProof`.
  abbrev pub hash_with : ℕ → Text → Text → Result Text
  hash_with index computed proof_element =
      if index % 2 == 0 then hash_pair computed proof_element else hash_pair proof_element computed

  -- The loop.
  unfoldable pub computed_root : Text → List Text → ℕ → Result Text
  computed_root computed [] index = ok computed
  computed_root computed (proof_element ∷ proof) index =
      elim (hash_with index computed proof_element) [
        | ok next ↦ computed_root next proof (index / 2)
        | err e ↦ err e
      ]

  unfoldable pub verify_merkle_proof : Text → List Text → ℕ → Text → Result Bool
  unfolding computed_root
  verify_merkle_proof leaf proof index expected_root = elim (computed_root leaf proof index) [
    | ok root ↦ ok (same_hash root expected_root)
    | err e ↦ err e
  ]

-- The parts of `UUID_PATTERN`, which is matched without case.
pub data UuidPart : Type 0 where
  hex dash version variant : UuidPart

abbrev pub fits : UuidPart → ℕ → Bool
fits hex c = is_hex_digit c
fits dash c = c == b'-'
fits version c = leb b'1' c && leb c b'8'
fits variant c = c == b'8' || c == b'9' || c == b'a' || c == b'b' || c == b'A' || c == b'B'

abbrev pub times : {A : Type 0} → ℕ → A → List A
times zero a = []
times (suc n) a = a ∷ times n a

abbrev pub uuid_pattern : List UuidPart
uuid_pattern =
    times 8 hex
    ++ (dash ∷ times 4 hex)
    ++ (dash ∷ version ∷ times 3 hex)
    ++ (dash ∷ variant ∷ times 3 hex)
    ++ (dash ∷ times 12 hex)

abbrev pub matches : List UuidPart → Text → Bool
matches [] [] = true
matches (p ∷ ps) (c ∷ s) = fits p c && matches ps s
matches _ _ = false

-- `trim` at the start, and at the end.
abbrev pub trim_start : Text → Text
trim_start [] = []
trim_start (c ∷ s) = let rest = trim_start s in if is_white c then rest else c ∷ s

abbrev pub trim_end : Text → Text
trim_end [] = []
trim_end (c ∷ s) = let rest = trim_end s in if is_white c && is_empty rest then [] else c ∷ rest

abbrev pub normalized : Text → Text
normalized uuid = to_lower_case (trim_end (trim_start uuid))

-- `normalized.replace(/-/g, "")`
unfoldable pub remove_dashes : Text → Text
remove_dashes [] = []
remove_dashes (c ∷ s) = let rest = remove_dashes s in if c == b'-' then rest else c ∷ rest

unfoldable pub batch_id_from_uuid : Text → Result Text
unfolding remove_dashes
batch_id_from_uuid uuid =
    if not (matches uuid_pattern (normalized uuid))
    then err (error (codes "Invalid batch UUID: " ++ uuid))
    else ok (codes "0x" ++ (remove_dashes (normalized uuid) ++ times 32 b'0'))

pub record BatchCommitment : Type 0 where
  pub events_root : Text
  pub prev_state_root : Text
  pub new_state_root : Text
  pub sequence_start : ℕ
  pub sequence_end : ℕ
  pub event_count : ℕ
  pub timestamp : ℕ
  pub submitter : Text

abbrev pub unless_empty : BatchCommitment → Option BatchCommitment
unless_empty commitment = if commitment.timestamp == 0 then none else some commitment

unfoldable pub fetch_batch_commitment :
    {S : Type 0} → (Text → Action S BatchCommitment) → Text → Action S (Option BatchCommitment)
fetch_batch_commitment get_batch_commitment batch_id =
    get_batch_commitment batch_id >>= λ commitment. pure (unless_empty commitment)
