-- ===== src/Listings.antt =====
-- The functions of sdk/src/contracts/timelock.ts, forced-inclusion.ts and paymaster.ts that sort a list by
-- what a contract answers for it. An answer is an array for each question, which may be of another length
-- than the list: what is beyond its end is `undefined`, which is no case of a test.
pub mod Sorted
use set.Prelude.{
  ℕ, zero, suc, ◌+◌, ◌/◌, Bool, true, false, not, ◌&&◌, Option, none, some, List, [], ◌∷◌, length,
  ltb, ◌==◌, if◌then◌else◌,
}
use set.Prelude.Text.{Text}
use set.Effects.{Action, pure, ◌>>=◌}
use set.Health.{SponsorshipTier}

-- The first element of an array, and the array without it.
abbrev pub first : {A : Type 0} → List A → Option A
first [] = none
first (a ∷ s) = some a

abbrev pub rest_of : {A : Type 0} → List A → List A
rest_of [] = []
rest_of (a ∷ s) = s

-- `if (flags[i])`
abbrev pub is_set : Option Bool → Bool
is_set none = false
is_set (some b) = b

-- What the timelock answers for a list of operations.
pub record OperationStatuses : Type 0 where
  pub is_pending : List Bool
  pub is_ready : List Bool
  pub is_done : List Bool
  pub timestamps : List ℕ

abbrev pub next_statuses : OperationStatuses → OperationStatuses
next_statuses s = record {
  is_pending = rest_of s.is_pending;
  is_ready = rest_of s.is_ready;
  is_done = rest_of s.is_done;
  timestamps = rest_of s.timestamps;
}

pub record PendingOperationsSummary : Type 0 where
  pub pending : List (Text × Option ℕ)
  pub ready : List Text
  pub executed : List Text

-- The loop of `categorizeTimelockOperations`. The lists are pushed from the first to the last operation.
unfoldable pub categorize_operations :
    List Text → OperationStatuses → List ℕ → PendingOperationsSummary
categorize_operations [] statuses time_remaining = record {
  pending = [];
  ready = [];
  executed = [];
}
categorize_operations (id ∷ ids) statuses time_remaining =
    let rest = categorize_operations ids (next_statuses statuses) (rest_of time_remaining) in
    if is_set (first statuses.is_done)
    then record rest { executed = id ∷ rest.executed }
    else if is_set (first statuses.is_ready)
    then record rest { ready = id ∷ rest.ready }
    else if is_set (first statuses.is_pending)
    then record rest { pending = (id, first time_remaining) ∷ rest.pending }
    else rest

unfoldable pub ready_operations : List Text → List Bool → List Text
ready_operations [] is_ready = []
ready_operations (id ∷ ids) is_ready =
    let rest = ready_operations ids (rest_of is_ready) in
    if is_set (first is_ready) then id ∷ rest else rest

-- What the forced inclusion answers for a list of transactions.
pub record ForcedStatuses : Type 0 where
  pub resolved : List Bool
  pub expired : List Bool

abbrev pub next_forced : ForcedStatuses → ForcedStatuses
next_forced s = record { resolved = rest_of s.resolved; expired = rest_of s.expired }

unfoldable pub expired_txs : List Text → ForcedStatuses → List Text
expired_txs [] statuses = []
expired_txs (id ∷ ids) statuses =
    let rest = expired_txs ids (next_forced statuses) in
    if not (is_set (first statuses.resolved)) && is_set (first statuses.expired)
    then id ∷ rest
    else rest

pub record ForcedTxs : Type 0 where
  pub pending : List Text
  pub resolved : List Text
  pub expired : List Text

unfoldable pub categorize_forced : List Text → ForcedStatuses → ForcedTxs
categorize_forced [] statuses = record { pending = []; resolved = []; expired = [] }
categorize_forced (id ∷ ids) statuses =
    let rest = categorize_forced ids (next_forced statuses) in
    if is_set (first statuses.resolved)
    then record rest { resolved = id ∷ rest.resolved }
    else if is_set (first statuses.expired)
    then record rest { expired = id ∷ rest.expired }
    else record rest { pending = id ∷ rest.pending }

module _ {S : Type 0} where
  unfoldable pub categorize_timelock_operations :
      (List Text → Action S OperationStatuses)
      → (List Text → Action S (List ℕ))
      → List Text
      → Action S PendingOperationsSummary
  unfolding categorize_operations
  categorize_timelock_operations get_operation_status get_time_remaining ids =
      get_operation_status ids >>= λ statuses. get_time_remaining ids >>= λ time_remaining.
      pure (categorize_operations ids statuses time_remaining)

  unfoldable pub find_ready_timelock_operations :
      (List Text → Action S OperationStatuses) → List Text → Action S (List Text)
  unfolding ready_operations
  find_ready_timelock_operations get_operation_status ids =
      get_operation_status ids >>= λ statuses. pure (ready_operations ids statuses.is_ready)

  unfoldable pub find_expired_forced_txs :
      (List Text → Action S ForcedStatuses) → List Text → Action S (List Text)
  unfolding expired_txs
  find_expired_forced_txs get_statuses ids =
      get_statuses ids >>= λ statuses. pure (expired_txs ids statuses)

  unfoldable pub categorize_forced_txs :
      (List Text → Action S ForcedStatuses) → List Text → Action S ForcedTxs
  unfolding categorize_forced
  categorize_forced_txs get_statuses ids =
      get_statuses ids >>= λ statuses. pure (categorize_forced ids statuses)

pub record MerchantDetails : Type 0 where
  pub active : Bool
  pub tier_id : ℕ
  pub spent_today : ℕ
  pub spent_this_month : ℕ
  pub total_sponsored : ℕ

-- `tiers.find(t => t.tierId === tierId) || null`
unfoldable pub find_tier : ℕ → List SponsorshipTier → Option SponsorshipTier
find_tier tier_id [] = none
find_tier tier_id (tier ∷ tiers) =
    if tier.tier_id == tier_id then some tier else find_tier tier_id tiers

pub record TierLimits : Type 0 where
  pub max_per_tx : ℕ
  pub max_per_day : ℕ
  pub max_per_month : ℕ
  pub tier_name : Text

abbrev pub limits_of : Option SponsorshipTier → Option TierLimits
limits_of none = none
limits_of (some tier) = some (record {
  max_per_tx = tier.max_per_tx;
  max_per_day = tier.max_per_day;
  max_per_month = tier.max_per_month;
  tier_name = tier.name;
})

module _ {S : Type 0} (fetch_all_tiers : Action S (List SponsorshipTier)) where
  unfoldable pub find_tier_by_id : ℕ → Action S (Option SponsorshipTier)
  unfolding find_tier
  find_tier_by_id tier_id = fetch_all_tiers >>= λ tiers. pure (find_tier tier_id tiers)

  unfoldable pub get_merchant_tier_limits :
      (Text → Action S MerchantDetails) → Text → Action S (Option TierLimits)
  unfolding find_tier_by_id
  get_merchant_tier_limits fetch_merchant_details merchant =
      fetch_merchant_details merchant >>= λ details.
      if not details.active
      then pure none
      else (find_tier_by_id details.tier_id >>= λ tier. pure (limits_of tier))
