-- ===== src/Listings/Sorted.antt =====
-- What the sorted lists are.
use set.Prelude.{◌+◌, ◌≡◌, refl, ap, List, [], ◌∷◌, length, arith, inl, inr, Bool-cases}
use set.Prelude.Text.{Text}
use set.Listings.{first, is_set, ForcedStatuses, next_forced, expired_txs, categorize_forced}

-- Every forced transaction is in one of the three lists, and those in the list of the expired ones are
-- what `findExpiredForcedTxs` finds.
pub categorize_forced-expired_txs :
    (ids : List Text) (statuses : ForcedStatuses)
    → let r = categorize_forced ids statuses in
      (r.expired ≡ expired_txs ids statuses)
      × (length r.pending + length r.resolved + length r.expired ≡ length ids)
unfolding categorize_forced expired_txs
categorize_forced-expired_txs [] statuses = (refl, omega arith)
categorize_forced-expired_txs (id ∷ ids) statuses =
    let (e, l) = categorize_forced-expired_txs ids (next_forced statuses) in
    elim (Bool-cases (is_set (first statuses.resolved))) [
      | inl y ↦ rw y (e, omega (arith, l))
      | inr y ↦ elim (Bool-cases (is_set (first statuses.expired))) [
        | inl z ↦ rw (y, z) (ap (λ t. id ∷ t) e, omega (arith, l))
        | inr z ↦ rw (y, z) (e, omega (arith, l))
      ]
    ]
