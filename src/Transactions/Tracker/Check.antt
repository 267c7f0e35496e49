-- ===== src/Transactions/Tracker/Check.antt =====
-- What one check does to an open transaction.
use mathlib.Core.Path.{subst}
use set.Prelude.{
  ℕ, ◌-◌, not, ◌&&◌, ltb, ◌≡◌, refl, ◌⊎◌, inl, inr, Bool, false, Option, none, some, List, [], ◌∷◌,
  ◌++◌, ◌==◌, arith, Bool-cases,
}
use set.Prelude.Int.{pos}
use set.Effects.{ok, outcome_cases}
use set.Transactions.Builder.{TransactionReceipt}
use set.Transactions.Tracker.{
  TrackedTransaction, TxTrackerEventType, TxTrackerEvent, Provider, TransactionTracker, get,
  set_transaction, is_open, apply_receipt, apply_missing, look_up, check_transaction,
}

-- An event that ends a wait: not a further confirmation.
abbrev pub IsSettling : TxTrackerEvent → Type 0
IsSettling e =
    (e.type ≡ TxTrackerEventType.confirmed)
    ⊎ (e.type ≡ TxTrackerEventType.failed)
    ⊎ (e.type ≡ TxTrackerEventType.dropped)

abbrev pub AllSettling : List TxTrackerEvent → Type 0
AllSettling [] = Unit
AllSettling (e ∷ es) = IsSettling e × AllSettling es

-- What a check may make of an open transaction: nothing, or a settled one with a settling event.
abbrev Settles : TrackedTransaction → TrackedTransaction × Option TxTrackerEvent → Type 0
Settles tx (tx', none) = tx' ≡ tx
Settles tx (tx', some e) = (tx'.hash ≡ tx.hash) × (is_open tx'.status ≡ false) × IsSettling e

apply_receipt-Settles :
    (now block : ℕ) (receipt : TransactionReceipt) (tx : TrackedTransaction)
    → tx.confirmations ≡ pos 0
    → Settles tx (apply_receipt now block receipt tx)
unfolding apply_receipt
apply_receipt-Settles now block receipt tx h = elim (Bool-cases (receipt.status == 0)) [
  | inl b ↦ rw b (refl, refl, inr (inl refl))
  | inr b ↦ rw (b, h) (refl, refl, inl refl)
]

apply_missing-Settles :
    (now : ℕ) (known : Bool) (tx : TrackedTransaction) → Settles tx (apply_missing now known tx)
unfolding apply_missing
apply_missing-Settles now known tx =
    elim (Bool-cases (not known && ltb 300000 (now - tx.submitted_at))) [
      | inl b ↦ rw b (refl, refl, inr (inr refl))
      | inr b ↦ rw b refl
    ]

module _ {S : Type 0} (provider : Provider S) where
  look_up-Settles :
      (tx : TrackedTransaction) (s s' : S) (x : TrackedTransaction × Option TxTrackerEvent)
      → tx.confirmations ≡ pos 0
      → look_up provider tx s ≡ (ok x, s')
      → Settles tx x
  unfolding look_up
  look_up-Settles tx s s' x fresh h =
      elim (outcome_cases (provider.get_transaction_receipt tx.hash s)) [
        | inr (e, u, p) ↦ ground arith
        | inl (some receipt, u, p) ↦ elim (outcome_cases (provider.get_block_number u)) [
          | inr (e, v, q) ↦ ground arith
          | inl (block, v, q) ↦
              let same : apply_receipt (provider.now v) block receipt tx ≡ x = ground arith in
              subst (Settles tx) same
                (apply_receipt-Settles (provider.now v) block receipt tx fresh)
        ]
        | inl (none, u, p) ↦ elim (outcome_cases (provider.get_transaction tx.hash u)) [
          | inr (e, v, q) ↦ ground arith
          | inl (known, v, q) ↦
              let same : apply_missing (provider.now v) known tx ≡ x = ground arith in
              subst (Settles tx) same (apply_missing-Settles (provider.now v) known tx)
        ]
      ]

  -- What a check of the open transaction `t` does to the tracker.
  pub record Checked (t : TrackedTransaction) (w w' : TransactionTracker S) : Type 0 where
    pub tx' : TrackedTransaction
    pub same_hash : tx'.hash ≡ t.hash
    pub closed : (tx' ≡ t) ⊎ (is_open tx'.status ≡ false)
    pub stored :
        (w'.transactions ≡ w.transactions) ⊎ (w'.transactions ≡ set_transaction tx' w.transactions)
    pub told : List TxTrackerEvent
    pub events_are : w'.events ≡ told ++ w.events
    pub settling : AllSettling told

  pub check-Checked :
      (t : TrackedTransaction) (w : TransactionTracker S)
      → get t.hash w.transactions ≡ some t
      → t.confirmations ≡ pos 0
      → Checked t w (check_transaction provider t.hash w)
  unfolding check_transaction
  check-Checked t w g fresh = elim (outcome_cases (look_up provider t w.env)) [
    | inr (e, s, p) ↦ record {
      tx' = t;
      same_hash = refl;
      closed = inl refl;
      stored = inl (ground arith);
      told = [];
      events_are = ground arith;
      settling = tt;
    }
    | inl ((tx', none), s, p) ↦
        let same : tx' ≡ t = look_up-Settles t w.env s (tx', none) fresh p in
        record {
          tx' = tx';
          same_hash = ground arith;
          closed = inl same;
          stored = inr (ground arith);
          told = [];
          events_are = ground arith;
          settling = tt;
        }
    | inl ((tx', some e), s, p) ↦
        let (hash, closed, settles) = look_up-Settles t w.env s (tx', some e) fresh p in
        record {
          tx' = tx';
          same_hash = hash;
          closed = inr closed;
          stored = inr (ground arith);
          told = e ∷ [];
          events_are = ground arith;
          settling = (settles, tt);
        }
  ]
