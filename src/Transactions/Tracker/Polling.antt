-- ===== src/Transactions/Tracker/Polling.antt =====
-- What polling does to the tracked transactions, and what the listeners hear of it.
use mathlib.Core.List.{append_assoc}
use set.Prelude.{
  ◌≡◌, refl, sym, ap, ◌∙◌, inl, inr, true, false, none, some, List, [], ◌∷◌, ◌++◌, arith,
  Bool-cases,
}
use set.Prelude.Int.{pos}
use set.Prelude.Text.{Text, text_eq}
use set.Transactions.Builder.{TxStatus}
use set.Prelude.Text.{text_eq_refl, text_eq-eq, text_eq_sym}
use set.Transactions.Tracker.Invariant.{
  Away, IsTracking, get-set_transaction, set_transaction-IsTracking, get_set_same,
  delete-IsTracking, delete-get,
}
use set.Transactions.Tracker.Check.{AllSettling, Checked, check-Checked}
use set.Transactions.Tracker.{
  TrackedTransaction, TxTrackerEventType, TxTrackerEvent, Provider, TransactionTracker, get,
  set_transaction, is_open, get_pending, event_of, check_transaction, check_all, poll_transactions,
  track, untrack,
}

-- Open transactions that are tracked as they are, with distinct hashes.
abbrev Todo : List TrackedTransaction → List TrackedTransaction → Type 0
Todo [] all = Unit
Todo (t ∷ ts) all =
    (get t.hash all ≡ some t)
    × (is_open t.status ≡ true)
    × (t.confirmations ≡ pos 0)
    × Away t.hash ts
    × Todo ts all

Todo-set_transaction :
    (tx : TrackedTransaction) (ts all : List TrackedTransaction)
    → Away tx.hash ts
    → Todo ts all
    → Todo ts (set_transaction tx all)
Todo-set_transaction tx [] all h k = tt
Todo-set_transaction tx (t ∷ ts) all h (g, o, f, away, rest) = (
  get-set_transaction t.hash tx all (text_eq_sym t.hash tx.hash h.0) ∙ g,
  o,
  f,
  away,
  Todo-set_transaction tx ts all h.1 rest,
)

Away-get_pending :
    (hash : Text) (ts : List TrackedTransaction) → Away hash ts → Away hash (get_pending ts)
Away-get_pending hash [] h = tt
Away-get_pending hash (t ∷ ts) h = elim (Bool-cases (is_open t.status)) [
  | inl b ↦ rw b (h.0, Away-get_pending hash ts h.1)
  | inr b ↦ rw b (Away-get_pending hash ts h.1)
]

Todo-add :
    (t : TrackedTransaction) (ts all : List TrackedTransaction)
    → Away t.hash ts
    → Todo ts all
    → Todo ts (t ∷ all)
Todo-add t [] all h k = tt
Todo-add t (u ∷ ts) all h (g, o, f, away, rest) =
    (ground (arith, text_eq_sym u.hash t.hash h.0), o, f, away, Todo-add t ts all h.1 rest)

get_pending-Todo : (ts : List TrackedTransaction) → IsTracking ts → Todo (get_pending ts) ts
get_pending-Todo [] h = tt
get_pending-Todo (t ∷ ts) (fresh, away, rest) =
    let away' = Away-get_pending t.hash ts away in
    let todo = Todo-add t (get_pending ts) ts away' (get_pending-Todo ts rest) in
    elim (Bool-cases (is_open t.status)) [
      | inl b ↦ rw b (rw (text_eq_refl t.hash) refl, b, fresh b, away', todo)
      | inr b ↦ rw b todo
    ]

module _ {S : Type 0} (provider : Provider S) where
  -- What a number of checks does: the invariant is kept, a transaction that is not open stays as it
  -- is, and the listeners hear of settled transactions only.
  pub record Polled (w w' : TransactionTracker S) : Type 0 where
    pub tracking : IsTracking w'.transactions
    pub kept :
        (hash : Text) (tx : TrackedTransaction)
        → get hash w.transactions ≡ some tx
        → is_open tx.status ≡ false
        → get hash w'.transactions ≡ some tx
    pub told : List TxTrackerEvent
    pub events_are : w'.events ≡ told ++ w.events
    pub settling : AllSettling told

  Checked-Polled :
      (t : TrackedTransaction) (w w' : TransactionTracker S)
      → get t.hash w.transactions ≡ some t
      → is_open t.status ≡ true
      → t.confirmations ≡ pos 0
      → IsTracking w.transactions
      → Checked provider t w w'
      → Polled w w'
  Checked-Polled t w w' g o fresh k c = record {
    tracking = elim c.stored [
      | inl e ↦ rw e k
      | inr e ↦ rw e (
          set_transaction-IsTracking c.tx' w.transactions
            (λ b. elim c.closed [ inl same ↦ ground arith | inr shut ↦ ground arith ]) k)
    ];
    kept = λ hash tx g' shut. elim c.stored [
      | inl e ↦ ground arith
      | inr e ↦ elim (Bool-cases (text_eq t.hash hash)) [
        | inl b ↦ let p = text_eq-eq t.hash hash b in ground arith
        | inr b ↦
            let away : text_eq c.tx'.hash hash ≡ false = ground (arith, c.same_hash) in
            ground (arith, get-set_transaction hash c.tx' w.transactions away)
      ]
    ];
    told = c.told;
    events_are = c.events_are;
    settling = c.settling;
  }

  AllSettling-append :
      (es fs : List TxTrackerEvent) → AllSettling es → AllSettling fs → AllSettling (es ++ fs)
  AllSettling-append [] fs h k = k
  AllSettling-append (e ∷ es) fs h k = (h.0, AllSettling-append es fs h.1 k)

  Polled-trans : (w u v : TransactionTracker S) → Polled w u → Polled u v → Polled w v
  Polled-trans w u v p q = record {
    tracking = q.tracking;
    kept = λ hash tx g shut. q.kept hash tx (p.kept hash tx g shut) shut;
    told = q.told ++ p.told;
    events_are =
        q.events_are
        ∙ ap (λ (l : List TxTrackerEvent). q.told ++ l) p.events_are
        ∙ sym (append_assoc q.told p.told w.events);
    settling = AllSettling-append q.told p.told q.settling p.settling;
  }

  check_all-Polled :
      (ts : List TrackedTransaction) (w : TransactionTracker S)
      → IsTracking w.transactions
      → Todo ts w.transactions
      → Polled w (check_all provider ts w)
  check_all-Polled [] w k todo = record {
    tracking = k;
    kept = λ hash tx g shut. g;
    told = [];
    events_are = refl;
    settling = tt;
  }
  check_all-Polled (t ∷ ts) w k (g, o, fresh, away, rest) =
      let c = check-Checked provider t w g fresh in
      let u = check_transaction provider t.hash w in
      let p = Checked-Polled t w u g o fresh k c in
      let todo : Todo ts u.transactions = elim c.stored [
        | inl e ↦ rw e rest
        | inr e ↦ rw e (Todo-set_transaction c.tx' ts w.transactions (rw c.same_hash away) rest)
      ] in
      Polled-trans w u (check_all provider ts u) p (check_all-Polled ts u p.tracking todo)

  -- A round of polling keeps the invariant, leaves every transaction alone that is confirmed, reverted
  -- or failed, and tells the listeners of such ends only: never of a further confirmation.
  pub poll_transactions-Polled :
      (w : TransactionTracker S)
      → IsTracking w.transactions
      → Polled w (poll_transactions provider w)
  unfolding poll_transactions
  poll_transactions-Polled w k =
      check_all-Polled (get_pending w.transactions) w k (get_pending-Todo w.transactions k)

  -- `track` and `untrack` keep the invariant, and after `untrack` the hash is gone.
  pub track-IsTracking :
      (hash : Text) (w : TransactionTracker S)
      → IsTracking w.transactions
      → IsTracking (track provider hash w).transactions
        × IsTracking (untrack provider hash w).transactions
        × (get hash (untrack provider hash w).transactions ≡ none)
  unfolding track untrack
  track-IsTracking hash w k = (
    (Checked-Polled tx w' _ (get_set_same tx w.transactions) refl refl k'
        (check-Checked provider tx w' (get_set_same tx w.transactions) refl)).tracking,
    delete-IsTracking hash w.transactions k,
    delete-get hash w.transactions k,
  )
    where
      tx : TrackedTransaction
      tx = record {
        hash = hash;
        status = TxStatus.pending;
        submitted_at = provider.now w.env;
        confirmed_at = none;
        block_number = none;
        confirmations = pos 0;
        gas_used = none;
        effective_gas_price = none;
        error = none;
      }

      w' : TransactionTracker S
      w' = record w {
        transactions = set_transaction tx w.transactions;
        events = event_of TxTrackerEventType.submitted tx none ∷ w.events;
        is_polling = true;
      }

      k' : IsTracking w'.transactions
      k' = set_transaction-IsTracking tx w.transactions (λ b. refl) k
