-- ===== src/Transactions/Tracker.antt =====
-- `TransactionTracker`. The provider is a parameter; a call of it may fail, and the failure is only
-- logged. What the listeners are told is the list of the emitted events; a listener's exception is
-- caught, and an event has the transaction as it was then. The timer that polls is the caller of `poll_transactions`. A check runs alone: what an
-- `untrack` during its awaits would do is left out.
pub mod Invariant
pub mod Check
pub mod Polling
use set.Prelude.{
  ℕ, ◌+◌, ◌-◌, Bool, true, false, not, ◌&&◌, ◌||◌, Option, none, some, List, [], ◌∷◌, ltb, leb,
  ◌==◌, if◌then◌else◌,
}
use set.Prelude.Int.{ℤ, pos, sub_ℕ, ltb_ℤ, leb_ℤ, eqb_ℤ}
use set.Prelude.Text.{Text, codes, text_eq}
use set.Effects.{Result, ok, err, Action}
use set.Transactions.Builder.{TxStatus, TransactionReceipt}

-- The metadata is only for the caller.
pub record TrackedTransaction : Type 0 where
  pub hash : Text
  pub status : TxStatus
  pub submitted_at : ℕ
  pub confirmed_at : Option ℕ
  pub block_number : Option ℕ
  pub confirmations : ℤ
  pub gas_used : Option ℕ
  pub effective_gas_price : Option ℕ
  pub error : Option Text

pub data TxTrackerEventType : Type 0 where
  submitted confirmed failed dropped replaced confirmation : TxTrackerEventType

pub record TxTrackerEvent : Type 0 where
  pub type : TxTrackerEventType
  pub transaction : TrackedTransaction
  pub confirmations : Option ℤ

pub record Provider (S : Type 0) : Type 0 where
  pub get_transaction_receipt : Text → Action S (Option TransactionReceipt)
  pub get_block_number : Action S ℕ
  -- whether the transaction is known
  pub get_transaction : Text → Action S Bool
  pub now : S → ℕ

-- The transactions in the order in which their hashes were first set, the events last first.
pub record TransactionTracker (S : Type 0) : Type 0 where
  pub env : S
  pub transactions : List TrackedTransaction
  pub events : List TxTrackerEvent
  pub is_polling : Bool

-- `transactions.get`, `transactions.set` and `transactions.delete`.
abbrev pub get : Text → List TrackedTransaction → Option TrackedTransaction
get hash [] = none
get hash (t ∷ ts) = if text_eq t.hash hash then some t else get hash ts

abbrev pub set_transaction : TrackedTransaction → List TrackedTransaction → List TrackedTransaction
set_transaction tx [] = tx ∷ []
set_transaction tx (t ∷ ts) = if text_eq t.hash tx.hash then tx ∷ ts else t ∷ set_transaction tx ts

abbrev pub delete : Text → List TrackedTransaction → List TrackedTransaction
delete hash [] = []
delete hash (t ∷ ts) = if text_eq t.hash hash then ts else t ∷ delete hash ts

abbrev pub is_open : TxStatus → Bool
is_open TxStatus.pending = true
is_open TxStatus.confirming = true
is_open _ = false

abbrev pub get_pending : List TrackedTransaction → List TrackedTransaction
get_pending [] = []
get_pending (t ∷ ts) = let rest = get_pending ts in if is_open t.status then t ∷ rest else rest

abbrev pub get_confirmed : List TrackedTransaction → List TrackedTransaction
get_confirmed [] = []
get_confirmed (t ∷ ts) =
    let rest = get_confirmed ts in elim t.status [ TxStatus.confirmed ↦ t ∷ rest | _ ↦ rest ]

abbrev pub event_of : TxTrackerEventType → TrackedTransaction → Option ℤ → TxTrackerEvent
event_of type tx n = record { type = type; transaction = tx; confirmations = n }

-- What `checkTransaction` does with a receipt, at the time `now` and the block `current_block`.
unfoldable pub apply_receipt :
    ℕ → ℕ → TransactionReceipt → TrackedTransaction → TrackedTransaction × Option TxTrackerEvent
apply_receipt now current_block receipt tx =
    let confirmations = sub_ℕ (current_block + 1) receipt.block_number in
    let seen : TrackedTransaction = record tx {
      confirmations = confirmations;
      block_number = some receipt.block_number;
      gas_used = some receipt.gas_used;
      effective_gas_price = some receipt.gas_price;
    } in
    let reverted : TrackedTransaction = record seen {
      status = TxStatus.reverted;
      error = some (codes "Transaction reverted");
      confirmed_at = some now;
    } in
    let mined : TrackedTransaction = record seen {
      status = TxStatus.confirmed;
      confirmed_at = some now;
    } in
    if receipt.status == 0
    then (reverted, some (event_of TxTrackerEventType.failed reverted none))
    else if eqb_ℤ tx.confirmations (pos 0)
    then (mined, some (event_of TxTrackerEventType.confirmed mined (some confirmations)))
    else if ltb_ℤ tx.confirmations confirmations
    then (seen, some (event_of TxTrackerEventType.confirmation seen (some confirmations)))
    else (seen, none)

-- What it does without one: after five minutes a transaction that the node does not know is dropped.
unfoldable pub apply_missing :
    ℕ → Bool → TrackedTransaction → TrackedTransaction × Option TxTrackerEvent
apply_missing now known tx =
    let gone : TrackedTransaction = record tx {
      status = TxStatus.failed;
      error = some (codes "Transaction dropped from mempool");
    } in
    if not known && ltb 300000 (now - tx.submitted_at)
    then (gone, some (event_of TxTrackerEventType.dropped gone none))
    else (tx, none)

-- `emit`, of one event or none.
abbrev pub emit_option : Option TxTrackerEvent → List TxTrackerEvent → List TxTrackerEvent
emit_option none events = events
emit_option (some e) events = e ∷ events

module _ {S : Type 0} (provider : Provider S) where
  -- The provider's part of `checkTransaction`: the change to make, if no call has failed.
  unfoldable pub look_up :
      TrackedTransaction → Action S (TrackedTransaction × Option TxTrackerEvent)
  look_up tx s =
      let (r, s1) = provider.get_transaction_receipt tx.hash s in
      elim r [
        | err e ↦ (err e, s1)
        | ok (some receipt) ↦
            let (b, s2) = provider.get_block_number s1 in
            elim b [
              | err e ↦ (err e, s2)
              | ok block ↦ (ok (apply_receipt (provider.now s2) block receipt tx), s2)
            ]
        | ok none ↦
            let (k, s2) = provider.get_transaction tx.hash s1 in
            elim k [
              | err e ↦ (err e, s2)
              | ok known ↦ (ok (apply_missing (provider.now s2) known tx), s2)
            ]
      ]

  unfoldable pub check_transaction : Text → TransactionTracker S → TransactionTracker S
  check_transaction hash w = elim (get hash w.transactions) [
    | none ↦ w
    | some tx ↦
        let (r, s) = look_up tx w.env in
        elim r [
          | err e ↦ record w { env = s }
          | ok (tx', event) ↦ record w {
            env = s;
            transactions = set_transaction tx' w.transactions;
            events = emit_option event w.events;
          }
        ]
  ]

  abbrev pub check_all : List TrackedTransaction → TransactionTracker S → TransactionTracker S
  check_all [] w = w
  check_all (t ∷ ts) w = check_all ts (check_transaction t.hash w)

  unfoldable pub poll_transactions : TransactionTracker S → TransactionTracker S
  poll_transactions w = check_all (get_pending w.transactions) w

  unfoldable pub track : Text → TransactionTracker S → TransactionTracker S
  track hash w =
      let tx : TrackedTransaction = record {
        hash = hash;
        status = TxStatus.pending;
        submitted_at = provider.now w.env;
        confirmed_at = none;
        block_number = none;
        confirmations = pos 0;
        gas_used = none;
        effective_gas_price = none;
        error = none;
      } in
      check_transaction hash (record w {
        transactions = set_transaction tx w.transactions;
        events = event_of TxTrackerEventType.submitted tx none ∷ w.events;
        is_polling = true;
      })

  -- Polling stops when nothing is left.
  unfoldable pub untrack : Text → TransactionTracker S → TransactionTracker S
  untrack hash w =
      let left = delete hash w.transactions in
      record w { transactions = left; is_polling = elim left [ [] ↦ false | _ ∷ _ ↦ w.is_polling ] }

  unfoldable pub clear : TransactionTracker S → TransactionTracker S
  clear w = record w { transactions = []; is_polling = false }

-- How the listener of `waitForConfirmation` ends the wait for `confirmations`: not yet, with the
-- transaction, or with an error.
pub data WaitEnd : Type 0 where
  waiting : WaitEnd
  resolved : TrackedTransaction → WaitEnd
  rejected : Text → WaitEnd

abbrev or_failed : Option Text → Text
or_failed none = codes "Transaction failed"
or_failed (some m) = m

abbrev or_none : Option ℤ → ℤ
or_none none = pos 0
or_none (some n) = n

unfoldable pub on_event : ℤ → TxTrackerEvent → WaitEnd
on_event confirmations event = elim event.type [
  | TxTrackerEventType.confirmed ↦ resolved event.transaction
  | TxTrackerEventType.confirmation ↦
      if leb_ℤ confirmations (or_none event.confirmations)
      then resolved event.transaction
      else waiting
  | TxTrackerEventType.failed ↦ rejected (or_failed event.transaction.error)
  | TxTrackerEventType.dropped ↦ rejected (or_failed event.transaction.error)
  | _ ↦ waiting
]
