-- ===== src/Transactions/Tracker/Invariant.antt =====
-- The invariant of the tracked transactions, and the map that holds them.
use set.Prelude.{◌≡◌, refl, inl, inr, true, false, none, some, List, [], ◌∷◌, arith, Bool-cases}
use set.Prelude.Int.{pos}
use set.Prelude.Text.{Text, text_eq, text_eq_refl, text_eq-eq, text_eq_sym}
use set.Transactions.Tracker.{TrackedTransaction, get, set_transaction, delete, is_open}

-- No transaction of the list has the hash.
abbrev pub Away : Text → List TrackedTransaction → Type 0
Away hash [] = Unit
Away hash (t ∷ ts) = (text_eq t.hash hash ≡ false) × Away hash ts

-- The tracker's invariant: every hash is there once, and a transaction that is still open has no
-- confirmations.
abbrev pub IsTracking : List TrackedTransaction → Type 0
IsTracking [] = Unit
IsTracking (t ∷ ts) =
    (is_open t.status ≡ true → t.confirmations ≡ pos 0) × Away t.hash ts × IsTracking ts

pub get-set_transaction :
    (hash : Text) (tx : TrackedTransaction) (ts : List TrackedTransaction)
    → text_eq tx.hash hash ≡ false
    → get hash (set_transaction tx ts) ≡ get hash ts
get-set_transaction hash tx [] h = ground arith
get-set_transaction hash tx (t ∷ ts) h = elim (Bool-cases (text_eq t.hash tx.hash)) [
  | inl e ↦ let p = text_eq-eq t.hash tx.hash e in ground arith
  | inr e ↦ elim (Bool-cases (text_eq t.hash hash)) [
    | inl e' ↦ ground arith
    | inr e' ↦ ground (arith, get-set_transaction hash tx ts h)
  ]
]

pub Away-set_transaction :
    (hash : Text) (tx : TrackedTransaction) (ts : List TrackedTransaction)
    → text_eq tx.hash hash ≡ false
    → Away hash ts
    → Away hash (set_transaction tx ts)
Away-set_transaction hash tx [] h k = (h, tt)
Away-set_transaction hash tx (t ∷ ts) h k = elim (Bool-cases (text_eq t.hash tx.hash)) [
  | inl e ↦ rw e (h, k.1)
  | inr e ↦ rw e (k.0, Away-set_transaction hash tx ts h k.1)
]

pub set_transaction-IsTracking :
    (tx : TrackedTransaction) (ts : List TrackedTransaction)
    → (is_open tx.status ≡ true → tx.confirmations ≡ pos 0)
    → IsTracking ts
    → IsTracking (set_transaction tx ts)
set_transaction-IsTracking tx [] h k = (h, tt, tt)
set_transaction-IsTracking tx (t ∷ ts) h (fresh, away, rest) =
    elim (Bool-cases (text_eq t.hash tx.hash)) [
      | inl e ↦ rw e (h, rw (text_eq-eq t.hash tx.hash e) at away, rest)
      | inr e ↦ rw e (
        fresh,
        Away-set_transaction t.hash tx ts (text_eq_sym t.hash tx.hash e) away,
        set_transaction-IsTracking tx ts h rest,
      )
    ]

pub get_set_same :
    (tx : TrackedTransaction) (ts : List TrackedTransaction)
    → get tx.hash (set_transaction tx ts) ≡ some tx
get_set_same tx [] = rw (text_eq_refl tx.hash) refl
get_set_same tx (t ∷ ts) = elim (Bool-cases (text_eq t.hash tx.hash)) [
  | inl e ↦ rw e (rw (text_eq_refl tx.hash) refl)
  | inr e ↦ rw e (rw e (get_set_same tx ts))
]

Away-delete :
    (hash gone : Text) (ts : List TrackedTransaction) → Away hash ts → Away hash (delete gone ts)
Away-delete hash gone [] h = tt
Away-delete hash gone (t ∷ ts) h = elim (Bool-cases (text_eq t.hash gone)) [
  | inl e ↦ rw e h.1
  | inr e ↦ rw e (h.0, Away-delete hash gone ts h.1)
]

pub delete-IsTracking :
    (gone : Text) (ts : List TrackedTransaction) → IsTracking ts → IsTracking (delete gone ts)
delete-IsTracking gone [] h = tt
delete-IsTracking gone (t ∷ ts) (fresh, away, rest) = elim (Bool-cases (text_eq t.hash gone)) [
  | inl e ↦ rw e rest
  | inr e ↦ rw e (fresh, Away-delete t.hash gone ts away, delete-IsTracking gone ts rest)
]

pub delete-get :
    (gone : Text) (ts : List TrackedTransaction) → IsTracking ts → get gone (delete gone ts) ≡ none
delete-get gone [] h = refl
delete-get gone (t ∷ ts) (fresh, away, rest) = elim (Bool-cases (text_eq t.hash gone)) [
  | inl e ↦ rw e (Away-get gone ts (rw (text_eq-eq t.hash gone e) at away))
  | inr e ↦ rw e (rw e (delete-get gone ts rest))
]
  where
    Away-get : (hash : Text) (us : List TrackedTransaction) → Away hash us → get hash us ≡ none
    Away-get hash [] k = refl
    Away-get hash (u ∷ us) k = rw k.0 (Away-get hash us k.1)
