-- ===== src/Transactions/Batches.antt =====
-- `processBatched` of sdk/src/tx/gas.ts. The loop runs on fuel, and `none` means that the fuel ran out;
-- one more round than there are items is enough for every positive batch size.
use set.Prelude.{
  ℕ, zero, suc, ◌+◌, ◌-◌, ◌≤◌, ◌<◌, ◌≡◌, refl, sym, ap, ◌∙◌, true, false, ◌&&◌, Option, none, some,
  List, [], ◌∷◌, ◌++◌, map, length, arith, ltb, Bool-cases, inl, inr, if◌then◌else◌,
}
use mathlib.Core.List.{append_assoc, append-nil, map-append}
use native.Mathlib.Nat.{zero-add, suc-add}
use set.Errors.{Thrown}
use set.Effects.{Result, ok, err, Action, outcome_cases}

module _ {ℓ} {A : Type ℓ} where
  abbrev pub take : ℕ → List A → List A
  take zero xs = []
  take (suc n) [] = []
  take (suc n) (x ∷ xs) = x ∷ take n xs

  abbrev pub drop : ℕ → List A → List A
  drop zero xs = xs
  drop (suc n) [] = []
  drop (suc n) (x ∷ xs) = drop n xs

  -- `items.slice(from, to)`
  abbrev pub slice : ℕ → ℕ → List A → List A
  slice from to items = take (to - from) (drop from items)

  take-drop : (n : ℕ) (xs : List A) → take n xs ++ drop n xs ≡ xs
  take-drop zero xs = refl
  take-drop (suc n) [] = refl
  take-drop (suc n) (x ∷ xs) = ap (λ t. x ∷ t) (take-drop n xs)

  drop_nil : (n : ℕ) → drop n [] ≡ []
  drop_nil zero = refl
  drop_nil (suc n) = refl

  drop-drop : (n i : ℕ) (xs : List A) → drop n (drop i xs) ≡ drop (i + n) xs
  drop-drop n zero xs = rw zero-add refl
  drop-drop n (suc i) [] = rw suc-add (drop_nil n)
  drop-drop n (suc i) (x ∷ xs) = rw suc-add (drop-drop n i xs)

  drop_all : (i : ℕ) (xs : List A) → length xs ≤ i → drop i xs ≡ []
  drop_all zero [] h = refl
  drop_all (suc i) [] h = refl
  drop_all zero (x ∷ xs) h = absurd (omega arith)
  drop_all (suc i) (x ∷ xs) h = drop_all i xs (omega arith)

module _ {S A R : Type 0} (sleep : ℕ → S → S) (items : List A) (batch_size : ℕ)
    (processor : List A → Action S (List R)) (delay_between_batches_ms : ℕ) where
  -- The pause after the batch that ends before the index.
  abbrev between : ℕ → S → S
  between next s =
      if ltb next (length items) && ltb 0 delay_between_batches_ms
      then sleep delay_between_batches_ms s
      else s

  -- The loop at the index `i`, with the results so far.
  unfoldable pub process_from : ℕ → ℕ → List R → S → Option (Result (List R) × S)
  process_from zero i results s = none
  process_from (suc rounds) i results s =
      let (r, s') = processor (slice i (i + batch_size) items) s in
      let next = i + batch_size in
      if ltb i (length items)
      then elim r [
        | err e ↦ some (err e, s')
        | ok batch_results ↦ process_from rounds next (results ++ batch_results) (between next s')
      ]
      else some (ok results, s)

  unfoldable pub process_batched : S → Option (Result (List R) × S)
  unfolding process_from
  process_batched s = process_from (suc (length items)) 0 [] s

  step_end :
      (n i : ℕ) (results : List R) (s : S)
      → ltb i (length items) ≡ false
      → process_from (suc n) i results s ≡ some (ok results, s)
  unfolding process_from
  step_end n i results s h = ground arith

  step_throws :
      (n i : ℕ) (results : List R) (s s' : S) (e : Thrown)
      → ltb i (length items) ≡ true
      → processor (slice i (i + batch_size) items) s ≡ (err e, s')
      → process_from (suc n) i results s ≡ some (err e, s')
  unfolding process_from
  step_throws n i results s s' e h p = ground arith

  step_next :
      (n i : ℕ) (results batch_results : List R) (s s' : S)
      → ltb i (length items) ≡ true
      → processor (slice i (i + batch_size) items) s ≡ (ok batch_results, s')
      → process_from (suc n) i results s
        ≡ process_from n (i + batch_size) (results ++ batch_results) (between (i + batch_size) s')
  unfolding process_from
  step_next n i results batch_results s s' h p = ground arith

  process_from_ends :
      (n i : ℕ) (results : List R) (s : S)
      → 0 < batch_size
      → length items ≤ i + n
      → (x : Result (List R) × S) × (process_from (suc n) i results s ≡ some x)
  process_from_ends zero i results s h m = (_, step_end zero i results s (ground arith))
  process_from_ends (suc n) i results s h m = elim (Bool-cases (ltb i (length items))) [
    | inr over ↦ (_, step_end (suc n) i results s over)
    | inl more ↦ elim (outcome_cases (processor (slice i (i + batch_size) items) s)) [
      | inr (e, s', p) ↦ (_, step_throws (suc n) i results s s' e more p)
      | inl (xs, s', p) ↦
          rw (step_next (suc n) i results xs s s' more p)
            (process_from_ends n (i + batch_size) (results ++ xs) _ h (omega arith))
    ]
  ]

  -- With a positive batch size `processBatched` always ends: it returns, or throws what the processor
  -- has thrown.
  pub process_batched_ends :
      (s : S) → 0 < batch_size → (x : Result (List R) × S) × (process_batched s ≡ some x)
  unfolding process_batched
  process_batched_ends s h = process_from_ends (length items) 0 [] s h (omega arith)

  -- With a batch size of 0, at least one item and a processor that throws nothing, the loop goes on
  -- at any fuel: the index stays where it is.
  pub process_from_stuck :
      (n : ℕ) (results : List R) (s : S)
      → batch_size ≡ 0
      → 0 < length items
      → ((s' : S) → (xs : List R) × (t : S) × (processor [] s' ≡ (ok xs, t)))
      → process_from n 0 results s ≡ none
  unfolding process_from
  process_from_stuck zero results s z m k = refl
  process_from_stuck (suc n) results s z m k =
      let (xs, t, p) = k s in
      let same : processor (slice 0 (0 + batch_size) items) s ≡ (ok xs, t) = rw z p in
      let on : 0 + batch_size ≡ 0 = omega arith in
      step_next n 0 results xs s t (ground arith) same
      ∙ rw on (process_from_stuck n (results ++ xs) (between 0 t) z m k)

  module _ (f : A → R)
      (law : (batch : List A) (s : S) → (processor batch s).0 ≡ ok (map f batch)) where
    -- The batch at an index, and what is left after it.
    batch_and_rest :
        (i : ℕ)
        → map f (slice i (i + batch_size) items) ++ map f (drop (i + batch_size) items)
          ≡ map f (drop i items)
    batch_and_rest i =
        let size : i + batch_size - i ≡ batch_size = omega arith in
        rw size (
          sym (map-append f (take batch_size (drop i items)) (drop (i + batch_size) items))
          ∙ rw (← drop-drop batch_size i items) (ap (map f) (take-drop batch_size (drop i items))))

    rest_is_over :
        (i : ℕ) (results : List R) → length items ≤ i → results ++ map f (drop i items) ≡ results
    rest_is_over i results h = rw (drop_all i items h) (append-nil results)

    process_from-map :
        (n i : ℕ) (results : List R) (s : S)
        → 0 < batch_size
        → length items ≤ i + n
        → (t : S) × (process_from (suc n) i results s
            ≡ some (ok (results ++ map f (drop i items)), t))
    process_from-map zero i results s h m =
        (s, rw (rest_is_over i results (omega arith)) (step_end zero i results s (ground arith)))
    process_from-map (suc n) i results s h m = elim (Bool-cases (ltb i (length items))) [
      | inr over ↦
          (s, rw (rest_is_over i results (ground arith)) (step_end (suc n) i results s over))
      | inl more ↦
          let batch : List A = slice i (i + batch_size) items in
          let s' : S = (processor batch s).1 in
          let done : processor batch s ≡ (ok (map f batch), s') = λ j. (law batch s j, s') in
          let (t, p) =
            process_from-map n (i + batch_size) (results ++ map f batch)
              (between (i + batch_size) s') h (omega arith) in
          (
            t,
            step_next (suc n) i results (map f batch) s s' more done
                ∙ p
                ∙ ap (λ xs. some (ok xs, t))
                    (append_assoc results (map f batch) (map f (drop (i + batch_size) items))
                      ∙ ap (λ xs. results ++ xs) (batch_and_rest i)),
          )
    ]

    -- With a positive batch size, and a processor that answers a batch with one result for each of its
    -- items, `processBatched` returns the results of all items, in their order and each once.
    pub process_batched-map :
        (s : S) → 0 < batch_size → (t : S) × (process_batched s ≡ some (ok (map f items), t))
    unfolding process_batched
    process_batched-map s h = process_from-map (length items) 0 [] s h (omega arith)
