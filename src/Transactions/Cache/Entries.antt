-- ===== src/Transactions/Cache/Entries.antt =====
-- The operations of a JavaScript `Map` with text keys that the cache calls, on the list of the entries in
-- the order of insertion: a key that is set again keeps its place.
use set.Prelude.{◌≡◌, refl, Option, none, some, List, [], ◌∷◌, arith, if◌then◌else◌}
use set.Prelude.Text.{Text, text_eq, text_eq_iff, starts_with}

module _ {A : Type 0} where
  unfoldable pub lookup : Text → List (Text × A) → Option A
  lookup key [] = none
  lookup key ((j, a) ∷ m) = if text_eq j key then some a else lookup key m

  unfoldable pub put : Text → A → List (Text × A) → List (Text × A)
  put key a [] = (key, a) ∷ []
  put key a ((j, b) ∷ m) = if text_eq j key then (j, a) ∷ m else (j, b) ∷ put key a m

  unfoldable pub delete : Text → List (Text × A) → List (Text × A)
  delete key [] = []
  delete key ((j, b) ∷ m) = if text_eq j key then delete key m else (j, b) ∷ delete key m

  -- The loop of `invalidateByPrefix`.
  unfoldable pub delete_prefix : Text → List (Text × A) → List (Text × A)
  delete_prefix prefix [] = []
  delete_prefix prefix ((j, b) ∷ m) =
      if starts_with j prefix then delete_prefix prefix m else (j, b) ∷ delete_prefix prefix m

module _ {A : Type 0} where
  pub lookup-put :
      (k j : Text) (a : A) (m : List (Text × A))
      → lookup j (put k a m) ≡ (if text_eq k j then some a else lookup j m)
  unfolding lookup put
  lookup-put k j a [] = refl
  lookup-put k j a ((i, b) ∷ m) =
      ground (arith, text_eq_iff k j, text_eq_iff i k, text_eq_iff i j, lookup-put k j a m)

  pub lookup-delete :
      (k j : Text) (m : List (Text × A))
      → lookup j (delete k m) ≡ (if text_eq k j then none else lookup j m)
  unfolding lookup delete
  lookup-delete k j [] = ground arith
  lookup-delete k j ((i, b) ∷ m) =
      ground (arith, text_eq_iff k j, text_eq_iff i k, text_eq_iff i j, lookup-delete k j m)

  pub lookup-delete_prefix :
      (p j : Text) (m : List (Text × A))
      → lookup j (delete_prefix p m) ≡ (if starts_with j p then none else lookup j m)
  unfolding lookup delete_prefix
  lookup-delete_prefix p j [] = ground arith
  lookup-delete_prefix p j ((i, b) ∷ m) =
      ground (arith, text_eq_iff i j, lookup-delete_prefix p j m)
