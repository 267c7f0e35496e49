-- ===== src/Transactions/Cache/View.antt =====
-- The cache as the map of its fresh values, which forgets the expired entries and their order: what each
-- operation does to it.
use set.Prelude.{ℕ, ◌+◌, ◌≤◌, ◌≡◌, refl, Option, none, some, List, arith, ltb, if◌then◌else◌}
use set.Prelude.Text.{Text, text_eq, text_eq_iff, starts_with}
use set.Transactions.Cache.Entries.{
  lookup, put, delete, delete_prefix, lookup-put, lookup-delete, lookup-delete_prefix,
}
use set.Transactions.Cache.{
  Entry, CacheState, fresh_value, or_default, store, cache_get, cache_set, invalidate,
  invalidate_by_prefix, clear,
}

module _ {V : Type 0} where
  -- What a look-up of the key would find at the time.
  abbrev pub seen : {E : Type 0} → CacheState E V → ℕ → Text → Option V
  seen w now key = fresh_value now key w.entries

  pub fresh_value-put :
      (k j : Text) (v : V) (e now : ℕ) (m : List (Text × Entry V))
      → fresh_value now j (put k (record { value = v; expires_at = e }) m)
        ≡ (if text_eq k j then if ltb now e then some v else none else fresh_value now j m)
  unfolding fresh_value
  fresh_value-put k j v e now m =
      ground (arith, lookup-put k j (record { value = v; expires_at = e }) m)

  pub fresh_value-delete :
      (k j : Text) (now : ℕ) (m : List (Text × Entry V))
      → fresh_value now j (delete k m) ≡ (if text_eq k j then none else fresh_value now j m)
  unfolding fresh_value
  fresh_value-delete k j now m = ground (arith, lookup-delete k j m)

  pub fresh_value-delete_prefix :
      (p j : Text) (now : ℕ) (m : List (Text × Entry V))
      → fresh_value now j (delete_prefix p m)
        ≡ (if starts_with j p then none else fresh_value now j m)
  unfolding fresh_value
  fresh_value-delete_prefix p j now m = ground (arith, lookup-delete_prefix p j m)

  -- What is not fresh does not become fresh again.
  pub fresh_value_later :
      (k : Text) (now t : ℕ) (m : List (Text × Entry V))
      → now ≤ t
      → fresh_value now k m ≡ none
      → fresh_value t k m ≡ none
  unfolding fresh_value
  fresh_value_later k now t m h e = ground arith

module _ {E V : Type 0} (clock : E → ℕ) (default_ttl_ms : ℕ) where
  -- `set`, `get`, `invalidate`, `invalidateByPrefix` and `clear` as operations on what is seen at
  -- every time `t` from the present on: a value that is set is seen until its time to live is over, and
  -- hides what was there; a `get` returns what is seen and changes nothing that is seen; an
  -- invalidation hides the key, or every key with the prefix, and no other key.
  pub record Refines (w : CacheState E V) (t : ℕ) (j : Text) : Type 0 where
    pub set_lem :
        (k : Text) (v : V) (ttl : Option ℕ)
        → seen (cache_set clock default_ttl_ms k v ttl w) t j ≡ (
            if text_eq k j
            then if ltb t (clock w.env + or_default ttl default_ttl_ms) then some v else none
            else seen w t j)
    pub get_lem :
        (k : Text)
        → ((cache_get clock default_ttl_ms k w).0 ≡ seen w (clock w.env) k)
          × (seen (cache_get clock default_ttl_ms k w).1 t j ≡ seen w t j)
    pub invalidate_lem :
        (k : Text) → seen (invalidate k w) t j ≡ (if text_eq k j then none else seen w t j)
    pub prefix_lem :
        (p : Text)
        → seen (invalidate_by_prefix p w) t j ≡ (if starts_with j p then none else seen w t j)
    pub clear_lem : seen (clear w) t j ≡ none

  cache_get-seen :
      (w : CacheState E V) (t : ℕ) (k j : Text)
      → clock w.env ≤ t
      → ((cache_get clock default_ttl_ms k w).0 ≡ seen w (clock w.env) k)
        × (seen (cache_get clock default_ttl_ms k w).1 t j ≡ seen w t j)
  unfolding cache_get
  cache_get-seen w t k j h = ground (
    arith,
    fresh_value-delete k j t w.entries,
    text_eq_iff k j,
    fresh_value_later k (clock w.env) t w.entries h,
  )

  pub cache-Refines : (w : CacheState E V) (t : ℕ) (j : Text) → clock w.env ≤ t → Refines w t j
  unfolding cache_set store invalidate invalidate_by_prefix clear fresh_value lookup
  cache-Refines w t j h = record {
    set_lem = λ k v ttl. fresh_value-put k j v _ t w.entries;
    get_lem = λ k. cache_get-seen w t k j h;
    invalidate_lem = λ k. fresh_value-delete k j t w.entries;
    prefix_lem = λ p. fresh_value-delete_prefix p j t w.entries;
    clear_lem = refl;
  }
