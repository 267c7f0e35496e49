-- ===== src/Transactions/Cache.antt =====
-- `ContractCache` and `CachedContractWrapper` of sdk/src/tx/gas.ts. The `Map` is the list of its entries
-- in the order of insertion; `Date.now()` is a function of the environment. A fetcher is an action that
-- may itself change the cache: so may whatever runs while it is awaited. Times to live are natural
-- numbers of milliseconds.
pub mod Entries
pub mod View
pub mod Fetching
pub mod Wrapper
use set.Prelude.{
  ℕ, ◌+◌, Bool, true, false, not, Option, none, some, List, [], ◌∷◌, ◌++◌, map, length, ltb,
  if◌then◌else◌,
}
use set.Prelude.Text.{Text, codes, starts_with}
use set.Effects.{ok, err, Action, pure, ◌>>=◌, ◌>>◌}
use set.Transactions.Cache.Entries.{lookup, put, delete, delete_prefix}

pub record Entry (V : Type 0) : Type 0 where
  pub value : V
  pub expires_at : ℕ

-- The environment and the map of one cache.
pub record CacheState (E V : Type 0) : Type 0 where
  pub env : E
  pub entries : List (Text × Entry V)

-- `entry && entry.expiresAt > now`
abbrev pub is_fresh : {V : Type 0} → ℕ → Entry V → Bool
is_fresh now entry = ltb now entry.expires_at

-- The value that a look-up may use.
unfoldable pub fresh_value : {V : Type 0} → ℕ → Text → List (Text × Entry V) → Option V
fresh_value now key entries = elim (lookup key entries) [
  | none ↦ none
  | some entry ↦ if is_fresh now entry then some entry.value else none
]

-- `a ?? b`
abbrev pub or_default : Option ℕ → ℕ → ℕ
or_default none b = b
or_default (some a) b = a

module _ {E V : Type 0} where
  unfoldable pub store : Text → V → ℕ → CacheState E V → CacheState E V
  store key value expires_at w = record w {
    entries = put key (record { value = value; expires_at = expires_at }) w.entries;
  }

module _ {E V : Type 0} (clock : E → ℕ) (default_ttl_ms : ℕ) where
  unfoldable pub get_or_fetch :
      Text → Action (CacheState E V) V → Option ℕ → Action (CacheState E V) V
  unfolding fresh_value store
  get_or_fetch key fetcher ttl_ms w =
      let now = clock w.env in
      elim (fresh_value now key w.entries) [
        | some value ↦ (ok value, w)
        | none ↦
            let (r, w') = fetcher w in
            elim r [
              | err e ↦ (err e, w')
              | ok value ↦ (ok value, store key value (now + or_default ttl_ms default_ttl_ms) w')
            ]
      ]

  unfoldable pub cache_get : Text → CacheState E V → Option V × CacheState E V
  unfolding fresh_value
  cache_get key w = elim (fresh_value (clock w.env) key w.entries) [
    | some value ↦ (some value, w)
    | none ↦ (none, record w { entries = delete key w.entries })
  ]

  unfoldable pub cache_set : Text → V → Option ℕ → CacheState E V → CacheState E V
  unfolding store
  cache_set key value ttl_ms w = store key value (clock w.env + or_default ttl_ms default_ttl_ms) w

module _ {E V : Type 0} where
  unfoldable pub invalidate : Text → CacheState E V → CacheState E V
  invalidate key w = record w { entries = delete key w.entries }

  -- A key that is deleted during the iteration of `Map.keys()` does not disturb it.
  unfoldable pub invalidate_by_prefix : Text → CacheState E V → CacheState E V
  invalidate_by_prefix prefix w = record w { entries = delete_prefix prefix w.entries }

  unfoldable pub clear : CacheState E V → CacheState E V
  clear w = record w { entries = [] }

  unfoldable pub stats : CacheState E V → ℕ × List Text
  stats w = (length w.entries, map (λ (x : Text × Entry V). x.0) w.entries)
