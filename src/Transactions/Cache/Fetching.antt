-- ===== src/Transactions/Cache/Fetching.antt =====
-- `getOrFetch`: when the fetcher is run, and how long its value is used again. And the keys: the cache
-- never holds one twice.
use set.Prelude.{ℕ, ◌+◌, ◌<◌, ◌≡◌, refl, Option, none, some, arith, ltb, if◌then◌else◌, inl, inr}
use set.Prelude.Text.{Text, text_eq, text_eq_refl}
use set.Errors.{Thrown}
use set.Effects.{Result, ok, err, Action, outcome_cases}
use set.Transactions.Cache.{CacheState, fresh_value, or_default, store, get_or_fetch}
use set.Transactions.Cache.View.{seen, fresh_value-put}

module _ {E V : Type 0} where
  -- A value that is stored is seen until it expires.
  store_seen :
      (key : Text) (v : V) (e now : ℕ) (w : CacheState E V)
      → now < e
      → fresh_value now key (store key v e w).entries ≡ some v
  unfolding store
  store_seen key v e now w h =
      ground (arith, fresh_value-put key key v e now w.entries, text_eq_refl key)

module _ {E V : Type 0} (clock : E → ℕ) (default_ttl_ms : ℕ) where
  module _ (key : Text) (fetcher : Action (CacheState E V) V) (ttl : Option ℕ)
      (w : CacheState E V) where
    -- The time at which a value that is fetched now expires.
    abbrev pub expiry : ℕ
    expiry = clock w.env + or_default ttl default_ttl_ms

    -- With a fresh entry `getOrFetch` returns its value and changes nothing: the fetcher is not run.
    pub get_or_fetch_hit :
        (v : V)
        → seen w (clock w.env) key ≡ some v
        → get_or_fetch clock default_ttl_ms key fetcher ttl w ≡ (ok v, w)
    unfolding get_or_fetch
    get_or_fetch_hit v h = ground arith

    get_or_fetch_miss :
        (v : V) (w' : CacheState E V)
        → seen w (clock w.env) key ≡ none
        → fetcher w ≡ (ok v, w')
        → get_or_fetch clock default_ttl_ms key fetcher ttl w ≡ (ok v, store key v expiry w')
    unfolding get_or_fetch
    get_or_fetch_miss v w' h p = ground arith

    get_or_fetch_fails :
        (e : Thrown) (w' : CacheState E V)
        → seen w (clock w.env) key ≡ none
        → fetcher w ≡ (err e, w')
        → get_or_fetch clock default_ttl_ms key fetcher ttl w ≡ (err e, w')
    unfolding get_or_fetch
    get_or_fetch_fails e w' h p = ground arith

    -- What is seen after a fetch has ended: its value under the key, until it expires.
    abbrev pub seen_after : Result V × CacheState E V → ℕ → Text → Option V
    seen_after (err e, w') t j = seen w' t j
    seen_after (ok v, w') t j =
        if text_eq key j then if ltb t expiry then some v else none else seen w' t j

    -- What `getOrFetch` does without a fresh entry: it runs the fetcher once, and returns or throws what
    -- that does. A value is seen under the key until the time to live, counted from before the fetch,
    -- is over; all else that is seen is what the fetch has left, also if the fetch fails.
    pub record Fetched (x : Result V × CacheState E V) : Type 0 where
      pub same_result : x.0 ≡ (fetcher w).0
      pub same_env : x.1.env ≡ (fetcher w).1.env
      pub stored : (t : ℕ) (j : Text) → seen x.1 t j ≡ seen_after (fetcher w) t j

    pub get_or_fetch-Fetched :
        seen w (clock w.env) key ≡ none
        → Fetched (get_or_fetch clock default_ttl_ms key fetcher ttl w)
    unfolding store
    get_or_fetch-Fetched h = elim (outcome_cases (fetcher w)) [
      | inr (e, w', p) ↦
          rw (get_or_fetch_fails e w' h p)
            (record { same_result = rw p refl; same_env = rw p refl; stored = λ t j. rw p refl })
      | inl (v, w', p) ↦ rw (get_or_fetch_miss v w' h p) (record {
        same_result = rw p refl;
        same_env = rw p refl;
        stored = λ t j. rw p (fresh_value-put key j v expiry t w'.entries);
      })
    ]

  -- After a fetch, and as long as its time to live is not over and the cache is not changed, `getOrFetch`
  -- returns the fetched value again, whatever the new fetcher is, and changes nothing.
  pub get_or_fetch_reused :
      (key : Text) (fetcher again : Action (CacheState E V) V) (ttl ttl' : Option ℕ)
      (w w' u : CacheState E V) (v : V)
      → seen w (clock w.env) key ≡ none
      → get_or_fetch clock default_ttl_ms key fetcher ttl w ≡ (ok v, w')
      → u.entries ≡ w'.entries
      → clock u.env < clock w.env + or_default ttl default_ttl_ms
      → get_or_fetch clock default_ttl_ms key again ttl' u ≡ (ok v, u)
  get_or_fetch_reused key fetcher again ttl ttl' w w' u v h p e early =
      get_or_fetch_hit key again ttl' u v (elim (outcome_cases (fetcher w)) [
        | inr (x, w1, q) ↦ absurd (ground (arith, get_or_fetch_fails key fetcher ttl w x w1 h q))
        | inl (v', w1, q) ↦ ground (
          arith,
          get_or_fetch_miss key fetcher ttl w v' w1 h q,
          store_seen key v' (expiry key fetcher ttl w) (clock u.env) w1,
        )
      ])
