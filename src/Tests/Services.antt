-- ===== src/Tests/Services.antt =====
-- Polling, the cache and the batches on a clock of milliseconds, and separators of thousands.
use set.Prelude.{
  ℕ, ◌+◌, ◌*◌, ◌≡◌, refl, Bool, none, some, List, [], ◌∷◌, map, ltb, arith, if◌then◌else◌, length,
}
use set.Prelude.Text.{codes}
use set.Effects.{ok, Action}
use set.Polling.{Provider, poll_until, watch_transaction}
use set.Polling.Rounds.{Ends}
use set.Polling.Until.{until_round, not_met, poll_until-Ends}
use set.Polling.Watch.{Watched, watch_transaction-Watched}
use set.Transactions.Builder.{TransactionReceipt}
use set.Transactions.Cache.{CacheState, Entry, get_or_fetch, cache_get}
use set.Transactions.Cache.View.{seen, Refines, cache-Refines}
use set.Transactions.Cache.Fetching.{get_or_fetch_reused}
use set.Transactions.Batches.{process_batched, process_batched-map}
use set.Prelude.Int.{pos}
use set.Formatting.{Units, add_thousands_separators, remove_commas, parse_amount, or_invalid}
use set.Formatting.Separators.{parse_amount-separators}
use set.Tests.Fixture.{sample_runtime}

-- A condition that is met from the time 3000 on; each question takes 10 ms.
abbrev after_3000 : Action ℕ Bool
after_3000 now = (ok (ltb 3000 now), now + 10)

poll_until-Ends_example :
    Ends sample_runtime
      (until_round after_3000)
      2000
      120000
      (not_met (codes "Condition"))
      0
      0
      (poll_until sample_runtime after_3000 2000 120000 (codes "Condition") 0)
poll_until-Ends_example =
    poll_until-Ends sample_runtime after_3000 2000 120000 (codes "Condition") 0
      (record { forward = λ s. omega arith; waits = λ s. omega arith; positive = omega arith })

abbrev sample_receipt : TransactionReceipt
sample_receipt = record { status = 1; gas_used = 21000; gas_price = 2; block_number = 7 }

abbrev sample_provider : Provider ℕ
sample_provider = record {
  get_transaction_receipt = λ hash s. (ok (if ltb s 1000 then none else some sample_receipt), s);
  get_block_number = λ s. (ok 9, s);
}

watched :
    watch_transaction sample_runtime sample_provider (codes "0xaa") 3 120000 0
    ≡ some (ok sample_receipt, 2000)
unfolding watch_transaction
watched = refl

watch_transaction-Watched_example :
    Watched sample_runtime sample_provider (codes "0xaa") 3 120000 (ok sample_receipt) 2000
watch_transaction-Watched_example =
    watch_transaction-Watched sample_runtime sample_provider (codes "0xaa") 3 120000 0 2000
      (ok sample_receipt) watched

abbrev clock : ℕ → ℕ
clock s = s

abbrev sample_cache : CacheState ℕ ℕ
sample_cache = record {
  env = 100;
  entries =
      (codes "a", record { value = 5; expires_at = 150 })
      ∷ (codes "b", record { value = 6; expires_at = 90 })
      ∷ [];
}

cache-Refines_example : Refines clock 30 sample_cache 120 (codes "b")
cache-Refines_example = cache-Refines clock 30 sample_cache 120 (codes "b") (omega arith)

abbrev fetch : ℕ → Action (CacheState ℕ ℕ) ℕ
fetch n w = (ok n, record w { env = w.env + 5 })

abbrev fetched : CacheState ℕ ℕ
fetched = record {
  env = 105;
  entries =
      (codes "a", record { value = 5; expires_at = 150 })
      ∷ (codes "b", record { value = 8; expires_at = 130 })
      ∷ [];
}

missed : seen sample_cache 100 (codes "b") ≡ none
unfolding set.Transactions.Cache.fresh_value set.Transactions.Cache.Entries.lookup
missed = refl

stored : get_or_fetch clock 30 (codes "b") (fetch 8) none sample_cache ≡ (ok 8, fetched)
unfolding get_or_fetch set.Transactions.Cache.Entries.lookup set.Transactions.Cache.Entries.put
stored = refl

get_or_fetch_reused_example :
    get_or_fetch clock 30 (codes "b") (fetch 9) none (record fetched { env = 129 })
    ≡ (ok 8, record fetched { env = 129 })
get_or_fetch_reused_example =
    get_or_fetch_reused clock 30 (codes "b") (fetch 8) (fetch 9) none none sample_cache fetched
      (record fetched { env = 129 }) 8 missed stored refl (omega arith)

abbrev double_all : List ℕ → Action ℕ (List ℕ)
double_all batch s = (ok (map (λ x. 2 * x) batch), s + 1)

process_batched-map_example :
    (t : ℕ) × (process_batched (λ ms s. s + ms) (1 ∷ 2 ∷ 3 ∷ []) 2 double_all 100 0
      ≡ some (ok (2 ∷ 4 ∷ 6 ∷ []), t))
process_batched-map_example =
    process_batched-map (λ ms s. s + ms) (1 ∷ 2 ∷ 3 ∷ []) 2 double_all 100 (λ x. 2 * x)
      (λ batch s. refl) 0 (omega arith)

-- Units that read a text as its length.
abbrev sample_units : Units
sample_units = record {
  format_units = λ amount decimals. codes "0";
  parse_units = λ s decimals. ok (pos (length s));
  fixed = λ a b n. codes "0";
}

parse_amount-separators_example :
    (remove_commas (add_thousands_separators (codes "-1234")) ≡ codes "-1234")
    × (parse_amount sample_units (add_thousands_separators (codes "-1234")) 6
        ≡ or_invalid (add_thousands_separators (codes "-1234")) (ok (pos 5)))
parse_amount-separators_example =
    parse_amount-separators sample_units (codes "-1234") 6
      (refl, (refl, (refl, (refl, (refl, tt)))))

separated : add_thousands_separators (codes "-1234") ≡ codes "-1,234"
unfolding set.Formatting.add_thousands_separators
separated = refl
