-- ===== src/Cache/Witnesses.antt =====
-- The theorems on the cache at work on a few calls.
use lang_os_distributed_file.Base.{
  ◌≡◌, refl, arith, some, List, [], ◌∷◌, lit, ok, fault, blocked, true, length, str_eq,
}
use lang_os_distributed_file.Table.{ht_create, ht_search, ht_insert, hash_function, search_chain}
use lang_os_distributed_file.Cache.{LruCache, lru_init, lru_get, lru_put}
use lang_os_distributed_file.Cache.Order.{Entry}
use lang_os_distributed_file.Cache.Shape.{Represents}
use lang_os_distributed_file.Cache.Ideal.{CacheOp, get, put, run_cache, run_recent, short_names}
use lang_os_distributed_file.Cache.Refine.{created, stored, got, cache_refines, cache_invariant}

-- A hit, a miss, and a name that is put twice.
abbrev ops : List CacheOp
ops = put 1 (lit "a") ∷ put 2 (lit "b") ∷ get (lit "a") ∷ put 3 (lit "b") ∷ get (lit "c") ∷ []

all_short : short_names ops ≡ true
unfolding short_names
all_short = refl

cache_refines_example :
    (c : LruCache) × (run_cache lru_init ops ≡ ok ((run_recent [] ops).0, c))
    × (c.size ≡ length (run_recent [] ops).1)
cache_refines_example = cache_refines ops all_short

abbrev after_put : LruCache
after_put = elim (lru_put 5 (lit "a") lru_init) [
  | ok (u, c) ↦ c
  | fault e ↦ lru_init
  | blocked ↦ lru_init
]

put_runs : lru_put 5 (lit "a") lru_init ≡ ok (tt, after_put)
unfolding lru_put lru_init ht_search ht_insert ht_create hash_function search_chain
put_runs = refl

abbrev after_get : LruCache
after_get = elim (lru_get (lit "a") after_put) [
  | ok (r, c) ↦ c
  | fault e ↦ lru_init
  | blocked ↦ lru_init
]

get_runs : lru_get (lit "a") after_put ≡ ok (some 5, after_get)
unfolding lru_get lru_put lru_init ht_search ht_insert ht_create hash_function search_chain str_eq
get_runs = refl

cache_invariant_example : (es : List Entry) × Represents after_get es
cache_invariant_example =
    cache_invariant (got (lit "a") (stored 5 (lit "a") (omega arith) created put_runs) get_runs)
