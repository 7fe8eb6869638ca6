-- ===== src/Cache/Refine.antt =====
-- The cache of src/name_server/CRWD.c against the ideal cache, over every sequence of calls.
use lang_os_distributed_file.Base.{
  ℕ, ◌≡◌, ◌<◌, refl, sym, ◌∙◌, ap, Option, List, [], ◌∷◌, Text, arith, length, ok, true,
}
use lang_os_distributed_file.Table.Laws.{stacks-create}
use lang_os_distributed_file.Cache.{LruCache, lru_init, lru_get, lru_put}
use lang_os_distributed_file.Cache.Order.{Entry}
use lang_os_distributed_file.Cache.Keys.{holders}
use lang_os_distributed_file.Cache.Shape.{Represents}
use lang_os_distributed_file.Cache.Uses.{lru_get_lem, lru_put_lem}
use lang_os_distributed_file.Cache.Ideal.{
  CacheOp, get, put, run_cache, run_recent, short_names, contents, length-contents,
}

pub lru_init-Represents : Represents lru_init []
unfolding lru_init holders
lru_init-Represents = record {
  threaded = record { head = refl; tail = refl; links = tt; apart = tt };
  below = tt;
  keyed = tt;
  finds = λ key. stacks-create key;
  counted = refl;
  room = omega arith;
}

refines_from :
    (c : LruCache) (es : List Entry) (ops : List CacheOp)
    → Represents c es
    → short_names ops ≡ true
    → (c' : LruCache) × (es' : List Entry) × (run_cache c ops
        ≡ ok ((run_recent (contents es) ops).0, c'))
      × Represents c' es'
      × (contents es' ≡ (run_recent (contents es) ops).1)
unfolding run_cache run_recent short_names
refines_from c es [] r short = (c, es, refl, r, refl)
refines_from c es (get key ∷ ops) r short =
    let (c', es', got, r', moved) = lru_get_lem c es key r in
    let (last, es'', runs, r'', rest) = refines_from c' es' ops r' short in
    (last, es'', ground (arith, got, runs, moved), r'', ground (arith, rest, moved))
refines_from c es (put file name ∷ ops) r short =
    let (c', es', done, r', moved) = lru_put_lem c es file name r (ground (arith, short)) in
    let (last, es'', runs, r'', rest) = refines_from c' es' ops r' (ground (arith, short)) in
    (last, es'', ground (arith, done, runs, moved), r'', ground (arith, rest, moved))

-- Every sequence of gets and puts, of names that fit the buffer of a key, runs to its end from the
-- empty cache: it follows no NULL or freed pointer. Each get returns what the ideal cache of the
-- sixteen most recently used names returns, and the size of the cache is the number of names that
-- the ideal cache holds.
pub cache_refines :
    (ops : List CacheOp)
    → short_names ops ≡ true
    → (c : LruCache) × (run_cache lru_init ops ≡ ok ((run_recent [] ops).0, c))
      × (c.size ≡ length (run_recent [] ops).1)
unfolding contents
cache_refines ops short =
    let (c, es, runs, r, held) = refines_from lru_init [] ops lru_init-Represents short in
    (c, runs, r.counted ∙ sym (length-contents es) ∙ ap length held)

-- The caches that calls of `lru_get` and `lru_put` can bring about.
pub data Reach : LruCache → Type 0 where
  created : Reach lru_init
  got :
      {c c' : LruCache} (key : Text) {found : Option ℕ}
      → Reach c
      → lru_get key c ≡ ok (found, c')
      → Reach c'
  stored :
      {c c' : LruCache} (file : ℕ) (name : Text)
      → length name < 100
      → Reach c
      → lru_put file name c ≡ ok (tt, c')
      → Reach c'

-- In every cache that gets and puts can bring about, there is an order of the nodes with these
-- properties: following `next` from the head and `prev` from the tail passes through the nodes in
-- this order, at distinct addresses that are all allocated; no key stands twice; the hash table
-- finds exactly the keys of the listed nodes, each at its node; the size counts the nodes and is
-- at most sixteen.
pub cache_invariant : {c : LruCache} → Reach c → (es : List Entry) × Represents c es
cache_invariant created = ([], lru_init-Represents)
cache_invariant (got {c} {c'} key reach h) =
    let (es, r) = cache_invariant reach in
    let (d, es', runs, r', held) = lru_get_lem c es key r in
    let same : d ≡ c' = cc in (es', rw (← same) r')
cache_invariant (stored {c} {c'} file name short reach h) =
    let (es, r) = cache_invariant reach in
    let (d, es', runs, r', held) = lru_put_lem c es file name r short in
    let same : d ≡ c' = cc in (es', rw (← same) r')
