-- ===== src/Cache/Tests.antt =====
-- The cache in use: seventeen files with one-letter names, the first of which is evicted.
use lang_os_distributed_file.Base.{
  ◌≡◌, refl, ℕ, zero, suc, ◌+◌, Option, some, none, Exec, ◌>>◌, pure, Run, and_then, ok, [], ◌∷◌,
  str_eq,
}
use lang_os_distributed_file.Table.{ht_create, ht_search, ht_delete, ht_insert, hash_function}
use lang_os_distributed_file.Cache.{LruCache, lru_init, lru_get, lru_put}

fill : ℕ → Exec LruCache Unit
unfolding lru_put
fill zero = pure tt
fill (suc n) = do fill n; lru_put (100 + n) ((65 + n) ∷ [])

abbrev probe : Run (ℕ × Option ℕ × Option ℕ)
probe =
    and_then ((do fill 16; lru_get (65 ∷ []); lru_put 500 (97 ∷ []); pure tt) lru_init) λ (u, c).
      and_then (lru_get (65 ∷ []) c)
        λ (a, c). and_then (lru_get (66 ∷ []) c) λ (b, c). ok (c.size, a, b)

lru_evicts : probe ≡ ok (16, some 100, none)
unfolding fill lru_init lru_get ht_search ht_insert ht_delete ht_create hash_function str_eq
lru_evicts = refl
