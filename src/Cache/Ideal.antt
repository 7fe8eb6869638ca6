-- ===== src/Cache/Ideal.antt =====
-- What the LRU cache of src/name_server/CRWD.c promises: the names and files it holds, the most
-- recently used first, sixteen at most. A name that is put again keeps the file it has.
use lang_os_distributed_file.Base.{
  ℕ, ◌≡◌, refl, Option, some, none, List, [], ◌∷◌, ◌++◌, Text, arith, if◌then◌else◌, str_eq,
  str_eq_iff, ◌==◌, length, suc, Run, ok, and_then, ap, Bool, true, ltb, ◌&&◌,
}
use lang_os_distributed_file.Cache.{LruCache, cache_size, lru_get, lru_put}
use lang_os_distributed_file.Cache.Order.{Entry}
use lang_os_distributed_file.Cache.Keys.{holders}

abbrev pub Recent : Type 0
Recent = List (Text × ℕ)

unfoldable pub file_of : Text → Recent → Option ℕ
file_of key [] = none
file_of key ((name, file) ∷ m) = if str_eq name key then some file else file_of key m

unfoldable pub without : Text → Recent → Recent
without key [] = []
without key ((name, file) ∷ m) = if str_eq name key then m else (name, file) ∷ without key m

unfoldable pub drop_last : Recent → Recent
drop_last [] = []
drop_last (e ∷ []) = []
drop_last (e ∷ f ∷ m) = e ∷ drop_last (f ∷ m)

unfoldable pub touch : Text → Recent → Recent
unfolding file_of without
touch key m = elim (file_of key m) [ none ↦ m | some file ↦ (key, file) ∷ without key m ]

unfoldable pub admit : ℕ → Text → Recent → Recent
unfolding file_of touch drop_last
admit file name m = elim (file_of name m) [
  | some _ ↦ touch name m
  | none ↦ (name, file) ∷ (if length m == cache_size then drop_last m else m)
]

-- The calls that other code makes.
pub data CacheOp : Type 0 where
  get : Text → CacheOp
  put : ℕ → Text → CacheOp

-- A sequence of calls on the linked nodes, with what the `get`s return.
unfoldable pub run_cache : LruCache → List CacheOp → Run (List (Option ℕ) × LruCache)
run_cache c [] = ok ([], c)
run_cache c (get key ∷ ops) =
    and_then (lru_get key c)
      λ (found, c). and_then (run_cache c ops) λ (rest, c). ok (found ∷ rest, c)
run_cache c (put file name ∷ ops) = and_then (lru_put file name c) λ (u, c). run_cache c ops

-- The same calls on the ideal cache.
unfoldable pub run_recent : Recent → List CacheOp → List (Option ℕ) × Recent
unfolding file_of touch admit
run_recent m [] = ([], m)
run_recent m (get key ∷ ops) =
    let (rest, m') = run_recent (touch key m) ops in (file_of key m ∷ rest, m')
run_recent m (put file name ∷ ops) = run_recent (admit file name m) ops

-- Every name that is put fits into the key of a node.
unfoldable pub short_names : List CacheOp → Bool
short_names [] = true
short_names (get key ∷ ops) = short_names ops
short_names (put file name ∷ ops) = ltb (length name) 100 && short_names ops

-- What the listed nodes hold.
unfoldable pub contents : List Entry → Recent
contents [] = []
contents (e ∷ es) = (e.key, e.file) ∷ contents es

pub contents-absent :
    (key : Text) (es : List Entry) → holders key es ≡ [] → file_of key (contents es) ≡ none
unfolding contents file_of holders
contents-absent key [] absent = refl
contents-absent key (e ∷ es) absent = ground (arith, contents-absent key es)

module _ (e : Entry) (ys : List Entry) where
  pub contents-found :
      (xs : List Entry)
      → holders e.key xs ≡ []
      → file_of e.key (contents (xs ++ e ∷ ys)) ≡ some e.file
  unfolding contents file_of holders
  contents-found [] absent = ground (arith, str_eq_iff e.key e.key)
  contents-found (x ∷ xs) absent = ground (arith, contents-found xs)

  pub contents-without :
      (xs : List Entry)
      → holders e.key xs ≡ []
      → without e.key (contents (xs ++ e ∷ ys)) ≡ contents (xs ++ ys)
  unfolding contents without holders
  contents-without [] absent = ground (arith, str_eq_iff e.key e.key)
  contents-without (x ∷ xs) absent = ground (arith, contents-without xs)

pub contents-drop_last :
    (xs : List Entry) (e : Entry) → drop_last (contents (xs ++ e ∷ [])) ≡ contents xs
unfolding contents drop_last
contents-drop_last [] e = refl
contents-drop_last (x ∷ []) e = refl
contents-drop_last (x ∷ y ∷ xs) e = ap (λ t. (x.key, x.file) ∷ t) (contents-drop_last (y ∷ xs) e)

pub length-contents : (es : List Entry) → length (contents es) ≡ length es
unfolding contents
length-contents [] = refl
length-contents (e ∷ es) = ap suc (length-contents es)
