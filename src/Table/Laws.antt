-- ===== src/Table/Laws.antt =====
-- The table refines a map from keys to stacks of values: `ht_insert` pushes, `ht_delete` pops and
-- `ht_search` reads the top.
use lang_os_distributed_file.Base.{
  ◌<◌, List, [], ◌∷◌, some, Text, ok, Run, and_then, Bool, true, ltb, ◌&&◌, ◌∙◌, strcpy, str_eq,
  str_eq_iff, if◌then◌else◌, ◌≡◌, refl, arith, length, ap,
}
use mathlib.Core.List.{head?, tail}
use lang_os_distributed_file.Table.{
  HtItem, HashTable, ht_size, hash_function, ht_create, set_bucket, ht_insert, search_chain,
  ht_search, unlink_item, ht_delete,
}

-- The index of a key lies inside the array of buckets.
pub hash_function-lt : (key : Text) → hash_function key < ht_size
unfolding hash_function
hash_function-lt key = omega arith

module _ {ℓ} {V : Type ℓ} where
  -- The values stored under a key in one chain, newest first.
  pub stack_of : Text → List (HtItem V) → List V
  stack_of key [] = []
  stack_of key (item ∷ chain) =
      let rest = stack_of key chain in if str_eq item.key key then item.value ∷ rest else rest

  -- The abstract view of a table: each key's stack of values.
  unfoldable pub stacks : HashTable V → Text → List V
  stacks table key = stack_of key (table.buckets (hash_function key))

  search_chain-stack :
      (key : Text) (chain : List (HtItem V)) → search_chain key chain ≡ head? (stack_of key chain)
  unfolding search_chain stack_of
  search_chain-stack key [] = refl
  search_chain-stack key (item ∷ chain) = ground (arith, search_chain-stack key chain)

  stack_of-unlink :
      (key j : Text) (chain : List (HtItem V))
      → stack_of j (unlink_item key chain)
        ≡ (if str_eq key j then tail (stack_of j chain) else stack_of j chain)
  unfolding unlink_item stack_of
  stack_of-unlink key j [] = ground arith
  stack_of-unlink key j (item ∷ chain) = ground (
    arith,
    stack_of-unlink key j chain,
    str_eq_iff item.key key,
    str_eq_iff item.key j,
    str_eq_iff key j,
  )

  pub search-stacks :
      (table : HashTable V) (key : Text) → ht_search table key ≡ head? (stacks table key)
  unfolding ht_search stacks
  search-stacks table key = search_chain-stack key (table.buckets (hash_function key))

  pub stacks-create : (key : Text) → stacks ht_create key ≡ []
  unfolding stacks ht_create stack_of
  stacks-create key = refl

  module _ (table : HashTable V) (key j : Text) where
    pub stacks-insert :
        (value : V) {table' : HashTable V}
        → ht_insert table key value ≡ ok table'
        → stacks table' j ≡ (if str_eq key j then value ∷ stacks table j else stacks table j)
    unfolding ht_insert stacks stack_of strcpy
    stacks-insert value h = ground (arith, str_eq_iff key j)

    pub stacks-delete :
        stacks (ht_delete table key) j
        ≡ (if str_eq key j then tail (stacks table j) else stacks table j)
    unfolding ht_delete stacks
    stacks-delete =
        ground (arith, str_eq_iff key j, stack_of-unlink key j (table.buckets (hash_function key)))

  pub ht_insert-fits :
      (table : HashTable V) (key : Text) (value : V)
      → length key < 100
      → (table' : HashTable V) × (ht_insert table key value ≡ ok table')
  unfolding ht_insert strcpy
  ht_insert-fits table key value short =
      let index = hash_function key in
      (
        set_bucket table index (record { key = key; value = value } ∷ table.buckets index),
        ground (arith, short),
      )

  -- Deleting a key undoes the insertion of that key: every search finds what it found before.
  pub search-delete-insert :
      (table : HashTable V) (key j : Text) (value : V) {table' : HashTable V}
      → ht_insert table key value ≡ ok table'
      → ht_search (ht_delete table' key) j ≡ ht_search table j
  search-delete-insert table key j value {table'} h = ground (
    arith,
    search-stacks table j,
    search-stacks (ht_delete table' key) j,
    stacks-delete table' key j,
    stacks-insert table key j value h,
  )

  -- What a search finds after an insertion: the new value under its key, and no change under any
  -- other key.
  pub search-insert :
      (table : HashTable V) (key j : Text) (value : V) {table' : HashTable V}
      → ht_insert table key value ≡ ok table'
      → ht_search table' j ≡ (if str_eq key j then some value else ht_search table j)
  search-insert table key j value {table'} h =
      ground
        (arith, search-stacks table j, search-stacks table' j, stacks-insert table key j value h)

-- The operations that change a table.
pub data TableOp {ℓ} (V : Type ℓ) : Type ℓ where
  insert : Text → V → TableOp V
  delete : Text → TableOp V

module _ {ℓ} {V : Type ℓ} where
  -- A sequence of them on the table, and on the stacks.
  pub run_ops : HashTable V → List (TableOp V) → Run (HashTable V)
  run_ops table [] = ok table
  run_ops table (insert key value ∷ ops) =
      and_then (ht_insert table key value) λ table. run_ops table ops
  run_ops table (delete key ∷ ops) = run_ops (ht_delete table key) ops

  pub run_stacks : (Text → List V) → List (TableOp V) → Text → List V
  run_stacks m [] = m
  run_stacks m (insert key value ∷ ops) =
      run_stacks (λ j. if str_eq key j then value ∷ m j else m j) ops
  run_stacks m (delete key ∷ ops) = run_stacks (λ j. if str_eq key j then tail (m j) else m j) ops

  -- Every key that is inserted fits into its buffer.
  unfoldable pub fit : List (TableOp V) → Bool
  fit [] = true
  fit (insert key value ∷ ops) = ltb (length key) 100 && fit ops
  fit (delete key ∷ ops) = fit ops

  run_stacks-cong :
      (ops : List (TableOp V)) (m m' : Text → List V) (j : Text)
      → ((k : Text) → m k ≡ m' k)
      → run_stacks m ops j ≡ run_stacks m' ops j
  unfolding run_stacks
  run_stacks-cong [] m m' j same = same j
  run_stacks-cong (insert key value ∷ ops) m m' j same =
      run_stacks-cong ops _ _ j (λ k. ground (arith, same k))
  run_stacks-cong (delete key ∷ ops) m m' j same =
      run_stacks-cong ops _ _ j (λ k. ground (arith, same k))

  -- A sequence of insertions and deletions whose inserted keys fit runs to its end, and a search
  -- afterwards finds the top of the key's stack, where an insertion pushes and a deletion pops.
  pub refines_stacks :
      (table : HashTable V) (ops : List (TableOp V))
      → fit ops ≡ true
      → (table' : HashTable V) × ((run_ops table ops ≡ ok table')
          × ((j : Text) → ht_search table' j ≡ head? (run_stacks (stacks table) ops j)))
  unfolding run_ops run_stacks fit
  refines_stacks table [] h = (table, (refl, search-stacks table))
  refines_stacks table (insert key value ∷ ops) h =
      let (table', inserted) = ht_insert-fits table key value (ground (arith, h)) in
      let (last, (runs, finds)) = refines_stacks table' ops (ground (arith, h)) in
      (
        last,
        (
          ground (arith, inserted, runs),
          λ j.
              finds j
              ∙ ap head?
                  (run_stacks-cong ops _ _ j (λ k. stacks-insert table key k value inserted)),
        ),
      )
  refines_stacks table (delete key ∷ ops) h =
      let (last, (runs, finds)) = refines_stacks (ht_delete table key) ops h in
      (
        last,
        (
          runs,
          λ j. finds j ∙ ap head? (run_stacks-cong ops _ _ j (λ k. stacks-delete table key k)),
        ),
      )
