-- ===== src/Table/Witnesses.antt =====
-- The theorems on the table at work on one key.
use mathlib.Core.List.{head?}
use lang_os_distributed_file.Base.{◌≡◌, refl, ℕ, lit, ok, List, [], ◌∷◌, Text, true}
use lang_os_distributed_file.Table.{HashTable, ht_create, ht_search}
use lang_os_distributed_file.Table.Laws.{
  refines_stacks, run_ops, run_stacks, stacks, TableOp, insert, delete, fit,
}

abbrev key : Text
key = lit "a.txt"

abbrev empty : HashTable ℕ
empty = ht_create

-- The second value under the key hides the first until it is deleted.
abbrev ops : List (TableOp ℕ)
ops = insert key 1 ∷ insert key 2 ∷ delete key ∷ []

all_short : fit ops ≡ true
unfolding fit
all_short = refl

refines_stacks_example :
    (t : HashTable ℕ) × ((run_ops empty ops ≡ ok t)
      × ((j : Text) → ht_search t j ≡ head? (run_stacks (stacks empty) ops j)))
refines_stacks_example = refines_stacks empty ops all_short
