-- ===== src/Table.antt =====
-- src/name_server/hash_table.h: the chained table of `HT_SIZE` buckets with the djb2 hash.
-- The array is a function of the index and a chain is a list of items, newest first. A table
-- pointer is never NULL: `main` creates both tables before it accepts a connection.
pub mod Laws
mod Witnesses
mod Tests
use lang_os_distributed_file.Base.{
  ℕ, ◌+◌, ◌-◌, ◌*◌, ◌%◌, ◌^◌, List, [], ◌∷◌, Option, none, some, Text, Run, ok, fault, blocked,
  and_then, strcpy, str_eq, ltb, ◌==◌, if◌then◌else◌,
}

abbrev pub ht_size : ℕ
ht_size = 1024

pub record HtItem {ℓ} (V : Type ℓ) : Type ℓ where
  pub key : Text
  pub value : V

pub record HashTable {ℓ} (V : Type ℓ) : Type ℓ where
  pub buckets : ℕ → List (HtItem V)

-- `int c = *str++`: a `char` is signed, and `c` is added to an unsigned long of 64 bits.
abbrev pub sign_extend : ℕ → ℕ
sign_extend c = if ltb c 128 then c else c + (2 ^ 64 - 256)

-- The loop of `hash_function`; `(hash << 5) + hash` wraps at 64 bits.
pub hash_loop : ℕ → Text → ℕ
hash_loop hash [] = hash
hash_loop hash (c ∷ str) = hash_loop ((hash * 32 + hash + sign_extend c) % 2 ^ 64) str

unfoldable pub hash_function : Text → ℕ
unfolding hash_loop
hash_function str = hash_loop 5381 str % ht_size

module _ {ℓ} {V : Type ℓ} where
  unfoldable pub ht_create : HashTable V
  ht_create = record { buckets = λ i. [] }

  -- table->buckets[index] = chain
  pub set_bucket : HashTable V → ℕ → List (HtItem V) → HashTable V
  set_bucket table index chain = record {
    buckets = λ i. if i == index then chain else table.buckets i;
  }

  unfoldable pub ht_insert : HashTable V → Text → V → Run (HashTable V)
  unfolding set_bucket
  ht_insert table key value =
      let index = hash_function key in
      and_then (strcpy 100 key) λ copy.
        ok (set_bucket table index (record { key = copy; value = value } ∷ table.buckets index))

  -- The loop of `ht_search`.
  unfoldable pub search_chain : Text → List (HtItem V) → Option V
  search_chain key [] = none
  search_chain key (item ∷ chain) =
      if str_eq item.key key then some item.value else search_chain key chain

  unfoldable pub ht_search : HashTable V → Text → Option V
  unfolding search_chain
  ht_search table key = search_chain key (table.buckets (hash_function key))

  -- The loop of `ht_delete` unlinks the first item with the key.
  pub unlink_item : Text → List (HtItem V) → List (HtItem V)
  unlink_item key [] = []
  unlink_item key (item ∷ chain) =
      if str_eq item.key key then chain else item ∷ unlink_item key chain

  unfoldable pub ht_delete : HashTable V → Text → HashTable V
  unfolding unlink_item set_bucket
  ht_delete table key =
      let index = hash_function key in
      set_bucket table index (unlink_item key (table.buckets index))
