-- ===== src/Cache.antt =====
-- src/name_server/CRWD.c, the LRU cache in front of the file table: a doubly linked list of nodes,
-- most recently used first, and a hash table from file names to nodes. Nodes stand at addresses;
-- `malloc` returns an address that no node had before, and `free` empties one. A file is the
-- address of its `FileMetadata`. The global `file_cache` is not NULL: `main` calls `lru_init`
-- before it accepts a connection.
mod Tests
pub mod Order
mod Detach
mod Attach
mod Keys
pub mod Ideal
pub mod Shape
pub mod Uses
pub mod Refine
pub mod Recall
mod Witnesses
use lang_os_distributed_file.Base.{
  ℕ, ◌+◌, ◌-◌, Option, none, some, Text, Exec, Run, ok, fault, blocked, raise, modify, gets, pure,
  lift, ◌>>=◌, ◌>>◌, null_pointer, use_after_free, strcpy, ◌==◌, if◌then◌else◌,
}
use lang_os_distributed_file.Table.{HashTable, ht_create, ht_insert, ht_search, ht_delete}

abbrev pub cache_size : ℕ
cache_size = 16

pub record CacheNode : Type 0 where
  pub key : Text
  pub file : ℕ
  pub prev : Option ℕ
  pub next : Option ℕ

pub record LruCache : Type 0 where
  pub size : ℕ
  pub head : Option ℕ
  pub tail : Option ℕ
  pub lookup : HashTable ℕ
  pub nodes : ℕ → Option CacheNode
  pub fresh : ℕ

unfoldable pub lru_init : LruCache
lru_init = record {
  size = 0;
  head = none;
  tail = none;
  lookup = ht_create;
  nodes = λ p. none;
  fresh = 0;
}

-- A node with `none` has been freed.
abbrev pub write : (ℕ → Option CacheNode) → ℕ → Option CacheNode → ℕ → Option CacheNode
write nodes p node q = if q == p then node else nodes q

unfoldable pub load : ℕ → Exec LruCache CacheNode
load p c = elim (c.nodes p) [ none ↦ fault use_after_free | some node ↦ ok (node, c) ]

unfoldable pub store : ℕ → CacheNode → Exec LruCache Unit
store p node = modify (λ c. record c { nodes = write c.nodes p (some node) })

-- p->next = q and p->prev = q
unfoldable pub set_next : ℕ → Option ℕ → Exec LruCache Unit
unfolding load store
set_next p q = do node ← load p; store p (record node { next = q })

unfoldable pub set_prev : ℕ → Option ℕ → Exec LruCache Unit
unfolding load store
set_prev p q = do node ← load p; store p (record node { prev = q })

abbrev pub set_head : Option ℕ → Exec LruCache Unit
set_head p = modify (λ c. record c { head = p })

abbrev pub set_tail : Option ℕ → Exec LruCache Unit
set_tail p = modify (λ c. record c { tail = p })

-- The first `if` of `detach_node`; `node` is read again by the second.
unfoldable pub detach_prev : CacheNode → Exec LruCache Unit
unfolding set_next
detach_prev node = elim node.prev [ some q ↦ set_next q node.next | none ↦ set_head node.next ]

unfoldable pub detach_next : CacheNode → Exec LruCache Unit
unfolding set_prev
detach_next node = elim node.next [ some q ↦ set_prev q node.prev | none ↦ set_tail node.prev ]

unfoldable pub detach_node : ℕ → Exec LruCache Unit
unfolding load detach_prev detach_next
detach_node p = do node ← load p; detach_prev node; node ← load p; detach_next node

-- The second half of `attach_node`, when the node points to the old head.
unfoldable pub attach_head : ℕ → Option ℕ → Exec LruCache Unit
unfolding set_prev
attach_head p none = pure tt
attach_head p (some old) = set_prev old (some p)

unfoldable pub attach_tail : ℕ → Option ℕ → Exec LruCache Unit
attach_tail p none = set_tail (some p)
attach_tail p (some old) = pure tt

unfoldable pub attach_node : ℕ → Exec LruCache Unit
unfolding set_next set_prev attach_head attach_tail
attach_node p = do
  old ← gets (λ c. c.head)
  set_next p old
  set_prev p none
  attach_head p old
  set_head (some p)
  last ← gets (λ c. c.tail)
  attach_tail p last

-- The cache hit of `lru_get` and of `lru_put`.
unfoldable pub move_to_front : ℕ → Exec LruCache Unit
unfolding detach_node attach_node
move_to_front p = do detach_node p; attach_node p

unfoldable pub lru_get : Text → Exec LruCache (Option ℕ)
unfolding move_to_front load
lru_get key c = elim (ht_search c.lookup key) [
  | none ↦ ok (none, c)
  | some p ↦ (do move_to_front p; node ← load p; pure (some node.file)) c
]

abbrev pub deref : Option ℕ → Exec LruCache ℕ
deref none = raise null_pointer
deref (some p) = pure p

-- The eviction of the tail when the cache is full.
unfoldable pub evict : Exec LruCache Unit
unfolding detach_node load
evict = do
  last ← gets (λ c. c.tail)
  p ← deref last
  detach_node p
  node ← load p
  modify λ c. record c {
    lookup = ht_delete c.lookup node.key;
    nodes = write c.nodes p none;
    size = c.size - 1;
  }

-- A new node at the front; `name` is `file->filename`.
unfoldable pub add_node : ℕ → Text → Exec LruCache Unit
unfolding store attach_node strcpy
add_node file name = do
  p ← gets (λ c. c.fresh)
  key ← lift (strcpy 100 name)
  modify (λ c. record c { fresh = p + 1 })
  store p (record { key = key; file = file; prev = none; next = none })
  attach_node p
  table ← (λ c. lift (ht_insert c.lookup key p) c)
  modify (λ c. record c { lookup = table; size = c.size + 1 })

unfoldable pub evict_if_full : Exec LruCache Unit
unfolding evict
evict_if_full c = if c.size == cache_size then evict c else ok (tt, c)

unfoldable pub lru_put : ℕ → Text → Exec LruCache Unit
unfolding move_to_front evict_if_full add_node
lru_put file name c = elim (ht_search c.lookup name) [
  | some p ↦ move_to_front p c
  | none ↦ (do evict_if_full; add_node file name) c
]
