-- ===== src/Cache/Shape.antt =====
-- The cache of src/name_server/CRWD.c whose links, keys and count agree, and the moves and the
-- eviction that keep them so.
use lang_os_distributed_file.Base.{
  ◌≡◌, ◌≤◌, refl, ◌∙◌, some, none, List, [], ◌∷◌, ◌++◌, Text, arith, length, ok, ◌⊎◌, inl, inr,
  length-append, ◌-◌, ap,
}
use mathlib.Core.List.{head?, tail, append-nil}
use lang_os_distributed_file.Table.{ht_delete, ht_search}
use lang_os_distributed_file.Table.Laws.{stacks, search-stacks, stacks-delete}
use lang_os_distributed_file.Cache.{LruCache, cache_size, move_to_front, evict, write, load}
use lang_os_distributed_file.Cache.Order.{
  Entry, Below, Below-middle, Linked-write, Apart-middle, last_of-append,
}
use lang_os_distributed_file.Cache.Detach.{IsThreaded, detach_node_lem}
use lang_os_distributed_file.Cache.Attach.{move_to_front_lem}
use lang_os_distributed_file.Cache.Keys.{
  holders, Keyed, holders-middle, Keyed-middle, holders-found, holders-last,
}

-- The cache stands for the listed nodes: they are threaded from its head to its tail, its hash
-- table finds exactly their keys, and its size counts them.
pub record Represents (c : LruCache) (es : List Entry) : Type 0 where
  pub threaded : IsThreaded c es
  pub below : Below c.fresh es
  pub keyed : Keyed es
  pub finds : (key : Text) → stacks c.lookup key ≡ holders key es
  pub counted : c.size ≡ length es
  pub room : length es ≤ cache_size

List-cases : {A : Type 0} (xs : List A) → (xs ≡ []) ⊎ ((x : A) × (r : List A) × (xs ≡ x ∷ r))
List-cases [] = inl refl
List-cases (x ∷ r) = inr (x, r, refl)

length-middle :
    (xs : List Entry) (e : Entry) (ys : List Entry) → length (xs ++ e ∷ ys) ≡ length (e ∷ xs ++ ys)
length-middle xs e ys = omega (arith, length-append xs (e ∷ ys), length-append xs ys)

-- A listed node at the front.
pub moves :
    (c : LruCache) (xs : List Entry) (e : Entry) (ys : List Entry)
    → Represents c (xs ++ e ∷ ys)
    → (c' : LruCache) × (move_to_front e.addr c ≡ ok (tt, c')) × Represents c' (e ∷ xs ++ ys)
moves c xs e ys r =
    let (head, tail, nodes, moved, threaded) = move_to_front_lem c xs e ys r.threaded in
    let (absent, keyed) = Keyed-middle xs e ys r.keyed in
    (
      record c { head = head; tail = tail; nodes = nodes },
      moved,
      record {
        threaded = threaded;
        below = Below-middle c.fresh xs e ys r.below;
        keyed = (absent, keyed);
        finds = λ key. r.finds key ∙ holders-middle key xs e ys absent;
        counted = r.counted ∙ length-middle xs e ys;
        room = rw (length-middle xs e ys) at r.room;
      },
    )

searched :
    (c : LruCache) (es : List Entry) (key : Text)
    → Represents c es
    → ht_search c.lookup key ≡ head? (holders key es)
searched c es key r = search-stacks c.lookup key ∙ ap head? (r.finds key)

-- A search either misses, or finds the one node with the key.
pub search-cases :
    (c : LruCache) (es : List Entry) (key : Text)
    → Represents c es
    → ((ht_search c.lookup key ≡ none) × (holders key es ≡ []))
      ⊎ ((xs : List Entry) × (e : Entry) × (ys : List Entry) × (es ≡ xs ++ e ∷ ys)
          × (e.key ≡ key)
          × (ht_search c.lookup key ≡ some e.addr)
          × (holders key xs ≡ []))
search-cases c es key r = elim (List-cases (holders key es)) [
  | inl absent ↦ inl (searched c es key r ∙ ap head? absent, absent)
  | inr (p, rest, found) ↦
      let (xs, e, ys, split, same, at, absent) = holders-found key es p rest found in
      inr (xs, e, ys, split, same, rw at (searched c es key r ∙ ap head? found), absent)
]

-- The tail leaves the cache.
pub evicts :
    (c : LruCache) (xs : List Entry) (e : Entry)
    → Represents c (xs ++ e ∷ [])
    → (c' : LruCache) × (evict c ≡ ok (tt, c')) × Represents c' xs
unfolding evict load
evicts c xs e r =
    let (head, tail, nodes, detached, threaded, here) = detach_node_lem c xs e [] r.threaded in
    let t = rw (append-nil xs) at threaded in
    let away = rw (append-nil xs) at ((Apart-middle xs e [] r.threaded.apart).0) in
    let (absent, keyed) = Keyed-middle xs e [] r.keyed in
    let last = r.threaded.tail ∙ last_of-append none xs (e ∷ []) in
    (
      record c {
        head = head;
        tail = tail;
        nodes = write nodes e.addr none;
        lookup = ht_delete c.lookup e.key;
        size = c.size - 1;
      },
      ground (arith, last, detached, here),
      record {
        threaded = record {
          head = t.head;
          tail = t.tail;
          links = Linked-write nodes e.addr none xs none none away t.links;
          apart = t.apart;
        };
        below = rw (append-nil xs) at ((Below-middle c.fresh xs e [] r.below).1);
        keyed = rw (append-nil xs) at keyed;
        finds = λ key.
            stacks-delete c.lookup e.key key
            ∙ (rw (r.finds key) (holders-last key xs e (rw (append-nil xs) at absent)));
        counted = omega (arith, r.counted, length-append xs (e ∷ []));
        room = omega (arith, r.room, length-append xs (e ∷ []));
      },
    )
