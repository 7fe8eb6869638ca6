-- ===== src/Cache/Uses.antt =====
-- `lru_get` and `lru_put` of src/name_server/CRWD.c: neither follows a NULL or freed pointer, and
-- each does to the contents what the ideal cache does.
use lang_os_distributed_file.Base.{
  ℕ, ◌≡◌, refl, sym, ◌∙◌, ap, some, none, List, [], ◌∷◌, ◌++◌, Text, arith, length, ok, inl, inr,
  length-append, if◌then◌else◌, ◌==◌, ◌<◌, ◌+◌, strcpy, ==_iff, Bool-cases,
}
use lang_os_distributed_file.Table.Laws.{stacks-insert, ht_insert-fits}
use lang_os_distributed_file.Cache.{
  LruCache, cache_size, lru_get, lru_put, evict_if_full, add_node, write, load, store,
}
use lang_os_distributed_file.Cache.Order.{
  Entry, cell, Below-mono, Below-NotAt, Linked-write, last_of,
}
use lang_os_distributed_file.Cache.Attach.{attach_node_lem}
use lang_os_distributed_file.Cache.Keys.{holders, holders-prefix}
use lang_os_distributed_file.Cache.Detach.{IsThreaded}
use lang_os_distributed_file.Cache.Shape.{Represents, moves, search-cases, evicts}
use lang_os_distributed_file.Cache.Ideal.{
  file_of, contents, touch, admit, drop_last, contents-absent, contents-found, contents-without,
  contents-drop_last, length-contents,
}

-- A new node in front of a cache with room.
adds :
    (c : LruCache) (es : List Entry) (file : ℕ) (name : Text)
    → Represents c es
    → length es < cache_size
    → holders name es ≡ []
    → length name < 100
    → (c' : LruCache) × (add_node file name c ≡ ok (tt, c'))
      × Represents c' (record { addr = c.fresh; key = name; file = file } ∷ es)
unfolding add_node store strcpy holders
adds c es file name r space absent short =
    let e : Entry = record { addr = c.fresh; key = name; file = file } in
    let away = Below-NotAt c.fresh es r.below in
    let nodes = write c.nodes c.fresh (some (cell e none none)) in
    let t = r.threaded in
    let c1 : LruCache = record c { fresh = c.fresh + 1; nodes = nodes } in
    let threaded1 : IsThreaded c1 es = record {
      head = t.head;
      tail = t.tail;
      links = Linked-write c.nodes c.fresh _ es none none away t.links;
      apart = t.apart;
    } in
    let (nodes', attached, threaded) =
      attach_node_lem c1 e none none es (ground arith) away threaded1 in
    let (table, inserted) = ht_insert-fits c.lookup name c.fresh short in
    (
      record c1 {
        head = some e.addr;
        tail = last_of (some e.addr) es;
        nodes = nodes';
        lookup = table;
        size = c.size + 1;
      },
      ground (arith, attached, inserted),
      record {
        threaded = record {
          head = threaded.head;
          tail = threaded.tail;
          links = threaded.links;
          apart = threaded.apart;
        };
        below = (omega arith, Below-mono c.fresh (c.fresh + 1) es (omega arith) r.below);
        keyed = (absent, r.keyed);
        finds = λ key. stacks-insert c.lookup name key c.fresh inserted ∙ rw (r.finds key) refl;
        counted = omega (arith, r.counted);
        room = omega arith;
      },
    )

-- The search of the list is the search of the contents.
found-contents :
    (key : Text) (es xs : List Entry) (e : Entry) (ys : List Entry)
    → es ≡ xs ++ e ∷ ys
    → e.key ≡ key
    → holders key xs ≡ []
    → (file_of key (contents es) ≡ some e.file)
      × (contents (e ∷ xs ++ ys) ≡ touch key (contents es))
unfolding contents touch
found-contents key es xs e ys split same absent =
    let absent' : holders e.key xs ≡ [] = rw same absent in
    let found = contents-found e ys xs absent' in
    let left = contents-without e ys xs absent' in
    (ground (arith, found, split, same), ground (arith, found, left, split, same))

pub lru_get_lem :
    (c : LruCache) (es : List Entry) (key : Text)
    → Represents c es
    → (c' : LruCache) × (es' : List Entry) × (lru_get key c ≡ ok (file_of key (contents es), c'))
      × Represents c' es'
      × (contents es' ≡ touch key (contents es))
unfolding lru_get load touch
lru_get_lem c es key r = elim (search-cases c es key r) [
  | inl (missed, absent) ↦
      let none_here = contents-absent key es absent in
      (c, es, ground (arith, missed, none_here), r, ground (arith, none_here))
  | inr (xs, e, ys, split, same, found, absent) ↦
      let (c', moved, r') = moves c xs e ys (rw split at r) in
      let (file, touched) = found-contents key es xs e ys split same absent in
      (c', e ∷ xs ++ ys, ground (arith, found, moved, file, r'.threaded.links.0), r', touched)
]

snoc-cases :
    (e : Entry) (es : List Entry) → (xs : List Entry) × (z : Entry) × (e ∷ es ≡ xs ++ z ∷ [])
snoc-cases e [] = ([], e, refl)
snoc-cases e (f ∷ es) = let (xs, z, split) = snoc-cases f es in (e ∷ xs, z, ap (λ t. e ∷ t) split)

-- The cache has room after the eviction, and lost its last entry if it was full.
makes_room :
    (c : LruCache) (es : List Entry)
    → Represents c es
    → (c' : LruCache) × (es' : List Entry) × (evict_if_full c ≡ ok (tt, c'))
      × Represents c' es'
      × (length es' < cache_size)
      × (contents es'
          ≡ (if length (contents es) == cache_size then drop_last (contents es) else contents es))
      × ((key : Text) → holders key es ≡ [] → holders key es' ≡ [])
unfolding evict_if_full
makes_room c [] r = (
  c,
  [],
  ground (arith, r.counted),
  r,
  omega arith,
  ground (arith, length-contents []),
  λ key absent. absent,
)
makes_room c (e ∷ es) r = elim (Bool-cases (length (e ∷ es) == cache_size)) [
  | inl full ↦
      let (xs, z, split) = snoc-cases e es in
      let (c', evicted, r') = evicts c xs z (rw split at r) in
      let measured = length-append xs (z ∷ []) in
      let counted = r.counted in
      let split_length = ap length split in
      (
        c',
        xs,
        ground (arith, full, counted, evicted),
        r',
        omega (arith, (==_iff _ _).0 full),
        rw (length-contents (e ∷ es), full)
            (sym (ap (λ t. drop_last (contents t)) split ∙ contents-drop_last xs z)),
        λ key absent. holders-prefix key xs (z ∷ []) (rw split at absent),
      )
  | inr space ↦ (
    c,
    e ∷ es,
    ground (arith, space, r.counted),
    r,
    ground (arith, space, r.room),
    ground (arith, space, length-contents (e ∷ es)),
    λ key absent. absent,
  )
]

pub lru_put_lem :
    (c : LruCache) (es : List Entry) (file : ℕ) (name : Text)
    → Represents c es
    → length name < 100
    → (c' : LruCache) × (es' : List Entry) × (lru_put file name c ≡ ok (tt, c'))
      × Represents c' es'
      × (contents es' ≡ admit file name (contents es))
unfolding lru_put admit contents
lru_put_lem c es file name r short = elim (search-cases c es name r) [
  | inl (missed, absent) ↦
      let (c', es', evicted, r', space, rest, away) = makes_room c es r in
      let (c'', added, r'') = adds c' es' file name r' space (away name absent) short in
      (
        c'',
        record { addr = c'.fresh; key = name; file = file } ∷ es',
        ground (arith, missed, evicted, added),
        r'',
        ground (arith, contents-absent name es absent, rest),
      )
  | inr (xs, e, ys, split, same, found, absent) ↦
      let (c', moved, r') = moves c xs e ys (rw split at r) in
      let (file', touched) = found-contents name es xs e ys split same absent in
      (c', e ∷ xs ++ ys, ground (arith, found, moved), r', ground (arith, touched, file'))
]
