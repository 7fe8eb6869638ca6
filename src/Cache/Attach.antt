-- ===== src/Cache/Attach.antt =====
-- `attach_node` of src/name_server/CRWD.c puts a node in front of the list, and the two together
-- move a listed node there.
use lang_os_distributed_file.Base.{
  ℕ, ◌≡◌, ◌≢◌, refl, sym, ◌∙◌, Option, some, none, List, [], ◌∷◌, ◌++◌, ok, arith,
}
use lang_os_distributed_file.Cache.{
  CacheNode, LruCache, write, load, store, attach_node, move_to_front,
}
use lang_os_distributed_file.Cache.Order.{
  Entry, cell, first_of, last_of, NotAt, Linked-write, Apart-middle,
}
use lang_os_distributed_file.Cache.Detach.{IsThreaded, detach_node_lem}

-- The writes of `attach_node` when a first node stands at `q`, for any nodes.
attach_run :
    (c : LruCache) (p q r : ℕ) (node old : CacheNode)
    → c.nodes p ≡ some node
    → c.nodes q ≡ some old
    → c.head ≡ some q
    → c.tail ≡ some r
    → p ≢ q
    → attach_node p c
      ≡ ok (
        tt,
        record c {
          head = some p;
          tail = some r;
          nodes =
              write
                (write
                  (write c.nodes p (some (record node { next = some q })))
                  p
                  (some (record node { next = some q; prev = none })))
                q
                (some (record old { prev = some p }));
        },
      )
unfolding attach_node load store
attach_run c p q r node old here there head tail apart = ground arith

last_of-some : (a : ℕ) (es : List Entry) → (r : ℕ) × (last_of (some a) es ≡ some r)
last_of-some a [] = (a, refl)
last_of-some a (e ∷ es) = last_of-some e.addr es

-- A node apart from the listed ones becomes the first.
pub attach_node_lem :
    (c : LruCache) (e : Entry) (before after : Option ℕ) (es : List Entry)
    → c.nodes e.addr ≡ some (cell e before after)
    → NotAt e.addr es
    → IsThreaded c es
    → (nodes : ℕ → Option CacheNode) × (attach_node e.addr c
        ≡ ok (tt, record c { head = some e.addr; tail = last_of (some e.addr) es; nodes = nodes }))
      × IsThreaded
          (record c { head = some e.addr; tail = last_of (some e.addr) es; nodes = nodes })
          (e ∷ es)
unfolding attach_node load store
attach_node_lem c e before after [] here away t = (
  write (write c.nodes e.addr (some (cell e before none))) e.addr (some (cell e none none)),
  ground (arith, here, t.head, t.tail),
  record { head = refl; tail = refl; links = (ground arith, tt); apart = (tt, tt) },
)
attach_node_lem c e before after (x ∷ es) here away t =
    let (r, last) = last_of-some x.addr es in
    let first = write c.nodes e.addr (some (cell e before (some x.addr))) in
    let second = write first e.addr (some (cell e none (some x.addr))) in
    let old = cell x (some e.addr) (first_of es none) in
    (
      write second x.addr (some old),
      attach_run c e.addr x.addr r _ _ here t.links.0 t.head (t.tail ∙ last)
            (λ same. away.0 (sym same))
          ∙ rw last refl,
      record {
        head = refl;
        tail = refl;
        links = (
          ground (arith, away.0),
          (
            ground arith,
            Linked-write second x.addr (some old) es (some x.addr) none t.apart.0 (
                Linked-write first e.addr _ es (some x.addr) none away.1
                  (Linked-write c.nodes e.addr _ es (some x.addr) none away.1 t.links.1)),
          ),
        );
        apart = (away, t.apart);
      },
    )

-- A listed node moves to the front, and the order of the others stays.
pub move_to_front_lem :
    (c : LruCache) (xs : List Entry) (e : Entry) (ys : List Entry)
    → IsThreaded c (xs ++ e ∷ ys)
    → (head tail : Option ℕ) × (nodes : ℕ → Option CacheNode) × (move_to_front e.addr c
        ≡ ok (tt, record c { head = head; tail = tail; nodes = nodes }))
      × IsThreaded (record c { head = head; tail = tail; nodes = nodes }) (e ∷ xs ++ ys)
unfolding move_to_front
move_to_front_lem c xs e ys t =
    let (head, tail, nodes, detached, threaded, here) = detach_node_lem c xs e ys t in
    let c' = record c { head = head; tail = tail; nodes = nodes } in
    let away = (Apart-middle xs e ys t.apart).0 in
    let (nodes', attached, threaded') =
      attach_node_lem c' e (last_of none xs) (first_of ys none) (xs ++ ys) here away threaded in
    (
      some e.addr,
      last_of (some e.addr) (xs ++ ys),
      nodes',
      ground (arith, detached, attached),
      threaded',
    )
