-- ===== src/Cache/Detach.antt =====
-- `detach_node` of src/name_server/CRWD.c unlinks a node anywhere in the list.
use lang_os_distributed_file.Base.{
  ℕ, ◌≡◌, ◌≢◌, refl, sym, ◌∙◌, Option, some, none, List, [], ◌∷◌, ◌++◌, ok, arith,
}
use lang_os_distributed_file.Cache.{
  CacheNode, LruCache, write, load, detach_prev, detach_next, detach_node,
}
use lang_os_distributed_file.Cache.Order.{
  Entry, cell, first_of, last_of, Linked, NotAt, Apart, Linked-write, Linked-append, Linked-split,
  Apart-middle, NotAt-split, first_of-append, last_of-append, Away-sym, Apart-split, Linked-frame,
}

-- The last node of a segment can be made to point elsewhere.
relink :
    (nodes : ℕ → Option CacheNode) (x : Entry) (xs : List Entry) (before after after' : Option ℕ)
    → Apart (x ∷ xs)
    → Linked nodes before (x ∷ xs) after
    → (q : ℕ) × (node : CacheNode) × (last_of before (x ∷ xs) ≡ some q)
      × (nodes q ≡ some node)
      × Linked (write nodes q (some (record node { next = after' }))) before (x ∷ xs) after'
      × ((a : ℕ) → NotAt a (x ∷ xs) → q ≢ a)
relink nodes x [] before after after' apart l =
    (x.addr, cell x before after, refl, l.0, (ground arith, tt), λ a away. away.0)
relink nodes x (y ∷ xs) before after after' apart l =
    let (q, node, last, here, linked, away) =
      relink nodes y xs (some x.addr) after after' apart.1 l.1 in
    (q, node, last, here, (ground (arith, l.0, away x.addr apart.0), linked), λ a out. away a out.1)

-- The node before, or the head, is made to skip the node.
detach_prev_lem :
    (c : LruCache) (node : CacheNode) (xs : List Entry) (after : Option ℕ)
    → c.head ≡ first_of xs after
    → Apart xs
    → Linked c.nodes none xs after
    → node.prev ≡ last_of none xs
    → (nodes : ℕ → Option CacheNode) × (detach_prev node c
        ≡ ok (tt, record c { head = first_of xs node.next; nodes = nodes }))
      × Linked nodes none xs node.next
      × ((a : ℕ) → NotAt a xs → nodes a ≡ c.nodes a)
unfolding detach_prev
detach_prev_lem c node [] after head apart l prev = (c.nodes, rw prev refl, tt, λ a away. refl)
detach_prev_lem c node (x ∷ xs) after head apart l prev =
    let (q, last_node, last, here, linked, away) =
      relink c.nodes x xs none after node.next apart l in
    (
      write c.nodes q (some (record last_node { next = node.next })),
      ground (arith, prev, last, here, head),
      linked,
      λ a out. ground (arith, away a out),
    )

-- The node after, or the tail, is made to skip the node.
detach_next_lem :
    (c : LruCache) (node : CacheNode) (ys : List Entry) (before : Option ℕ)
    → c.tail ≡ last_of before ys
    → Apart ys
    → Linked c.nodes before ys none
    → node.next ≡ first_of ys none
    → (nodes : ℕ → Option CacheNode) × (detach_next node c
        ≡ ok (tt, record c { tail = last_of node.prev ys; nodes = nodes }))
      × Linked nodes node.prev ys none
      × ((a : ℕ) → NotAt a ys → nodes a ≡ c.nodes a)
unfolding detach_next
detach_next_lem c node [] before tail apart l next = (c.nodes, rw next refl, tt, λ a away. refl)
detach_next_lem c node (y ∷ ys) before tail apart l next =
    let moved = record (cell y before (first_of ys none)) { prev = node.prev } in
    (
      write c.nodes y.addr (some moved),
      ground (arith, next, l.0, tail),
      (
        ground (arith, l.0),
        Linked-write c.nodes y.addr (some moved) ys (some y.addr) none apart.0 l.1,
      ),
      λ a out. ground (arith, out.0),
    )

-- The list is threaded through the cache: both ends and the links agree with the order.
pub record IsThreaded (c : LruCache) (es : List Entry) : Type 0 where
  pub head : c.head ≡ first_of es none
  pub tail : c.tail ≡ last_of none es
  pub links : Linked c.nodes none es none
  pub apart : Apart es

-- Detaching a listed node leaves the others threaded, and the node itself in memory.
pub detach_node_lem :
    (c : LruCache) (xs : List Entry) (e : Entry) (ys : List Entry)
    → IsThreaded c (xs ++ e ∷ ys)
    → (head tail : Option ℕ) × (nodes : ℕ → Option CacheNode) × (detach_node e.addr c
        ≡ ok (tt, record c { head = head; tail = tail; nodes = nodes }))
      × IsThreaded (record c { head = head; tail = tail; nodes = nodes }) (xs ++ ys)
      × (nodes e.addr ≡ some (cell e (last_of none xs) (first_of ys none)))
unfolding detach_node load
detach_node_lem c xs e ys t =
    let node = cell e (last_of none xs) (first_of ys none) in
    let (left, (here, right)) = Linked-split c.nodes xs (e ∷ ys) none none t.links in
    let (away, apart) = Apart-middle xs e ys t.apart in
    let (out_left, out_right) = NotAt-split e.addr xs ys away in
    let (apart_left, apart_right, disjoint) = Apart-split xs ys apart in
    let (nodes, prev_done, left', same) =
      detach_prev_lem c node xs (some e.addr) (t.head ∙ first_of-append xs (e ∷ ys) none) apart_left
        left refl in
    let c' = record c { head = first_of xs node.next; nodes = nodes } in
    let right_kept =
      Linked-frame c.nodes nodes xs ys (some e.addr) none same (Away-sym xs ys disjoint) right in
    let (nodes', next_done, right', same') =
      detach_next_lem c' node ys (some e.addr) (t.tail ∙ last_of-append none xs (e ∷ ys))
        apart_right right_kept refl in
    let kept = same e.addr out_left in
    let kept' = same' e.addr out_right in
    let left_kept = Linked-frame nodes nodes' ys xs none node.next same' disjoint left' in
    (
      first_of xs node.next,
      last_of node.prev ys,
      nodes',
      ground (arith, here, prev_done, kept, next_done),
      record {
        head = sym (first_of-append xs ys none);
        tail = sym (last_of-append none xs ys);
        links = Linked-append nodes' xs ys none none left_kept right';
        apart = apart;
      },
      ground (arith, here, kept, kept'),
    )
