-- ===== src/Cache/Order.antt =====
-- What the linked list of the cache stands for: the listed nodes in order, most recent first.
use lang_os_distributed_file.Base.{
  ℕ, ◌≡◌, ◌≢◌, refl, sym, Option, some, List, [], ◌∷◌, ◌++◌, Text, arith, ◌<◌,
}
use lang_os_distributed_file.Cache.{CacheNode, write}

-- A node of the list: where it stands, and what it caches.
pub record Entry : Type 0 where
  pub addr : ℕ
  pub key : Text
  pub file : ℕ

abbrev pub cell : Entry → Option ℕ → Option ℕ → CacheNode
cell e before after = record { key = e.key; file = e.file; prev = before; next = after }

-- The pointer to the first node of a segment that `after` follows.
abbrev pub first_of : List Entry → Option ℕ → Option ℕ
first_of [] after = after
first_of (e ∷ es) after = some e.addr

-- The pointer to the last node of a segment that `before` precedes.
abbrev pub last_of : Option ℕ → List Entry → Option ℕ
last_of before [] = before
last_of before (e ∷ es) = last_of (some e.addr) es

-- The nodes of a segment stand in memory, each linked to its two neighbours.
abbrev pub Linked : (ℕ → Option CacheNode) → Option ℕ → List Entry → Option ℕ → Type 0
Linked nodes before [] after = Unit
Linked nodes before (e ∷ es) after =
    (nodes e.addr ≡ some (cell e before (first_of es after))) × Linked nodes (some e.addr) es after

-- No listed node stands at `a`.
abbrev pub NotAt : ℕ → List Entry → Type 0
NotAt a [] = Unit
NotAt a (e ∷ es) = (e.addr ≢ a) × NotAt a es

-- No two listed nodes share an address.
abbrev pub Apart : List Entry → Type 0
Apart [] = Unit
Apart (e ∷ es) = NotAt e.addr es × Apart es

-- Every listed node stands below `n`.
abbrev pub Below : ℕ → List Entry → Type 0
Below n [] = Unit
Below n (e ∷ es) = (e.addr < n) × Below n es

pub NotAt-append : (a : ℕ) (xs ys : List Entry) → NotAt a xs → NotAt a ys → NotAt a (xs ++ ys)
NotAt-append a [] ys p q = q
NotAt-append a (x ∷ xs) ys p q = (p.0, NotAt-append a xs ys p.1 q)

pub NotAt-split : (a : ℕ) (xs ys : List Entry) → NotAt a (xs ++ ys) → NotAt a xs × NotAt a ys
NotAt-split a [] ys p = (tt, p)
NotAt-split a (x ∷ xs) ys p = let (q, r) = NotAt-split a xs ys p.1 in ((p.0, q), r)

-- A node in the middle is apart from the two segments around it, and they are apart.
pub Apart-middle :
    (xs : List Entry) (e : Entry) (ys : List Entry)
    → Apart (xs ++ e ∷ ys)
    → NotAt e.addr (xs ++ ys) × Apart (xs ++ ys)
Apart-middle [] e ys p = p
Apart-middle (x ∷ xs) e ys p =
    let (away, apart) = Apart-middle xs e ys p.1 in
    let (left, right) = NotAt-split x.addr xs (e ∷ ys) p.0 in
    ((λ same. right.0 (sym same), away), (NotAt-append x.addr xs ys left right.1, apart))

pub Below-NotAt : (n : ℕ) (es : List Entry) → Below n es → NotAt n es
Below-NotAt n [] p = tt
Below-NotAt n (e ∷ es) p = (λ same. omega arith, Below-NotAt n es p.1)

pub Below-mono : (n m : ℕ) (es : List Entry) → n < m → Below n es → Below m es
Below-mono n m [] lt p = tt
Below-mono n m (e ∷ es) lt p = (omega arith, Below-mono n m es lt p.1)

pub Below-middle :
    (n : ℕ) (xs : List Entry) (e : Entry) (ys : List Entry)
    → Below n (xs ++ e ∷ ys)
    → (e.addr < n) × Below n (xs ++ ys)
Below-middle n [] e ys p = p
Below-middle n (x ∷ xs) e ys p = let (lt, rest) = Below-middle n xs e ys p.1 in (lt, (p.0, rest))

-- A write elsewhere keeps a segment.
pub Linked-write :
    (nodes : ℕ → Option CacheNode) (a : ℕ) (value : Option CacheNode) (es : List Entry)
    (before after : Option ℕ)
    → NotAt a es
    → Linked nodes before es after
    → Linked (write nodes a value) before es after
Linked-write nodes a value [] before after away l = tt
Linked-write nodes a value (e ∷ es) before after away l =
    (ground (arith, away.0, l.0), Linked-write nodes a value es (some e.addr) after away.1 l.1)

-- Two segments that point to each other are one.
pub Linked-append :
    (nodes : ℕ → Option CacheNode) (xs ys : List Entry) (before after : Option ℕ)
    → Linked nodes before xs (first_of ys after)
    → Linked nodes (last_of before xs) ys after
    → Linked nodes before (xs ++ ys) after
Linked-append nodes [] ys before after l r = r
Linked-append nodes (x ∷ []) ys before after l r = (l.0, r)
Linked-append nodes (x ∷ y ∷ xs) ys before after l r =
    (l.0, Linked-append nodes (y ∷ xs) ys (some x.addr) after l.1 r)

pub Linked-split :
    (nodes : ℕ → Option CacheNode) (xs ys : List Entry) (before after : Option ℕ)
    → Linked nodes before (xs ++ ys) after
    → Linked nodes before xs (first_of ys after) × Linked nodes (last_of before xs) ys after
Linked-split nodes [] ys before after l = (tt, l)
Linked-split nodes (x ∷ []) ys before after l = ((l.0, tt), l.1)
Linked-split nodes (x ∷ y ∷ xs) ys before after l =
    let (p, q) = Linked-split nodes (y ∷ xs) ys (some x.addr) after l.1 in ((l.0, p), q)

pub first_of-append :
    (xs ys : List Entry) (after : Option ℕ)
    → first_of (xs ++ ys) after ≡ first_of xs (first_of ys after)
first_of-append [] ys after = refl
first_of-append (x ∷ xs) ys after = refl

pub last_of-append :
    (before : Option ℕ) (xs ys : List Entry)
    → last_of before (xs ++ ys) ≡ last_of (last_of before xs) ys
last_of-append before [] ys = refl
last_of-append before (x ∷ xs) ys = last_of-append (some x.addr) xs ys

-- No node of the first segment stands where one of the second does.
abbrev pub Away : List Entry → List Entry → Type 0
Away [] ys = Unit
Away (x ∷ xs) ys = NotAt x.addr ys × Away xs ys

Away-cons : (x : Entry) (xs ys : List Entry) → NotAt x.addr ys → Away ys xs → Away ys (x ∷ xs)
Away-cons x xs [] p q = tt
Away-cons x xs (y ∷ ys) p q = ((λ same. p.0 (sym same), q.0), Away-cons x xs ys p.1 q.1)

pub Away-sym : (xs ys : List Entry) → Away xs ys → Away ys xs
Away-sym [] [] p = tt
Away-sym [] (y ∷ ys) p = (tt, Away-sym [] ys tt)
Away-sym (x ∷ xs) ys p = Away-cons x xs ys p.0 (Away-sym xs ys p.1)

pub Apart-split : (xs ys : List Entry) → Apart (xs ++ ys) → Apart xs × Apart ys × Away xs ys
Apart-split [] ys p = (tt, p, tt)
Apart-split (x ∷ xs) ys p =
    let (left, right, away) = Apart-split xs ys p.1 in
    let (out, out') = NotAt-split x.addr xs ys p.0 in ((out, left), right, (out', away))

-- A segment is kept by a change that stays inside another.
pub Linked-frame :
    (nodes nodes' : ℕ → Option CacheNode) (xs ys : List Entry) (before after : Option ℕ)
    → ((a : ℕ) → NotAt a xs → nodes' a ≡ nodes a)
    → Away ys xs
    → Linked nodes before ys after
    → Linked nodes' before ys after
Linked-frame nodes nodes' xs [] before after same away l = tt
Linked-frame nodes nodes' xs (y ∷ ys) before after same away l = (
  ground (arith, same y.addr away.0, l.0),
  Linked-frame nodes nodes' xs ys (some y.addr) after same away.1 l.1,
)
