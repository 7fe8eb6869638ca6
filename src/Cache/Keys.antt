-- ===== src/Cache/Keys.antt =====
-- The keys of the listed nodes, as the hash table of the cache holds them: no key twice.
use lang_os_distributed_file.Base.{
  ℕ, ◌≡◌, refl, List, [], ◌∷◌, ◌++◌, Text, arith, if◌then◌else◌, str_eq, str_eq_iff, Bool-cases,
  inl, inr, ap,
}
use mathlib.Core.List.{tail, append-nil}
use lang_os_distributed_file.Cache.Order.{Entry}

-- The addresses under a key, one at most where no key stands twice.
unfoldable pub holders : Text → List Entry → List ℕ
holders key [] = []
holders key (e ∷ es) = let rest = holders key es in if str_eq e.key key then e.addr ∷ rest else rest

abbrev pub Keyed : List Entry → Type 0
Keyed [] = Unit
Keyed (e ∷ es) = (holders e.key es ≡ []) × Keyed es

pub holders-middle :
    (key : Text) (xs : List Entry) (e : Entry) (ys : List Entry)
    → holders e.key (xs ++ ys) ≡ []
    → holders key (xs ++ e ∷ ys) ≡ holders key (e ∷ xs ++ ys)
unfolding holders
holders-middle key [] e ys absent = refl
holders-middle key (x ∷ xs) e ys absent = ground (
  arith,
  str_eq_iff x.key key,
  str_eq_iff e.key key,
  str_eq_iff x.key e.key,
  holders-middle key xs e ys,
)

-- A key in the middle stands nowhere else.
pub Keyed-middle :
    (xs : List Entry) (e : Entry) (ys : List Entry)
    → Keyed (xs ++ e ∷ ys)
    → (holders e.key (xs ++ ys) ≡ []) × Keyed (xs ++ ys)
unfolding holders
Keyed-middle [] e ys keyed = keyed
Keyed-middle (x ∷ xs) e ys keyed =
    let (absent, rest) = Keyed-middle xs e ys keyed.1 in
    (
      ground (
        arith,
        absent,
        keyed.0,
        holders-middle x.key xs e ys absent,
        str_eq_iff x.key e.key,
        str_eq_iff e.key x.key,
      ),
      (ground (arith, absent, keyed.0, holders-middle x.key xs e ys absent), rest),
    )

-- A key that the list holds splits it at the node.
pub holders-found :
    (key : Text) (es : List Entry) (p : ℕ) (rest : List ℕ)
    → holders key es ≡ p ∷ rest
    → (xs : List Entry) × (e : Entry) × (ys : List Entry) × (es ≡ xs ++ e ∷ ys)
      × (e.key ≡ key)
      × (e.addr ≡ p)
      × (holders key xs ≡ [])
unfolding holders
holders-found key [] p rest found = cc
holders-found key (e ∷ es) p rest found = elim (Bool-cases (str_eq e.key key)) [
  | inl same ↦ ([], e, es, refl, (str_eq_iff e.key key).0 same, ground (arith, same), refl)
  | inr other ↦
      let (xs, e', ys, split, here, at, absent) =
        holders-found key es p rest (ground (arith, other)) in
      (e ∷ xs, e', ys, ap (λ t. e ∷ t) split, here, at, ground (arith, other, absent))
]

-- Popping the key of the last node leaves the keys of the others.
pub holders-last :
    (key : Text) (xs : List Entry) (e : Entry)
    → holders e.key xs ≡ []
    → (if str_eq e.key key then tail (holders key (xs ++ e ∷ [])) else holders key (xs ++ e ∷ []))
      ≡ holders key xs
unfolding holders
holders-last key xs e absent =
    let absent' : holders e.key (xs ++ []) ≡ [] = rw (append-nil xs) absent in
    let moved = holders-middle key xs e [] absent' in
    let same = ap (holders key) (append-nil xs) in
    ground (arith, moved, same, absent, str_eq_iff e.key key)

pub holders-prefix :
    (key : Text) (xs ys : List Entry) → holders key (xs ++ ys) ≡ [] → holders key xs ≡ []
unfolding holders
holders-prefix key [] ys absent = refl
holders-prefix key (x ∷ xs) ys absent = ground (arith, absent, holders-prefix key xs ys)
