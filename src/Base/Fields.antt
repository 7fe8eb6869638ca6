-- ===== src/Base/Fields.antt =====
-- The tokens of a text, by one pass over its bytes, and `strtok` against them.
use Prim.Native.Nat.{ℕ, ◌≤◌, ◌<◌}
use mathlib.Core.Path.{◌≡◌, refl, sym, ◌∙◌, ap}
use mathlib.Core.Logic.{◌⊎◌, inl, inr, ◌≢◌}
use mathlib.Core.Bool.{true, false}
use mathlib.Core.Option.{Option, some, none}
use mathlib.Core.List.{List, [], ◌∷◌, ◌++◌, append-nil, append_assoc}
use native.Mathlib.Omega.{arith}
use lang_os_distributed_file.Base.Tests.{if◌then◌else◌, Bool-cases}
use lang_os_distributed_file.Base.Lists.{length}
use lang_os_distributed_file.Base.Tokens.{none_of, strtok-last}
use lang_os_distributed_file.Base.Strings.{Text, member, skip_delimiters, split_at, strtok}

-- An empty token is none.
emit : Text → List Text → List Text
emit [] rest = rest
emit (c ∷ token) rest = (c ∷ token) ∷ rest

-- `token` is what has been read of the current token.
fields_from : Text → Text → Text → List Text
unfolding emit
fields_from ds token [] = emit token []
fields_from ds token (c ∷ s) =
    let rest = fields_from ds (if member c ds then [] else token ++ (c ∷ [])) s in
    if member c ds then emit token rest else rest

unfoldable pub fields : Text → Text → List Text
unfolding fields_from
fields ds s = fields_from ds [] s

fields-skip : (ds s : Text) → fields_from ds [] (skip_delimiters ds s) ≡ fields_from ds [] s
unfolding fields_from skip_delimiters
fields-skip ds [] = refl
fields-skip ds (c ∷ s) = ground (arith, fields-skip ds s)

fields-split :
    (ds token s : Text)
    → fields_from ds token s
      ≡ emit (token ++ (split_at ds s).0) (fields_from ds [] (split_at ds s).1)
unfolding fields_from split_at
fields-split ds token [] = ap (λ t. emit t []) (sym (append-nil token))
fields-split ds token (c ∷ s) = elim (Bool-cases (member c ds)) [
  | inl ends ↦ rw (ends, append-nil) refl
  | inr goes ↦
      let step = fields-split ds (token ++ (c ∷ [])) s in
      let moved = append_assoc token (c ∷ []) (split_at ds s).0 in ground (arith, goes, step, moved)
]

length-split : (ds s : Text) → length (split_at ds s).1 ≤ length s
unfolding split_at
length-split ds [] = omega arith
length-split ds (c ∷ s) = ground (arith, length-split ds s)

-- What is left behind the delimiters: nothing, or a text that begins with another byte.
skip-cases :
    (ds s : Text)
    → (skip_delimiters ds s ≡ [])
      ⊎ ((c : ℕ) × (t : Text) × (skip_delimiters ds s ≡ c ∷ t)
          × (member c ds ≡ false)
          × (length t < length s))
unfolding skip_delimiters
skip-cases ds [] = inl refl
skip-cases ds (c ∷ s) = elim (Bool-cases (member c ds)) [
  | inr stops ↦ inr (c, s, ground (arith, stops), stops, omega arith)
  | inl goes ↦ elim (skip-cases ds s) [
    | inl none_left ↦ inl (ground (arith, goes, none_left))
    | inr (d, t, at, stops, shorter) ↦ inr (d, t, ground (arith, goes, at), stops, omega arith)
  ]
]

-- `strtok` takes the first token and leaves a shorter text with the others.
pub strtok-fields :
    (ds s : Text)
    → ((strtok ds s).0 ≡ none) × (fields ds s ≡ [])
      ⊎ ((t : Text) × ((strtok ds s).0 ≡ some t)
          × (fields ds s ≡ t ∷ fields ds (strtok ds s).1)
          × (length (strtok ds s).1 < length s))
unfolding strtok fields fields_from split_at
strtok-fields ds s = elim (skip-cases ds s) [
  | inl none_left ↦ inl (ground (arith, none_left), sym (fields-skip ds s) ∙ rw none_left refl)
  | inr (c, t, at, stops, shorter) ↦
      let token = (split_at ds t).0 in
      let rest = (split_at ds t).1 in
      let taken : strtok ds s ≡ (some (c ∷ token), rest) = ground (arith, at, stops) in
      let listed : fields ds s ≡ (c ∷ token) ∷ fields ds rest =
        sym (fields-skip ds s)
        ∙ (ap (fields_from ds []) at ∙ ground (arith, stops, fields-split ds (c ∷ []) t)) in
      let left : length (strtok ds s).1 ≡ length rest =
        ap (λ (x : Option Text × Text). length x.1) taken in
      let fits = length-split ds t in
      inr (
        c ∷ token,
        ap (λ (x : Option Text × Text). x.0) taken,
        listed ∙ ap (λ (x : Option Text × Text). (c ∷ token) ∷ fields ds x.1) (sym taken),
        omega arith,
      )
]

emit-append : (token : Text) (rest : List Text) → emit token [] ++ rest ≡ emit token rest
unfolding emit
emit-append [] rest = refl
emit-append (c ∷ token) rest = refl

append-emit : (token : Text) (xs ys : List Text) → emit token xs ++ ys ≡ emit token (xs ++ ys)
unfolding emit
append-emit [] xs ys = refl
append-emit (c ∷ token) xs ys = refl

fields_from-append :
    (ds token s : Text) (d : ℕ) (t : Text)
    → member d ds ≡ true
    → fields_from ds token (s ++ d ∷ t) ≡ fields_from ds token s ++ fields_from ds [] t
unfolding fields_from
fields_from-append ds token [] d t m = ground (arith, m, emit-append token (fields_from ds [] t))
fields_from-append ds token (c ∷ s) d t m = elim (Bool-cases (member c ds)) [
  | inl ends ↦ ground (
    arith,
    ends,
    fields_from-append ds [] s d t m,
    append-emit token (fields_from ds [] s) (fields_from ds [] t),
  )
  | inr goes ↦ ground (arith, goes, fields_from-append ds (token ++ (c ∷ [])) s d t m)
]

-- A delimiter separates tokens.
pub fields-append :
    (ds s : Text) (d : ℕ) (t : Text)
    → member d ds ≡ true
    → fields ds (s ++ d ∷ t) ≡ fields ds s ++ fields ds t
unfolding fields
fields-append ds s d t m = fields_from-append ds [] s d t m

pub fields-nil : (ds : Text) → fields ds [] ≡ []
unfolding fields emit
fields-nil ds = refl

-- A text without delimiters is one token.
pub fields-plain : (ds t : Text) → none_of ds t ≡ true → t ≢ [] → fields ds t ≡ t ∷ []
fields-plain ds t plain ne = elim (strtok-fields ds t) [
  | inl (absent, _) ↦ ground (arith, absent, strtok-last ds t plain ne)
  | inr (u, first, listed, _) ↦
      ground (arith, first, listed, strtok-last ds t plain ne, fields-nil ds)
]
