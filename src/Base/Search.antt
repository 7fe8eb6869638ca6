-- ===== src/Base/Search.antt =====
-- Laws of `strstr`: an occurrence stays where a text grows, and shows where it is cut short.
use Prim.Native.Nat.{ℕ, zero, suc, ◌+◌, ◌≤◌}
use mathlib.Core.Path.{◌≡◌, refl, ◌∙◌, sym, ap}
use mathlib.Core.Logic.{inl, inr, ◌≢◌}
use lang_os_distributed_file.Base.Tests.{Option-cases, Bool-cases}
use mathlib.Core.Bool.{true, false}
use mathlib.Core.Option.{some}
use mathlib.Core.List.{append_assoc, [], ◌∷◌, ◌++◌}
use native.Mathlib.Omega.{arith}
use lang_os_distributed_file.Base.Lists.{length, take, length-append}
use lang_os_distributed_file.Base.Strings.{Text, starts_with, before, contains}

pub starts_with-append : (s t p : Text) → starts_with s p ≡ true → starts_with (s ++ t) p ≡ true
unfolding starts_with
starts_with-append s t [] h = refl
starts_with-append [] t (b ∷ p) h = ground arith
starts_with-append (a ∷ s) t (b ∷ p) h = ground (arith, starts_with-append s t p)

pub starts_with-take :
    (n : ℕ) (s p : Text) → starts_with (take n s) p ≡ true → starts_with s p ≡ true
unfolding starts_with
starts_with-take n s [] h = refl
starts_with-take zero s (b ∷ p) h = ground arith
starts_with-take (suc n) [] (b ∷ p) h = ground arith
starts_with-take (suc n) (a ∷ s) (b ∷ p) h = ground (arith, starts_with-take n s p)

-- What is found in a text is found in every longer one.
pub contains-append : (s t p : Text) → contains s p ≡ true → contains (s ++ t) p ≡ true
unfolding contains before
contains-append [] [] p h = h
contains-append [] (c ∷ t) [] h = refl
contains-append [] (c ∷ t) (b ∷ p) h = ground arith
contains-append (c ∷ s) t p h =
    ground (arith, contains-append s t p, starts_with-append (c ∷ s) t p)

pub contains-take : (n : ℕ) (s p : Text) → contains (take n s) p ≡ true → contains s p ≡ true
unfolding contains before
contains-take zero [] p h = h
contains-take zero (c ∷ s) [] h = refl
contains-take zero (c ∷ s) (b ∷ p) h = ground arith
contains-take (suc n) [] p h = h
contains-take (suc n) (c ∷ s) p h =
    ground (arith, contains-take n s p, starts_with-take (suc n) (c ∷ s) p)

pub starts_with-shorten :
    (s t p : Text) → length p ≤ length s → starts_with (s ++ t) p ≡ true → starts_with s p ≡ true
unfolding starts_with
starts_with-shorten s t [] l h = refl
starts_with-shorten [] t (b ∷ p) l h = absurd (omega arith)
starts_with-shorten (a ∷ s) t (b ∷ p) l h = ground (arith, starts_with-shorten s t p)

pub length-starts_with : (s p : Text) → starts_with s p ≡ true → length p ≤ length s
unfolding starts_with
length-starts_with s [] h = omega arith
length-starts_with [] (b ∷ p) h = ground arith
length-starts_with (a ∷ s) (b ∷ p) h = ground (arith, length-starts_with s p)

pub length-before : (s p b : Text) → before p s ≡ some b → length b + length p ≤ length s
unfolding before
length-before [] [] b h = ground arith
length-before [] (c ∷ p) b h = ground arith
length-before (c ∷ s) p [] h = ground (arith, length-starts_with (c ∷ s) p)
length-before (c ∷ s) p (d ∷ b) h = ground (arith, length-before s p b)

-- The first occurrence stays the first where the text grows.
pub before-append : (s t p : Text) (b : Text) → before p s ≡ some b → before p (s ++ t) ≡ some b
unfolding before
before-append [] [] p b h = h
before-append [] (c ∷ t) [] b h = h
before-append [] (c ∷ t) (d ∷ p) b h = ground arith
before-append (c ∷ s) t p [] h = ground (arith, starts_with-append (c ∷ s) t p)
before-append (c ∷ s) t p (d ∷ b) h =
    ground (
      arith,
      before-append s t p b,
      length-before (c ∷ s) p (d ∷ b),
      starts_with-shorten (c ∷ s) t p,
    )

-- Where a prefix has an occurrence, the first one of the whole is the first one of the prefix.
pub before-prefix :
    (s t p b : Text) → contains s p ≡ true → before p (s ++ t) ≡ some b → before p s ≡ some b
unfolding contains
before-prefix s t p b h e = elim (Option-cases (before p s)) [
  | inl absent ↦ ground arith
  | inr (b', found) ↦ found ∙ sym (before-append s t p b' found) ∙ e
]

pub contains-prepend : (s t p : Text) → contains t p ≡ true → contains (s ++ t) p ≡ true
unfolding contains before
contains-prepend [] t p h = h
contains-prepend (c ∷ s) t p h = ground (arith, contains-prepend s t p)

starts_with_append_self : (p r : Text) → starts_with (p ++ r) p ≡ true
unfolding starts_with
starts_with_append_self [] r = refl
starts_with_append_self (c ∷ p) r = ground (arith, starts_with_append_self p r)

contains-starts_with : (s p : Text) → p ≢ [] → starts_with s p ≡ true → contains s p ≡ true
unfolding contains before starts_with
contains-starts_with [] [] ne h = refl
contains-starts_with [] (c ∷ p) ne h = cc
contains-starts_with (a ∷ s) p ne h = ground (arith, h)

contains-tail : (a : ℕ) (s p : Text) → contains (a ∷ s) p ≡ false → contains s p ≡ false
unfolding contains before
contains-tail a s p h = elim (Option-cases (before p s)) [
  | inl absent ↦ ground (arith, absent)
  | inr (b, found) ↦ absurd (ground (arith, h, found))
]

before-here : (p r : Text) → p ≢ [] → before p (p ++ r) ≡ some []
unfolding before
before-here [] r ne = absurd (ne refl)
before-here (c ∷ p) r ne = ground (arith, starts_with_append_self (c ∷ p) r)

snoc-append : (q : Text) (c : ℕ) (r : Text) → q ++ (c ∷ r) ≡ (q ++ (c ∷ [])) ++ r
snoc-append q c r = sym (append_assoc q (c ∷ []) r)

snoc-given : (q : Text) (c : ℕ) → q ++ (c ∷ []) ≢ []
snoc-given [] c e = cc
snoc-given (d ∷ q) c e = cc

-- The first occurrence of a marker is the one that is put behind a text, if no earlier one begins in
-- the text.
pub before-first :
    (s q r : Text) (c : ℕ)
    → contains (s ++ q) (q ++ (c ∷ [])) ≡ false
    → before (q ++ (c ∷ [])) (s ++ (q ++ (c ∷ r))) ≡ some s
unfolding before
before-first [] q r c h = rw (snoc-append q c r) (before-here (q ++ (c ∷ [])) r (snoc-given q c))
before-first (a ∷ s) q r c h =
    let p = q ++ (c ∷ []) in
    let fits : length p ≤ length (a ∷ (s ++ q)) =
      omega (arith, length-append q (c ∷ []), length-append s q) in
    let whole : a ∷ (s ++ (q ++ (c ∷ r))) ≡ (a ∷ (s ++ q)) ++ (c ∷ r) =
      ap (λ t. a ∷ t) (sym (append_assoc s q (c ∷ r))) in
    elim (Bool-cases (starts_with (a ∷ (s ++ (q ++ (c ∷ r)))) p)) [
      | inl here ↦ absurd (
          ground (
            arith,
            h,
            contains-starts_with (a ∷ (s ++ q)) p (snoc-given q c) (
                starts_with-shorten (a ∷ (s ++ q)) (c ∷ r) p fits
                  (ap (λ t. starts_with t p) (sym whole) ∙ here)),
          ))
      | inr later ↦ ground (arith, later, before-first s q r c (contains-tail a (s ++ q) p h))
    ]
