-- ===== src/Storage/Sentence/Parts.antt =====
-- Where `get_nth_sentence` cuts the content, by the number of bytes that end a sentence.
use mathlib.Core.List.{append_assoc, append-nil}
use lang_os_distributed_file.Base.{
  ℕ, zero, suc, ◌+◌, ◌-◌, ◌<◌, ◌≤◌, none, some, true, false, [], ◌∷◌, ◌++◌, Text, ◌≡◌, refl, sym,
  ◌∙◌, ap, arith, if◌then◌else◌, length, take, take-sub-append, member, Bool-cases, Option-cases,
  inl, inr,
}
use lang_os_distributed_file.Storage.Sentence.{
  enders, after_ender, is_blank, skip_blanks, nth_start, sentence_at, text_of,
}

-- How many bytes of a text end a sentence.
unfoldable pub enders_in : Text → ℕ
enders_in [] = 0
enders_in (c ∷ s) = (if member c enders then 1 else 0) + enders_in s

pub enders_in-append : (s t : Text) → enders_in (s ++ t) ≡ enders_in s + enders_in t
unfolding enders_in
enders_in-append [] t = omega arith
enders_in-append (c ∷ s) t = omega (arith, enders_in-append s t)

after_ender-none : (s : Text) → after_ender s ≡ none → enders_in s ≡ 0
unfolding after_ender enders_in
after_ender-none [] h = refl
after_ender-none (c ∷ s) h = ground (arith, after_ender-none s)

-- The text up to the first ender, and what follows.
after_ender-some :
    (s rest : Text)
    → after_ender s ≡ some rest
    → (cut : Text) × (s ≡ cut ++ rest) × (enders_in cut ≡ 1)
unfolding after_ender enders_in
after_ender-some [] rest h = ground arith
after_ender-some (c ∷ s) rest h = elim (Bool-cases (member c enders)) [
  | inl e ↦ (c ∷ [], ground arith, ground arith)
  | inr e ↦
      let (cut, whole, one) = after_ender-some s rest (ground arith) in
      (c ∷ cut, ap (λ t. c ∷ t) whole, ground arith)
]

blank-not-ender : (c : ℕ) → is_blank c ≡ true → member c enders ≡ false
unfolding member
blank-not-ender c h = ground arith

skip_blanks-cut : (s : Text) → (cut : Text) × (s ≡ cut ++ skip_blanks s) × (enders_in cut ≡ 0)
unfolding skip_blanks enders_in
skip_blanks-cut [] = ([], refl, refl)
skip_blanks-cut (c ∷ s) = elim (Bool-cases (is_blank c)) [
  | inl e ↦
      let (cut, whole, none_in) = skip_blanks-cut s in
      (c ∷ cut, rw e (ap (λ t. c ∷ t) whole), ground (arith, blank-not-ender c e))
  | inr e ↦ ([], rw e, refl)
]

-- The start of sentence `n` has `n` enders in front of it.
pub nth_start-cut :
    (n : ℕ) (content start : Text)
    → nth_start n content ≡ some start
    → (cut : Text) × (content ≡ cut ++ start) × (enders_in cut ≡ n)
unfolding nth_start enders_in
nth_start-cut zero content start h = ([], ground arith, refl)
nth_start-cut (suc n) content start h = elim (Option-cases (after_ender content)) [
  | inl absent ↦ absurd (ground arith)
  | inr (s, found) ↦
      let (first, p, one) = after_ender-some content s found in
      let (blanks, q, zero_in) = skip_blanks-cut s in
      let (cut, r, count) = nth_start-cut n (skip_blanks s) start (ground arith) in
      (
        first ++ (blanks ++ cut),
        p ∙ ap (λ t. first ++ t) (q ∙ ap (λ t. blanks ++ t) r) ∙ simp append_assoc,
        omega (arith, enders_in-append first (blanks ++ cut), enders_in-append blanks cut),
      )
]

-- Sentence `n` is missing exactly where the content has fewer than `n` enders.
pub nth_start-none : (n : ℕ) (content : Text) → nth_start n content ≡ none → enders_in content < n
unfolding nth_start
nth_start-none zero content h = ground arith
nth_start-none (suc n) content h = elim (Option-cases (after_ender content)) [
  | inl absent ↦ omega (arith, after_ender-none content absent)
  | inr (s, found) ↦
      let (first, p, one) = after_ender-some content s found in
      let (blanks, q, zero_in) = skip_blanks-cut s in
      let few = nth_start-none n (skip_blanks s) (ground arith) in
      omega (
        arith,
        few,
        ap enders_in p,
        ap enders_in q,
        enders_in-append first (blanks ++ skip_blanks s),
        enders_in-append first s,
        enders_in-append blanks (skip_blanks s),
      )
]

-- The sentence at `start` and what follows it make up the text from there on. The sentence has one
-- ender, its last byte, or none where the text has none.
pub sentence_at-parts :
    (start : Text)
    → (start ≡ (sentence_at start).0 ++ text_of (sentence_at start).1)
      × (enders_in (sentence_at start).0 ≤ 1)
unfolding sentence_at
sentence_at-parts start = elim (Option-cases (after_ender start)) [
  | inl absent ↦ (
    rw (absent, sentence_at) (sym (append-nil start)),
    rw (absent, sentence_at) (omega (arith, after_ender-none start absent)),
  )
  | inr (rest, found) ↦
      let (cut, p, one) = after_ender-some start rest found in
      let same : take (length start - length rest) start ≡ cut = rw p (take-sub-append cut rest) in
      (rw (found, sentence_at) (rw same p), rw (found, sentence_at) (rw same (omega arith)))
]
