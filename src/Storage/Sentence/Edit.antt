-- ===== src/Storage/Sentence/Edit.antt =====
-- What a commit does to the content: one sentence changes and the rest stays.
use mathlib.Core.List.{append_assoc}
use native.Mathlib.Nat.{le_trans}
use lang_os_distributed_file.Base.{
  ℕ, ◌+◌, ◌-◌, ◌<◌, ◌≤◌, none, some, List, [], ◌∷◌, ◌++◌, Text, ◌≡◌, sym, ◌∙◌, ap, arith, length,
  take, take-sub-append, and_then-eq-ok, ◌↔◌, Option-cases, inl, inr, ok, ℤ, pos, negsuc,
  length-append, length-set,
}
use lang_os_distributed_file.Storage.Sentence.{
  WriteOp, nth_start, get_nth_sentence, sentence_at, text_of, new_sentence, rewrite_at, rewrite,
  apply_at, apply_op, apply_ops, max_words,
}
use lang_os_distributed_file.Storage.Sentence.Parts.{
  enders_in, enders_in-append, nth_start-cut, nth_start-none, sentence_at-parts,
}

rewrite_at-parts :
    (content start : Text) (ops : List WriteOp) {text : Text}
    → rewrite_at content start ops ≡ ok text
    → (sentence' : Text) × (new_sentence (sentence_at start).0 ops ≡ ok sentence')
      × (take (length content - length start) content
            ++ (sentence' ++ text_of (sentence_at start).1)
          ≡ text)
unfolding rewrite_at
rewrite_at-parts content start ops h =
    let (sentence', built, e) = and_then-eq-ok (new_sentence (sentence_at start).0 ops) _ h in
    (sentence', built, ground (arith, e))

-- A successful rewrite of sentence `n` keeps what stands in front of it, which holds `n` bytes that
-- end a sentence, and what follows; the sentence between, which holds at most one such byte, is
-- replaced by what `new_sentence` makes of it.
pub rewrite_local :
    (content : Text) (n : ℕ) (ops : List WriteOp) (text : Text)
    → rewrite content (pos n) ops ≡ ok (some text)
    → (front : Text) × (sentence : Text) × (rest : Text) × (sentence' : Text) × (content
        ≡ front ++ (sentence ++ rest))
      × (enders_in front ≡ n)
      × (enders_in sentence ≤ 1)
      × (new_sentence sentence ops ≡ ok sentence')
      × (text ≡ front ++ (sentence' ++ rest))
unfolding rewrite get_nth_sentence
rewrite_local content n ops text h = elim (Option-cases (nth_start n content)) [
  | inl absent ↦ absurd (ground arith)
  | inr (start, found) ↦
      let (front, p, count) = nth_start-cut n content start found in
      let (q, few) = sentence_at-parts start in
      let (sentence', built, e) = rewrite_at-parts content start ops {text = text} (ground arith) in
      let kept : take (length content - length start) content ≡ front =
        rw p (take-sub-append front start) in
      (
        front,
        (sentence_at start).0,
        text_of (sentence_at start).1,
        sentence',
        p ∙ ap (λ t. front ++ t) q,
        count,
        few,
        built,
        sym e ∙ rw kept,
      )
]

-- The commit of sentence `n` finds no such sentence exactly where the content has fewer than `n`
-- bytes that end a sentence.
pub rewrite-missing :
    (content : Text) (n : ℕ) (ops : List WriteOp)
    → (rewrite content (pos n) ops ≡ ok none) ↔ (enders_in content < n)
unfolding rewrite get_nth_sentence
rewrite-missing content n ops = elim (Option-cases (nth_start n content)) [
  | inl absent ↦ (λ h. nth_start-none n content absent, λ few. ground arith)
  | inr (start, found) ↦
      let (front, p, count) = nth_start-cut n content start found in
      (
        λ h. ground (arith, rewrite_at content start ops),
        λ few. absurd (omega (arith, ap enders_in p, enders_in-append front start)),
      )
]

apply_op-append :
    (words : List Text) (a : Text)
    → length words < max_words
    → apply_op words (record { word_index = pos (length words); content = a }) ≡ words ++ (a ∷ [])
unfolding apply_op
apply_op-append words a h = ground arith

length-apply_at :
    (words : List Text) (content : Text) (index : ℤ)
    → length words ≤ max_words
    → (length words ≤ length (apply_at words content index))
      × (length (apply_at words content index) ≤ max_words)
unfolding apply_at
length-apply_at words content (negsuc n) h = (omega arith, h)
length-apply_at words content (pos i) h =
    ground (arith, length-append words (content ∷ []), length-set words i content)

-- The order of the operations. A session's operations are applied newest first, so of two new
-- words sent in order for the end of a sentence only the first is kept: when the second is
-- applied, its index lies one past the end.
pub append_two :
    (words : List Text) (a b : Text)
    → length words < max_words
    → apply_ops words (
        record { word_index = pos (length words + 1); content = b }
        ∷ record { word_index = pos (length words); content = a }
        ∷ [])
      ≡ words ++ (a ∷ [])
unfolding apply_ops
append_two words a b h = ground arith

-- Sent in the other order, both are kept.
pub append_two_reversed :
    (words : List Text) (a b : Text)
    → length words + 1 < max_words
    → apply_ops words (
        record { word_index = pos (length words); content = a }
        ∷ record { word_index = pos (length words + 1); content = b }
        ∷ [])
      ≡ words ++ (a ∷ b ∷ [])
unfolding apply_ops
append_two_reversed words a b h =
    let longer : length (words ++ a ∷ []) ≡ length words + 1 =
      omega (arith, length-append words (a ∷ [])) in
    rw (apply_op-append words a (omega arith), ← longer)
      (apply_op-append (words ++ a ∷ []) b (omega arith) ∙ append_assoc words (a ∷ []) (b ∷ []))

-- No operation makes the words more than the array holds, or fewer.
pub length-apply_ops :
    (words : List Text) (ops : List WriteOp)
    → length words ≤ max_words
    → (length words ≤ length (apply_ops words ops)) × (length (apply_ops words ops) ≤ max_words)
unfolding apply_ops apply_op
length-apply_ops words [] h = (omega arith, h)
length-apply_ops words (op ∷ ops) h =
    let (more, fits) = length-apply_at words op.content op.word_index h in
    let (most, all_fit) = length-apply_ops (apply_op words op) ops fits in
    (le_trans more most, all_fit)
