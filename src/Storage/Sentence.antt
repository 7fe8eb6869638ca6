-- ===== src/Storage/Sentence.antt =====
-- src/storage_server/storage_server.c: `get_safe_path`, `get_nth_sentence`, and the part of
-- `commit_changes` that rewrites a sentence. A pointer into the content is the text from there on.
pub mod Parts
pub mod Edit
pub mod Path
use lang_os_distributed_file.Base.{
  ℕ, zero, suc, ◌+◌, ◌-◌, ◌*◌, Option, none, some, Bool, true, false, List, [], ◌∷◌, ◌++◌, Text, ℤ,
  pos, negsuc, lit, Run, ok, and_then, ◌==◌, if◌then◌else◌, length, take, set, ltb, member,
  contains, snprintf, strcpy, strtok, ◌&&◌, not, ◌≡◌, refl,
}

abbrev pub root_dir : Text
root_dir = lit "ss_files"

-- Nothing where the name has ".." in it.
unfoldable pub get_safe_path : Text → Text
get_safe_path filename =
    if contains filename (lit "..") then [] else snprintf 256 (root_dir ++ (lit "/" ++ filename))

abbrev pub enders : Text
enders = lit ".?!"

-- strpbrk(start, ".?!") + 1
unfoldable pub after_ender : Text → Option Text
after_ender [] = none
after_ender (c ∷ s) = let rest = after_ender s in if member c enders then some s else rest

abbrev pub is_blank : ℕ → Bool
is_blank c = member c (lit " \n\t\r")

unfoldable pub skip_blanks : Text → Text
skip_blanks [] = []
skip_blanks (c ∷ s) = let rest = skip_blanks s in if is_blank c then rest else c ∷ s

-- The `for` loop of `get_nth_sentence`.
unfoldable pub nth_start : ℕ → Text → Option Text
unfolding after_ender skip_blanks
nth_start zero start = some start
nth_start (suc n) start = elim (after_ender start) [
  | none ↦ none
  | some s ↦ nth_start n (skip_blanks s)
]

-- The loop does not run for a negative number.
unfoldable pub get_nth_sentence : Text → ℤ → Option Text
unfolding nth_start
get_nth_sentence content (pos n) = nth_start n content
get_nth_sentence content (negsuc n) = some content

-- The sentence at `start`, with the byte that ends it, and what follows where there is such a byte.
unfoldable pub sentence_at : Text → Text × Option Text
unfolding after_ender
sentence_at start = elim (after_ender start) [
  | none ↦ (start, none)
  | some rest ↦ (take (length start - length rest) start, some rest)
]

abbrev pub max_words : ℕ
max_words = 256 * 2

abbrev pub white : Text
white = lit " \t\n\r"

-- The `strtok` loop over the sentence: at most `max_words` words.
unfoldable pub split_words : ℕ → Text → List Text
split_words zero s = []
split_words (suc n) s =
    let (token, rest) = strtok white s in
    elim token [ none ↦ [] | some word ↦ word ∷ split_words n rest ]

pub record WriteOp : Type 0 where
  pub word_index : ℤ
  pub content : Text

-- The three cases of the loop over the write operations.
unfoldable pub apply_at : List Text → Text → ℤ → List Text
apply_at words content (negsuc n) = words
apply_at words content (pos i) =
    if ltb i (length words)
    then set words i content
    else if i == length words && ltb (length words) max_words
    then words ++ (content ∷ [])
    else words

unfoldable pub apply_op : List Text → WriteOp → List Text
unfolding apply_at
apply_op words op = apply_at words op.content op.word_index

unfoldable pub apply_ops : List Text → List WriteOp → List Text
unfolding apply_op
apply_ops words [] = words
apply_ops words (op ∷ ops) = apply_ops (apply_op words op) ops

-- Whether a space goes in front of a word: not in front of a lone mark that ends a sentence.
unfoldable pub spaced : Text → Bool
spaced [] = true
spaced (c ∷ []) = not (member c enders)
spaced (c ∷ d ∷ s) = true

-- The loop that rebuilds the sentence.
unfoldable pub join_words : List Text → Text
unfolding spaced
join_words [] = []
join_words (word ∷ []) = word
join_words (word ∷ next ∷ words) =
    word ++ ((if spaced next then lit " " else []) ++ join_words (next ∷ words))

abbrev pub max_sentence_len : ℕ
max_sentence_len = 1024

-- The new sentence is built in a buffer of 1024 bytes.
unfoldable pub new_sentence : Text → List WriteOp → Run Text
unfolding split_words apply_ops join_words
new_sentence sentence ops =
    strcpy max_sentence_len (join_words (apply_ops (split_words max_words sentence) ops))

abbrev pub text_of : Option Text → Text
text_of none = []
text_of (some s) = s

-- What `commit_changes` writes for the sentence that begins at `start`.
unfoldable pub rewrite_at : Text → Text → List WriteOp → Run Text
rewrite_at content start ops =
    let (sentence, sentence_end) = sentence_at start in
    and_then (new_sentence sentence ops) λ rewritten.
      ok (take (length content - length start) content ++ (rewritten ++ text_of sentence_end))

-- Nothing where the sentence is not found. "Sentence 0" of any content is found at once, so the
-- branch of the source for it is not taken.
unfoldable pub rewrite : Text → ℤ → List WriteOp → Run (Option Text)
rewrite content sentence_num ops = elim (get_nth_sentence content sentence_num) [
  | none ↦ ok none
  | some start ↦ and_then (rewrite_at content start ops) λ text. ok (some text)
]
