-- ===== src/Storage/Serve/Words.antt =====
-- The words of a session, from the commands that send them to the sentence.
use lang_os_distributed_file.Base.{
  ◌≡◌, ◌<◌, ◌+◌, arith, some, [], ◌∷◌, ◌++◌, List, Text, pos, ok, lit, length, strcpy, atoi, refl,
}
use lang_os_distributed_file.Storage.Sentence.{WriteOp, apply_ops, max_words}
use lang_os_distributed_file.Storage.Sentence.Edit.{append_two}
use lang_os_distributed_file.Storage.Serve.{Storage, write_data}

-- A connection that holds no operations yet sends two words in order for the end of a sentence: one at
-- the index behind its last word, and one at the index behind that. The words have fewer than 1024
-- bytes each, and the sentence has room for one more. Both are acknowledged; but the operations that
-- the connection then holds, applied to the words of the sentence, keep the first word only.
pub second_word_lost :
    (s : Storage) (words : List Text) (i j a b : Text)
    → s.write_head ≡ []
    → length words < max_words
    → atoi i ≡ pos (length words)
    → atoi j ≡ pos (length words + 1)
    → length a < 1024
    → length b < 1024
    → (t t' : Storage) × (write_data (some i) (some a) s ≡ ok (lit "ACK_DATA\n", t))
      × (write_data (some j) (some b) t ≡ ok (lit "ACK_DATA\n", t'))
      × (t'.fs ≡ s.fs)
      × (apply_ops words t'.write_head ≡ words ++ (a ∷ []))
unfolding write_data strcpy
second_word_lost s words i j a b fresh fits at_end behind short_a short_b =
    let one : List WriteOp = record { word_index = pos (length words); content = a } ∷ [] in
    let two : List WriteOp = record { word_index = pos (length words + 1); content = b } ∷ one in
    (
      record s { write_head = one },
      record s { write_head = two },
      ground (arith, fresh, at_end, short_a),
      ground (arith, behind, short_b),
      refl,
      append_two words a b fits,
    )
