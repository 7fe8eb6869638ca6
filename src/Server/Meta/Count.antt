-- ===== src/Server/Meta/Count.antt =====
-- The words that `handle_update_meta` of src/name_server/CRWD.c counts.
use lang_os_distributed_file.Base.{
  ℕ, zero, suc, ◌+◌, ◌<◌, ◌≡◌, Text, arith, length, strtok, strtok-fields, fields, inl, inr,
}
use lang_os_distributed_file.Server.Meta.{white, count_loop}

-- With more fuel than the text has bytes the loop that counts words ends at the end of the text, and
-- has counted each word once: the words being the longest runs of bytes that are not white space.
pub count_loop-counts :
    (fuel : ℕ) (text : Text) (words : ℕ)
    → length text < fuel
    → count_loop fuel text words ≡ words + length (fields white text)
unfolding count_loop
count_loop-counts zero text words h = absurd (omega arith)
count_loop-counts (suc fuel) text words h = elim (strtok-fields white text) [
  | inl (last, empty) ↦ ground (arith, last, empty)
  | inr (t, next, listed, shorter) ↦
      ground (
        arith,
        next,
        listed,
        count_loop-counts fuel (strtok white text).1 (words + 1) (omega arith),
      )
]
