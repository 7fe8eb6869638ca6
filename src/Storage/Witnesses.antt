-- ===== src/Storage/Witnesses.antt =====
-- The theorems on the Storage Server at work on one small file system.
use lang_os_distributed_file.Storage.Serve.Race.{
  Shared, replied, both_arrived, step, steps, wrong_file_deleted,
}
use lang_os_distributed_file.Storage.Serve.Words.{second_word_lost}
use lang_os_distributed_file.Storage.Serve.{write_data}
use lang_os_distributed_file.Storage.Serve.{ss_checkpoint, ss_revert, checkpoint_path}
use lang_os_distributed_file.Storage.Serve.Revert.{checkpoint_then_revert}
use lang_os_distributed_file.Storage.Fs.{Node}
use lang_os_distributed_file.Storage.Commit.{copy_file, drop_slash}
use lang_os_distributed_file.Storage.Commit.Parents.{CanHold, is_free, is_clear}
use lang_os_distributed_file.Base.{
  none_of, member, null_pointer, atoi, signed, skip_space, digits, fault, blocked, ◌<◌, ◌≤◌, ◌≡◌,
  ◌≢◌, ◌↔◌, ◌⊎◌, refl, arith, none, some, true, false, [], ◌∷◌, ◌++◌, List, Text, ◌>>◌, lit, ok,
  pos, length, strtok, str_eq, strcpy, contains, before, starts_with,
}
use lang_os_distributed_file.Storage.Fs.{
  Fs, directory, file, node_at, has_place, parent, remove, rename, read_file,
}
use lang_os_distributed_file.Storage.Sentence.{
  WriteOp, get_safe_path, rewrite, rewrite_at, get_nth_sentence, sentence_at, new_sentence,
  apply_ops, max_words,
}
use lang_os_distributed_file.Storage.Sentence.Parts.{enders_in}
use lang_os_distributed_file.Storage.Sentence.Edit.{
  rewrite_local, rewrite-missing, length-apply_ops,
}
use lang_os_distributed_file.Storage.Sentence.Path.{safe_path-stays, safe_path-injective}
use lang_os_distributed_file.Storage.Commit.{commit_changes, backup_path}
use lang_os_distributed_file.Storage.Commit.Undo.{commit_total}
use lang_os_distributed_file.Storage.Commit.Steps.{IsCommittable}
use lang_os_distributed_file.Storage.Serve.{
  Storage, commit_write, ss_undo, ss_delete, ss_read, connected,
}
use lang_os_distributed_file.Storage.Serve.Undo.{commit_then_undo}

abbrev path : Text
path = lit "ss_files/a.txt"

abbrev old : Text
old = lit "Hi all. Bye."

abbrev fs : Fs
fs = (lit "ss_files", directory) ∷ (path, file old) ∷ []

-- The second sentence gets another first word.
abbrev ops : List WriteOp
ops = record { word_index = pos 0; content = lit "Ciao" } ∷ []

abbrev text : Text
text = lit "Hi all. Ciao"

abbrev locked : Storage
locked = record {
  fs = fs;
  write_head = ops;
  locked_sentence_num = pos 1;
  locked_filename = lit "a.txt";
}

edited : rewrite old (pos 1) ops ≡ ok (some text)
unfolding rewrite rewrite_at get_nth_sentence sentence_at new_sentence strtok strcpy
edited = refl

safe : get_safe_path (lit "a.txt") ≡ path
unfolding get_safe_path contains before starts_with
safe = refl

fs-IsCommittable : IsCommittable fs path old
unfolding node_at has_place parent str_eq
fs-IsCommittable = record {
  short = omega arith;
  content = refl;
  place = refl;
  no_tmp = refl;
  no_bak = refl;
}

path_given : path ≢ []
path_given e = cc

commit_then_undo_example :
    (s' : Storage) × ((do commit_write; ss_undo (some (lit "a.txt"))) locked
      ≡ ok (lit "ACK_UNDO\n__SS_END__", s'))
    × (node_at s'.fs path ≡ some (file old))
    × (s'.write_head ≡ [])
    × (s'.locked_filename ≡ [])
    × ((q : Text)
        → str_eq (path ++ lit ".bak") q ≡ false
        → str_eq (path ++ lit ".tmp") q ≡ false
        → node_at s'.fs q ≡ node_at fs q)
commit_then_undo_example =
    commit_then_undo locked path old text safe path_given fs-IsCommittable edited

commit_total_example :
    (fs' : Fs) × (commit_changes fs (lit "a.txt") (pos 1) ops ≡ ok fs')
    × (node_at fs' path ≡ some (file text))
    × (node_at fs' (path ++ lit ".bak") ≡ some (file old))
    × (node_at fs' (path ++ lit ".tmp") ≡ none)
    × ((q : Text)
        → str_eq path q ≡ false
        → str_eq (path ++ lit ".bak") q ≡ false
        → str_eq (path ++ lit ".tmp") q ≡ false
        → node_at fs' q ≡ node_at fs q)
commit_total_example =
    commit_total fs (lit "a.txt") path old text (pos 1) ops safe path_given fs-IsCommittable edited

rewrite_local_example :
    (front : Text) × (sentence : Text) × (rest : Text) × (sentence' : Text) × (old
      ≡ front ++ (sentence ++ rest))
    × (enders_in front ≡ 1)
    × (enders_in sentence ≤ 1)
    × (new_sentence sentence ops ≡ ok sentence')
    × (text ≡ front ++ (sentence' ++ rest))
rewrite_local_example = rewrite_local old 1 ops text edited

rewrite-missing_example : (rewrite old (pos 3) ops ≡ ok none) ↔ (enders_in old < 3)
rewrite-missing_example = rewrite-missing old 3 ops

abbrev words : List Text
words = lit "Hi" ∷ lit "all." ∷ []

length-apply_ops_example :
    (2 ≤ length (apply_ops words ops)) × (length (apply_ops words ops) ≤ max_words)
length-apply_ops_example = length-apply_ops words ops (omega arith)

safe_path-stays_example :
    (contains (get_safe_path (lit "../etc")) (lit "..") ≡ false)
    × (((contains (lit "../etc") (lit "..") ≡ true) × (get_safe_path (lit "../etc") ≡ []))
        ⊎ ((contains (lit "../etc") (lit "..") ≡ false)
            × (starts_with (get_safe_path (lit "../etc")) (lit "ss_files/") ≡ true)))
safe_path-stays_example = safe_path-stays (lit "../etc")

no_dots : contains (lit "a.txt") (lit "..") ≡ false
unfolding contains before starts_with
no_dots = refl

safe_path-injective_example : lit "a.txt" ≡ lit "a.txt"
safe_path-injective_example =
    safe_path-injective (lit "a.txt") (lit "a.txt") no_dots no_dots (omega arith) (omega arith) refl

ss_delete_missing :
    ss_delete (some (lit "b.txt")) (connected fs)
    ≡ ok (lit "ERROR: Could not delete\n__SS_E", connected fs)
unfolding ss_delete connected remove node_at str_eq get_safe_path contains before starts_with
ss_delete_missing = refl

ss_read_found :
    ss_read (some (lit "a.txt")) (connected fs) ≡ ok (old ++ lit "\n__SS_END__\n", connected fs)
unfolding ss_read connected read_file node_at str_eq get_safe_path contains before starts_with
ss_read_found = refl

ss_undo_missing :
    ss_undo (some (lit "a.txt")) (connected fs)
    ≡ ok (lit "ERROR: No backup found or rename failed\n__SS_END_", connected fs)
unfolding ss_undo connected rename node_at str_eq get_safe_path contains before starts_with
    backup_path
ss_undo_missing = refl

-- A file without any checkpoint, so that the directory is made; the checkpoint "v1"; and an edit
-- since then.
abbrev kept : Fs
kept = (lit "ss_files", directory) ∷ (path, file old) ∷ []

abbrev checkpointed : Storage
checkpointed = elim (ss_checkpoint (some (lit "a.txt")) (some (lit "v1")) (connected kept)) [
  | ok (reply, s) ↦ s
  | fault e ↦ connected kept
  | blocked ↦ connected kept
]

takes :
    ss_checkpoint (some (lit "a.txt")) (some (lit "v1")) (connected kept)
    ≡ ok (lit "ACK_CHECKPOINT\n__SS_END__", checkpointed)
unfolding ss_checkpoint copy_file connected get_safe_path contains before starts_with
    checkpoint_path str_eq
takes = refl

abbrev later : Fs
later =
    (path, file text)
    ∷ (lit "ss_files", directory)
    ∷ (lit "ss_files/.checkpoints/a.txt.v1", file old)
    ∷ []

at_checkpoint :
    node_at later (checkpoint_path (lit "a.txt") (some (lit "v1")))
    ≡ node_at checkpointed.fs (checkpoint_path (lit "a.txt") (some (lit "v1")))
unfolding ss_checkpoint copy_file connected get_safe_path contains before starts_with
    checkpoint_path str_eq node_at
at_checkpoint = refl

can_hold : CanHold kept (checkpoint_path (lit "a.txt") (some (lit "v1")))
unfolding is_free is_clear node_at checkpoint_path str_eq drop_slash
can_hold = record { short = omega arith; ends = refl; free = refl; no_directory = refl }

at_kept : node_at kept path ≡ some (file old)
unfolding node_at str_eq
at_kept = refl

at_later : node_at later path ≡ some (file text)
unfolding node_at str_eq
at_later = refl

checkpoint_then_revert_example :
    (◌≡◌ {A = Text} (lit "ACK_CHECKPOINT\n__SS_END__") (lit "ACK_CHECKPOINT\n__SS_END__"))
    × ((t : Storage) × (ss_revert (some (lit "a.txt")) (some (lit "v1")) (connected later)
          ≡ ok (lit "ACK_REVERT\n__SS_END__", t))
        × (node_at t.fs path ≡ some (file old))
        × ((q : Text) (node : Node)
            → str_eq path q ≡ false
            → node_at later q ≡ some node
            → node_at t.fs q ≡ some node))
unfolding connected
checkpoint_then_revert_example =
    checkpoint_then_revert (connected kept) checkpointed (connected later) (lit "a.txt") (lit "v1")
      path old text (lit "ACK_CHECKPOINT\n__SS_END__") safe path_given at_kept can_hold takes
      at_checkpoint at_later

-- Two files; the one that is only to be read is deleted.
abbrev two_files : Fs
two_files =
    (lit "ss_files", directory) ∷ (path, file old) ∷ (lit "ss_files/b", file (lit "B.")) ∷ []

other_path : str_eq (get_safe_path (lit "b")) (get_safe_path (lit "a.txt")) ≡ false
unfolding str_eq get_safe_path contains before starts_with
other_path = refl

b_plain : none_of (lit ";\n") (lit "b") ≡ true
unfolding none_of member
b_plain = refl

abbrev one_file : Fs
one_file = (lit "ss_files", directory) ∷ (path, file old) ∷ []

b_gone : remove two_files (get_safe_path (lit "b")) ≡ some one_file
unfolding remove node_at str_eq get_safe_path contains before starts_with
b_gone = refl

wrong_file_deleted_example :
    (t : Shared) × (steps
        (true ∷ false ∷ true ∷ [])
        (both_arrived two_files [] (lit "a.txt") (lit "b"))
      ≡ ok t)
    × (t.one ≡ replied (lit "ACK_DELETE\n__SS_END__"))
    × (node_at t.fs (get_safe_path (lit "b")) ≡ none)
    × (node_at t.fs (get_safe_path (lit "a.txt")) ≡ node_at two_files (get_safe_path (lit "a.txt")))
    × (step false t ≡ fault null_pointer)
wrong_file_deleted_example =
    wrong_file_deleted two_files one_file [] (lit "a.txt") (lit "b") b_plain (λ e. cc) other_path
      b_gone

first_index : atoi (lit "1") ≡ pos 1
unfolding atoi signed skip_space digits
first_index = refl

next_index : atoi (lit "2") ≡ pos 2
unfolding atoi signed skip_space digits
next_index = refl

second_word_lost_example :
    (t t' : Storage) × (write_data (some (lit "1")) (some (lit "you")) (connected fs)
      ≡ ok (lit "ACK_DATA\n", t))
    × (write_data (some (lit "2")) (some (lit "all")) t ≡ ok (lit "ACK_DATA\n", t'))
    × (t'.fs ≡ fs)
    × (apply_ops (lit "Hi" ∷ []) t'.write_head ≡ lit "Hi" ∷ lit "you" ∷ [])
unfolding connected
second_word_lost_example =
    second_word_lost (connected fs) (lit "Hi" ∷ []) (lit "1") (lit "2") (lit "you") (lit "all") refl
      (omega arith) first_index next_index (omega arith) (omega arith)
