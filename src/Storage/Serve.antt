-- ===== src/Storage/Serve.antt =====
-- src/storage_server/storage_server.c: `handle_ss_connection`. A command is what one `recv`
-- returns. Commands of different connections are taken one after another, each with a position of
-- `strtok` of its own; Race has the position that the threads share.
pub mod Replies
pub mod Undo
pub mod Revert
pub mod Words
pub mod Race
use lang_os_distributed_file.Base.{
  ℕ, Option, none, some, Bool, true, false, List, [], ◌∷◌, ◌++◌, Text, ℤ, pos, negsuc, Exec, Run,
  ok, fault, blocked, and_then, lit, pure, raise, lift, gets, modify, ◌>>=◌, ◌>>◌, if◌then◌else◌,
  str_eq, strcpy, snprintf, take, strtok, atoi, null_pointer,
}
use lang_os_distributed_file.Storage.Fs.{Fs, read_file, create_new, remove, rename}
use lang_os_distributed_file.Storage.Sentence.{WriteOp, get_safe_path, root_dir}
use lang_os_distributed_file.Storage.Commit.{
  backup_path, commit_changes, ensure_directory_exists, copy_file,
}

-- The file system, and the variables of one connection.
pub record Storage : Type 0 where
  pub fs : Fs
  pub write_head : List WriteOp
  pub locked_sentence_num : ℤ
  pub locked_filename : Text

-- The state of a connection when it begins.
unfoldable pub connected : Fs → Storage
connected fs = record {
  fs = fs;
  write_head = [];
  locked_sentence_num = negsuc 0;
  locked_filename = [];
}

abbrev pub set_fs : Fs → Exec Storage Unit
set_fs fs = modify (λ s. record s { fs = fs })

-- send(sock, text, n, 0)
abbrev pub send : Text → ℕ → Text
send text n = take n text

-- An argument that the code uses without a test for NULL.
unfoldable pub need : Option Text → Exec Storage Text
need none = raise null_pointer
need (some text) = pure text

unfoldable pub ss_create : Option Text → Exec Storage Text
ss_create none s = ok (send (lit "ERROR: Invalid filename\n__SS_END__\n") 30, s)
ss_create (some filename) s = elim (get_safe_path filename) [
  | [] ↦ ok (send (lit "ERROR: Invalid path\n__SS_END__\n") 26, s)
  | c ∷ path ↦
      (do
        fs ← lift (ensure_directory_exists s.fs (c ∷ path))
        set_fs fs
        elim (create_new fs (c ∷ path)) [
          | none ↦ pure (lit "ERROR: File exists or cannot create\n__SS_END__\n")
          | some fs' ↦ (do set_fs fs'; pure (lit "ACK_CREATE\n__SS_END__\n"))
        ])
        s
]

-- The content and the marker, or an error of `error_len` bytes.
unfoldable pub send_file : Text → Text → ℕ → Exec Storage Text
send_file path error error_len s = elim (read_file s.fs path) [
  | none ↦ ok (send error error_len, s)
  | some content ↦ ok (content ++ lit "\n__SS_END__\n", s)
]

-- SS_READ and SS_STREAM are the same code.
unfoldable pub ss_read : Option Text → Exec Storage Text
unfolding need send_file
ss_read arg = do
  filename ← need arg
  send_file (get_safe_path filename) (lit "ERROR: File not found\n__SS_END__\n") 30

unfoldable pub ss_delete : Option Text → Exec Storage Text
unfolding need
ss_delete arg = do
  filename ← need arg
  (λ s. elim (remove s.fs (get_safe_path filename)) [
    | none ↦ ok (send (lit "ERROR: Could not delete\n__SS_END__\n") 30, s)
    | some fs ↦ ok (send (lit "ACK_DELETE\n__SS_END__\n") 21, record s { fs = fs })
  ])

unfoldable pub ss_lock_sentence : Option Text → Option Text → Exec Storage Text
unfolding need
ss_lock_sentence name number = do
  filename ← need name
  locked ← lift (strcpy 256 filename)
  sent_num ← need number
  modify (λ s. record s { locked_filename = locked; locked_sentence_num = atoi sent_num })
  pure (send (lit "ACK_LOCK\n") 9)

-- The newest operation stands first.
unfoldable pub write_data : Option Text → Option Text → Exec Storage Text
unfolding need
write_data index text = do
  word_idx ← need index
  text ← need text
  content ← lift (strcpy 1024 text)
  modify (λ s. record s {
    write_head = record { word_index = atoi word_idx; content = content } ∷ s.write_head;
  })
  pure (send (lit "ACK_DATA\n") 9)

unfoldable pub commit_write : Exec Storage Text
commit_write s =
    (do
      fs ← lift (commit_changes s.fs s.locked_filename s.locked_sentence_num s.write_head)
      modify (λ s. record s {
        fs = fs;
        write_head = [];
        locked_sentence_num = negsuc 0;
        locked_filename = [];
      })
      pure (send (lit "ACK_COMMIT\n__SS_END__\n") 21))
      s

unfoldable pub ss_undo : Option Text → Exec Storage Text
unfolding need
ss_undo arg = do
  filename ← need arg
  (λ s. elim (rename s.fs (backup_path (get_safe_path filename)) (get_safe_path filename)) [
    | some fs ↦ ok (send (lit "ACK_UNDO\n__SS_END__\n") 19, record s { fs = fs })
    | none ↦ ok (send (lit "ERROR: No backup found or rename failed\n__SS_END__\n") 49, s)
  ])

-- snprintf(dest_path, 512, "%s/.checkpoints/%s.%s", SS_ROOT_DIR, filename, tag); the name is not
-- looked through for "..". A missing tag is printed as "(null)".
unfoldable pub checkpoint_path : Text → Option Text → Text
checkpoint_path filename tag = snprintf 512 (
    root_dir
    ++ (lit "/.checkpoints/"
        ++ (filename ++ (lit "." ++ elim tag [ none ↦ lit "(null)" | some tag ↦ tag ]))))

-- The reply to a copy, which keeps the file system that it left.
unfoldable pub after_copy : Bool × Fs → Text → Text → Exec Storage Text
after_copy (copied, fs) ack error = do set_fs fs; pure (if copied then ack else error)

unfoldable pub ss_checkpoint : Option Text → Option Text → Exec Storage Text
unfolding need after_copy
ss_checkpoint arg tag = do
  filename ← need arg
  fs ← gets (λ s. s.fs)
  result ← lift (copy_file fs (get_safe_path filename) (checkpoint_path filename tag))
  after_copy result (send (lit "ACK_CHECKPOINT\n__SS_END__\n") 25)
      (send (lit "ERROR: Checkpoint failed (File not found?)\n__SS_END__\n") 43)

unfoldable pub ss_revert : Option Text → Option Text → Exec Storage Text
unfolding need after_copy
ss_revert arg tag = do
  filename ← need arg
  fs ← gets (λ s. s.fs)
  result ← lift (copy_file fs (checkpoint_path filename tag) (get_safe_path filename))
  after_copy result (send (lit "ACK_REVERT\n__SS_END__\n") 21)
      (send (lit "ERROR: Revert failed (Checkpoint not found)\n__SS_END__\n") 44)

-- A missing name is printed as "(null)" too: nothing else looks at it.
unfoldable pub ss_read_checkpoint : Option Text → Option Text → Exec Storage Text
unfolding send_file
ss_read_checkpoint arg tag =
    send_file (checkpoint_path (elim arg [ none ↦ lit "(null)" | some name ↦ name ]) tag)
      (lit "ERROR: Checkpoint not found\n__SS_END__\n") 38

abbrev pub delimiters : Text
delimiters = lit ";\n"

-- The chain of tests on the command's name, with the two tokens behind it. Nothing is sent to an
-- unknown command.
unfoldable pub run_command : Text → Option Text → Option Text → Exec Storage Text
unfolding ss_create ss_read ss_delete ss_lock_sentence write_data commit_write ss_undo ss_checkpoint
    ss_revert ss_read_checkpoint
run_command command a b =
    if str_eq command (lit "SS_CREATE")
    then ss_create a
    else if str_eq command (lit "SS_READ")
    then ss_read a
    else if str_eq command (lit "SS_STREAM")
    then ss_read a
    else if str_eq command (lit "SS_DELETE")
    then ss_delete a
    else if str_eq command (lit "SS_LOCK_SENTENCE")
    then ss_lock_sentence a b
    else if str_eq command (lit "WRITE_DATA")
    then write_data a b
    else if str_eq command (lit "COMMIT_WRITE")
    then commit_write
    else if str_eq command (lit "SS_UNDO")
    then ss_undo a
    else if str_eq command (lit "SS_CHECKPOINT")
    then ss_checkpoint a b
    else if str_eq command (lit "SS_REVERT")
    then ss_revert a b
    else if str_eq command (lit "SS_READ_CHECKPOINT")
    then ss_read_checkpoint a b
    else pure []

-- The `strtok` calls of one round, each on what the one before it left.
unfoldable pub second_token : Text → Option Text × Text → Exec Storage Text
second_token command (a, s) = run_command command a (strtok delimiters s).0

unfoldable pub first_token : Option Text × Text → Exec Storage Text
first_token (none, s) = pure []
first_token (some command, s) = second_token command (strtok delimiters s)

-- One round of the loop of `handle_ss_connection`: the bytes that are sent.
unfoldable pub serve : Text → Exec Storage Text
unfolding first_token second_token
serve buffer = first_token (strtok delimiters buffer)
