-- ===== src/Storage/Tests.antt =====
-- A write session on a new file and its undo.
use lang_os_distributed_file.Base.{
  pos, member, ◌≡◌, refl, Option, some, [], ◌∷◌, Exec, ◌>>=◌, ◌>>◌, pure, gets, lit, ok, and_then,
  strtok, str_eq, strcpy, contains, atoi, signed, skip_space, digits,
}
use lang_os_distributed_file.Storage.Fs.{Fs, Node, directory, file, node_at}
use lang_os_distributed_file.Storage.Sentence.{
  get_safe_path, rewrite, rewrite_at, get_nth_sentence, sentence_at, new_sentence,
}
use lang_os_distributed_file.Storage.Commit.{commit_changes, backup_path}
use lang_os_distributed_file.Storage.Serve.{Storage, connected, serve, run_command}

abbrev fs : Fs
fs = (lit "ss_files", directory) ∷ (lit "ss_files/a.txt", file (lit "Hi all. Bye.")) ∷ []

abbrev session : Exec Storage (Option Node × Option Node)
session = do
  serve (lit "SS_LOCK_SENTENCE;a.txt;1\n")
  serve (lit "WRITE_DATA;0;Ciao\n")
  serve (lit "COMMIT_WRITE;\n")
  s ← gets (λ s. s.fs)
  serve (lit "SS_UNDO;a.txt\n")
  u ← gets (λ s. s.fs)
  pure (node_at s (lit "ss_files/a.txt"), node_at u (lit "ss_files/a.txt"))

session_edits :
    and_then (session (connected fs)) (λ (r, s). ok r)
    ≡ ok (some (file (lit "Hi all. Ciao")), some (file (lit "Hi all. Bye.")))
unfolding serve run_command commit_changes backup_path rewrite rewrite_at get_nth_sentence
    sentence_at new_sentence strtok str_eq strcpy get_safe_path contains atoi connected signed
    skip_space digits
session_edits = refl

rewrite_edits :
    rewrite
      (lit "One two. Three four! Five.")
      (pos 1)
      (record { word_index = pos 1; content = lit "FOUR!" } ∷ [])
    ≡ ok (some (lit "One two. Three FOUR! Five."))
unfolding rewrite get_nth_sentence rewrite_at sentence_at new_sentence strtok member strcpy
rewrite_edits = refl
