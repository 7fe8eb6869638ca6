-- ===== src/System/Version/Witnesses.antt =====
-- The owner of a file checkpoints it and takes it back.
use lang_os_distributed_file.Base.{
  ◌≡◌, refl, arith, false, [], ◌∷◌, pos, List, some, Text, Run, ok, lit, none_of, member, str_eq,
  strtok, contains, before, starts_with,
}
use lang_os_distributed_file.Storage.Fs.{Fs, Node, directory, node_at}
use lang_os_distributed_file.Storage.Sentence.{get_safe_path}
use lang_os_distributed_file.Storage.Commit.{copy_file, drop_slash}
use lang_os_distributed_file.Storage.Commit.Parents.{CanHold, is_free, is_clear}
use lang_os_distributed_file.Storage.Serve
use lang_os_distributed_file.Storage.Serve.{Storage, connected, run_command, checkpoint_path}
use lang_os_distributed_file.Server.{World}
use lang_os_distributed_file.Server.Find.{check_permission}
use lang_os_distributed_file.Server.Find.Frame.{with_cache}
use lang_os_distributed_file.Server.Version.{handle_checkpoint, handle_revert, tagged_command}
use lang_os_distributed_file.Server.Exchange.Laws.{answering}
use lang_os_distributed_file.Server.Example.{s, w, ss, file, cache, found}
use lang_os_distributed_file.System.{IsStorage, storage_reply}
use lang_os_distributed_file.System.Delete.{IsName}
use lang_os_distributed_file.System.Version.{IsKnown, checkpoint_command, revert_command}
use lang_os_distributed_file.System.Version.Revert.{
  checkpoint_created, file_reverted, checkpoint_and_revert,
}

abbrev name : Text
name = lit "a"

abbrev tag : Text
tag = lit "v1"

abbrev path : Text
path = lit "ss_files/a"

abbrev fs : Fs
fs = (lit "ss_files", directory) ∷ (path, Node.file (lit "Old.")) ∷ []

-- The file has been edited since.
abbrev gs : Fs
gs =
    (lit "ss_files", directory)
    ∷ (lit "ss_files/.checkpoints", directory)
    ∷ (lit "ss_files/.checkpoints/a.v1", Node.file (lit "Old."))
    ∷ (path, Node.file (lit "New."))
    ∷ []

abbrev taken : List Text
taken = lit "ACK_CHECKPOINT\n__SS_" ∷ lit "END__" ∷ []

abbrev undone : List Text
undone = lit "ACK_REVERT\n__SS_END__" ∷ []

abbrev w₁ : World
w₁ = record w { peer = λ ss command. answering taken false }

abbrev w₂ : World
w₂ = record w { peer = λ ss command. answering undone false }

abbrev left : Run (Text × Storage) → Storage
left (ok (reply, s)) = s
left _ = record { fs = []; write_head = []; locked_sentence_num = pos 0; locked_filename = [] }

name_IsName : IsName name
unfolding none_of member
name_IsName = record { some_byte = λ e. cc; plain = refl; fits = omega arith }

tag_IsName : IsName tag
unfolding none_of member
tag_IsName = record { some_byte = λ e. cc; plain = refl; fits = omega arith }

reads : IsKnown s name (lit "al") b'R' ss
unfolding check_permission str_eq
reads = record {
  cache = cache;
  address = 0;
  file_found = file;
  found = found;
  alive = refl;
  server = refl;
  allowed = refl;
}

writes : IsKnown s name (lit "al") b'W' ss
unfolding check_permission str_eq
writes = record {
  cache = cache;
  address = 0;
  file_found = file;
  found = found;
  alive = refl;
  server = refl;
  allowed = refl;
}

abbrev t : Storage
t = left (Serve.serve (checkpoint_command name tag) (connected fs))

ran :
    Serve.serve (checkpoint_command name tag) (connected fs)
    ≡ ok (lit "ACK_CHECKPOINT\n__SS_END__", t)
unfolding Serve.serve tagged_command connected run_command strtok str_eq get_safe_path contains
    before starts_with copy_file checkpoint_path
ran = refl

takes : IsStorage fs (checkpoint_command name tag) (w₁.peer ss (checkpoint_command name tag))
unfolding storage_reply Serve.serve tagged_command connected run_command strtok str_eq get_safe_path
    contains before starts_with copy_file checkpoint_path
takes = record {
  chunks = taken;
  nonempty = (omega arith, (omega arith, tt));
  bytes = refl;
  open_end = refl;
}

reverts : IsStorage gs (revert_command name tag) (w₂.peer ss (revert_command name tag))
unfolding storage_reply Serve.serve tagged_command connected run_command strtok str_eq get_safe_path
    contains before starts_with copy_file checkpoint_path
reverts = record { chunks = undone; nonempty = (omega arith, tt); bytes = refl; open_end = refl }

safe : get_safe_path name ≡ path
unfolding get_safe_path contains before starts_with
safe = refl

at_path : node_at fs path ≡ some (Node.file (lit "Old."))
unfolding node_at str_eq
at_path = refl

edited : node_at gs path ≡ some (Node.file (lit "New."))
unfolding node_at str_eq
edited = refl

can_hold : CanHold fs (checkpoint_path name (some tag))
unfolding is_free is_clear node_at checkpoint_path str_eq drop_slash
can_hold = record { short = omega arith; ends = refl; free = refl; no_directory = refl }

same : node_at gs (checkpoint_path name (some tag)) ≡ node_at t.fs (checkpoint_path name (some tag))
unfolding Serve.serve tagged_command connected run_command strtok str_eq get_safe_path contains
    before starts_with copy_file checkpoint_path node_at
same = refl

checkpoint_and_revert_example :
    (handle_checkpoint w₁ name tag (lit "al") s
      ≡ ok (checkpoint_created name tag, with_cache s reads.cache))
    × ((handle_revert w₂ name tag (lit "al") s
          ≡ ok (file_reverted name tag, with_cache s writes.cache))
        × ((u : Storage) × (Serve.serve (revert_command name tag) (connected gs)
              ≡ ok (lit "ACK_REVERT\n__SS_END__", u))
            × (node_at u.fs path ≡ some (Node.file (lit "Old.")))))
checkpoint_and_revert_example =
    checkpoint_and_revert w₁ w₂ s s name tag (lit "al") (lit "al") path (lit "Old.") (lit "New.") ss
      fs gs t (lit "ACK_CHECKPOINT\n__SS_END__") reads writes name_IsName tag_IsName (omega arith)
      safe (λ e. cc) takes at_path can_hold ran reverts same edited
