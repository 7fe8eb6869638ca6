-- ===== src/System/Version.antt =====
-- Checkpoints and reverts through the Name Server: `handle_checkpoint` and `handle_revert` of
-- src/name_server/CRWD.c with the Storage Server that answers them.
pub mod Revert
mod Witnesses
use lang_os_distributed_file.Base.{
  ℕ, ◌<◌, ◌+◌, Option, none, some, true, false, [], ◌++◌, Text, ok, ◌≡◌, ◌≢◌, ◌∙◌, ap, Exec, refl,
  arith, lit, length, snprintf, take, take_of_length-le, length-append, contains, before,
  starts_with, str_eq, member, none_of, strtok, strtok-token,
}
use lang_os_distributed_file.Cache.{LruCache}
use lang_os_distributed_file.Storage.Fs.{Fs, Node, file, node_at, has_place}
use lang_os_distributed_file.Storage.Fs.Laws.{is_directory}
use lang_os_distributed_file.Storage.Sentence.{get_safe_path}
use lang_os_distributed_file.Storage.Serve.{
  Storage, serve, connected, run_command, ss_checkpoint, ss_revert, checkpoint_path,
}
use lang_os_distributed_file.Storage.Serve.Replies.{serve-tokens}
use lang_os_distributed_file.Storage.Serve.Revert.{checkpoint_taken, revert_done}
use lang_os_distributed_file.Server.{
  NameServer, FileMetadata, StorageServer, World, load, target_ss,
}
use lang_os_distributed_file.Server.Find.{with_file, check_permission}
use lang_os_distributed_file.Server.Find.Frame.{Finds, with_cache}
use lang_os_distributed_file.Server.Reply.{reply, quoted, max_buffer_size}
use lang_os_distributed_file.Server.Version.{
  ask_ss, handle_checkpoint, handle_revert, tagged_command, checkpoint_result, revert_result,
}
use lang_os_distributed_file.Server.Exchange.{connect_and_send_to_ss, ss_end}
use lang_os_distributed_file.Server.Exchange.Laws.{exchange_complete}
use lang_os_distributed_file.System.{storage_reply, IsStorage}
use lang_os_distributed_file.System.Delete.{IsName}

-- A Storage Server whose reply fits and holds the end marker is heard.
pub asked :
    (fs : Fs) (command reply body : Text) (t : Storage) (w : World) (ss : StorageServer)
    → IsStorage fs command (w.peer ss command)
    → serve command (connected fs) ≡ ok (reply, t)
    → length reply < 4096
    → before ss_end reply ≡ some body
    → connect_and_send_to_ss (w.peer ss command) ≡ ok (some body)
unfolding storage_reply
asked fs command reply body t w ss peer served fits ends =
    let bytes : storage_reply fs command ≡ reply = ground (arith, served) in
    rw peer.open_end (
      exchange_complete peer.chunks false body peer.nonempty (rw (peer.bytes, bytes) fits)
        (rw (peer.bytes, bytes) ends))

-- A command with two arguments is taken apart by the Storage Server.
pub serve-tagged :
    (name filename tag : Text)
    → none_of (lit ";\n") name ≡ true
    → name ≢ []
    → IsName filename
    → IsName tag
    → serve (tagged_command name filename tag) ≡ run_command name (some filename) (some tag)
unfolding tagged_command
serve-tagged name filename tag plain given f t =
    let semicolon : member b';' (lit ";\n") ≡ true = unfold member in refl in
    let newline : member 10 (lit ";\n") ≡ true = unfold member in refl in
    serve-tokens _ _ _ _ _ _ _
      (strtok-token (lit ";\n") name b';' (filename ++ (lit ";" ++ (tag ++ lit "\n"))) plain given
        semicolon)
      (strtok-token (lit ";\n") filename b';' (tag ++ lit "\n") f.plain f.some_byte semicolon)
      (strtok-token (lit ";\n") tag 10 [] t.plain t.some_byte newline)

pub tagged_command-fits :
    (name filename tag : Text)
    → length name < 15
    → length filename + length tag < 1000
    → take 1023 (tagged_command name filename tag) ≡ tagged_command name filename tag
unfolding tagged_command
tagged_command-fits name filename tag short fits =
    let whole = name ++ (lit ";" ++ (filename ++ (lit ";" ++ (tag ++ lit "\n")))) in
    take_of_length-le 1023 whole (
      omega (
        arith,
        length-append name (lit ";" ++ (filename ++ (lit ";" ++ (tag ++ lit "\n")))),
        length-append filename (lit ";" ++ (tag ++ lit "\n")),
        length-append tag (lit "\n"),
        fits,
      ))

-- A file that the Name Server finds under a name, on this Storage Server, and on which the user has
-- the permission.
pub record IsKnown (s : NameServer) (filename username : Text) (perm : ℕ) (ss : StorageServer)
    : Type 0 where
  pub cache : LruCache
  pub address : ℕ
  pub file_found : FileMetadata
  pub found : Finds filename s address cache
  pub alive : s.files address ≡ some file_found
  pub server : file_found.ss ≡ some ss
  pub allowed : check_permission file_found username perm ≡ true

pub run_command-checkpoint :
    (a b : Option Text) → run_command (lit "SS_CHECKPOINT") a b ≡ ss_checkpoint a b
unfolding run_command str_eq
run_command-checkpoint a b = refl

pub run_command-revert : (a b : Option Text) → run_command (lit "SS_REVERT") a b ≡ ss_revert a b
unfolding run_command str_eq
run_command-revert a b = refl

abbrev pub checkpoint_command : Text → Text → Text
checkpoint_command filename tag = tagged_command (lit "SS_CHECKPOINT") filename tag

abbrev pub revert_command : Text → Text → Text
revert_command filename tag = tagged_command (lit "SS_REVERT") filename tag

with_file-found :
    (filename : Text) (missing : Exec NameServer Text) (m : ℕ → FileMetadata → Exec NameServer Text)
    (s : NameServer) (cache : LruCache) (p : ℕ) (f : FileMetadata)
    → Finds filename s p cache
    → s.files p ≡ some f
    → with_file filename missing m s ≡ m p f (with_cache s cache)
unfolding with_file load
with_file-found filename missing m s cache p f found alive = ground (arith, found, alive)

ask_ss-heard :
    (w : World) (f : FileMetadata) (ss : StorageServer) (command body : Text) (s : NameServer)
    → f.ss ≡ some ss
    → take 1023 command ≡ command
    → connect_and_send_to_ss (w.peer ss command) ≡ ok (some body)
    → ask_ss w f command s ≡ ok (some body, s)
unfolding ask_ss
ask_ss-heard w f ss command body s server whole heard =
    let sent : connect_and_send_to_ss (w.peer ss (snprintf max_buffer_size command))
        ≡ ok (some body) =
      ap (λ c. connect_and_send_to_ss (w.peer ss c)) whole ∙ heard in
    rw (server, sent) refl

pub handle_checkpoint-heard :
    (w : World) (s : NameServer) (filename tag username body : Text) (ss : StorageServer)
    (k : IsKnown s filename username b'R' ss)
    → take 1023 (checkpoint_command filename tag) ≡ checkpoint_command filename tag
    → connect_and_send_to_ss (w.peer ss (checkpoint_command filename tag)) ≡ ok (some body)
    → handle_checkpoint w filename tag username s
      ≡ ok (checkpoint_result filename tag (some body), with_cache s k.cache)
unfolding handle_checkpoint
handle_checkpoint-heard w s filename tag username body ss k whole heard =
    let answer =
      ask_ss-heard w k.file_found ss (checkpoint_command filename tag) body (with_cache s k.cache)
        k.server whole heard in
    with_file-found filename _ _ s k.cache k.address k.file_found k.found k.alive
    ∙ ground (arith, k.allowed, answer)

pub handle_revert-heard :
    (w : World) (s : NameServer) (filename tag username body : Text) (ss : StorageServer)
    (k : IsKnown s filename username b'W' ss)
    → take 1023 (revert_command filename tag) ≡ revert_command filename tag
    → connect_and_send_to_ss (w.peer ss (revert_command filename tag)) ≡ ok (some body)
    → handle_revert w filename tag username s
      ≡ ok (revert_result filename tag (some body), with_cache s k.cache)
unfolding handle_revert
handle_revert-heard w s filename tag username body ss k whole heard =
    let answer =
      ask_ss-heard w k.file_found ss (revert_command filename tag) body (with_cache s k.cache)
        k.server whole heard in
    with_file-found filename _ _ s k.cache k.address k.file_found k.found k.alive
    ∙ ground (arith, k.allowed, answer)

pub checkpoint_path-given :
    (filename : Text) (tag : Option Text) → checkpoint_path filename tag ≢ []
unfolding checkpoint_path
checkpoint_path-given filename tag e = cc
