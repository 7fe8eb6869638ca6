-- ===== src/System/Delete.antt =====
-- Deleting a file that the Storage Server does not have.
use lang_os_distributed_file.Base.{
  ℕ, ◌<◌, Option, none, some, true, [], ◌++◌, Text, ok, blocked, ◌≡◌, ◌≢◌, ◌∙◌, ap, Exec, refl,
  arith, lit, length, take_of_length-le, length-append, contains, before, starts_with, str_eq,
  str_eq_refl, member, none_of, strtok, strtok-token,
}
use lang_os_distributed_file.Storage.Fs.{Fs, remove}
use lang_os_distributed_file.Storage.Sentence.{get_safe_path}
use lang_os_distributed_file.Storage.Serve.{Storage, serve, connected, run_command, ss_delete}
use lang_os_distributed_file.Storage.Serve.Replies.{serve-tokens}
use lang_os_distributed_file.Server.{NameServer, FileMetadata, StorageServer, World, load}
use lang_os_distributed_file.Server.Find.{find_file, with_file}
use lang_os_distributed_file.Server.Delete.{handle_delete, delete_command}
use lang_os_distributed_file.Server.Exchange.{connect_and_send_to_ss}
use lang_os_distributed_file.Server.Exchange.Laws.{exchange_blocks}
use lang_os_distributed_file.System.{storage_reply, IsStorage}

-- A name that passes through a command as one token, and fits into its buffer.
pub record IsName (filename : Text) : Type 0 where
  pub some_byte : filename ≢ []
  pub plain : none_of (lit ";\n") filename ≡ true
  pub fits : length filename < 1000

delete_command-whole :
    (filename : Text)
    → length filename < 1000
    → delete_command filename ≡ lit "SS_DELETE;" ++ (filename ++ lit "\n")
unfolding delete_command
delete_command-whole filename h =
    take_of_length-le 1023 (lit "SS_DELETE;" ++ (filename ++ lit "\n"))
      (omega (arith, length-append filename (lit "\n")))

strtok-empty : strtok (lit ";\n") [] ≡ (none, [])
unfolding strtok
strtok-empty = refl

run_command-delete : (a b : Option Text) → run_command (lit "SS_DELETE") a b ≡ ss_delete a
unfolding run_command str_eq
run_command-delete a b = refl

serve-delete :
    (fs : Fs) (filename : Text)
    → IsName filename
    → serve (delete_command filename) (connected fs) ≡ ss_delete (some filename) (connected fs)
serve-delete fs filename n =
    let first : strtok (lit ";\n") (lit "SS_DELETE;" ++ (filename ++ lit "\n"))
        ≡ (some (lit "SS_DELETE"), filename ++ lit "\n") =
      unfold none_of member in
      strtok-token (lit ";\n") (lit "SS_DELETE") b';' (filename ++ lit "\n") refl (λ e. cc) refl in
    let second : strtok (lit ";\n") (filename ++ lit "\n") ≡ (some filename, []) =
      strtok-token (lit ";\n") filename 10 [] n.plain n.some_byte (unfold member in refl) in
    let parsed : serve (lit "SS_DELETE;" ++ (filename ++ lit "\n"))
        ≡ run_command (lit "SS_DELETE") (some filename) none =
      serve-tokens _ _ _ _ _ _ _ first second strtok-empty in
    rw (delete_command-whole filename n.fits) (
      ap (λ (m : Exec Storage Text). m (connected fs))
        (parsed ∙ run_command-delete (some filename) none))

-- The reply of a Storage Server that does not have the file has no end marker.
delete_reply-missing :
    (fs : Fs) (filename : Text)
    → IsName filename
    → remove fs (get_safe_path filename) ≡ none
    → storage_reply fs (delete_command filename) ≡ lit "ERROR: Could not delete\n__SS_E"
unfolding storage_reply connected
delete_reply-missing fs filename n absent =
    rw (serve-delete fs filename n, storage_reply) (unfold ss_delete connected in ground arith)

-- If the Storage Server does not have a file that its owner deletes, the Name Server waits for
-- ever, and holds `data_mutex`: the reply is cut off inside the end marker.
pub delete-blocks :
    (w : World) (filename username : Text) (s s' : NameServer) (p : ℕ) (f : FileMetadata)
    (ss : StorageServer) (fs : Fs)
    → IsName filename
    → find_file filename s ≡ ok (some p, s')
    → s'.files p ≡ some f
    → f.owner ≡ username
    → f.ss ≡ some ss
    → IsStorage fs (delete_command filename) (w.peer ss (delete_command filename))
    → remove fs (get_safe_path filename) ≡ none
    → handle_delete w filename username s ≡ blocked
unfolding handle_delete with_file load
delete-blocks w filename username s s' p f ss fs n found at_p owner server peer absent =
    let reply = peer.bytes ∙ delete_reply-missing fs filename n absent in
    let waits : connect_and_send_to_ss (w.peer ss (delete_command filename)) ≡ blocked =
      rw peer.open_end (
        exchange_blocks peer.chunks peer.nonempty (rw reply (omega arith))
          (rw reply (unfold contains before starts_with in refl))) in
    ground (arith, found, at_p, owner, server, waits, str_eq_refl username)
