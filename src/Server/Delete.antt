-- ===== src/Server/Delete.antt =====
-- src/name_server/CRWD.c: `handle_delete`. The struct of the file is freed; the cache keeps its
-- address.
pub mod Dangling
pub mod Stale
use lang_os_distributed_file.Base.{
  ℕ, Option, none, some, Bool, List, [], ◌∷◌, ◌++◌, Text, Exec, Run, ok, fault, blocked, pure, lift,
  gets, modify, lit, not, ◌>>=◌, ◌>>◌, ◌==◌, if◌then◌else◌, str_eq, snprintf, contains,
}
use lang_os_distributed_file.Table.{ht_delete}
use lang_os_distributed_file.Server.{NameServer, FileMetadata, World, load, write, target_ss}
use lang_os_distributed_file.Server.Find.{with_file}
use lang_os_distributed_file.Server.Create.{ss_failed, no_contact}
use lang_os_distributed_file.Server.Exchange.{connect_and_send_to_ss}
use lang_os_distributed_file.Server.Save.{save_metadata}
use lang_os_distributed_file.Server.Reply.{
  error_reply, reply, quoted, file_not_found, err_permission_denied, max_buffer_size,
}

-- The loop over the file list up to the first file with the name: its address and the list
-- without it.
unfoldable pub unlink_file : Text → List ℕ → Exec NameServer (Option (ℕ × List ℕ))
unfolding load
unlink_file filename [] = pure none
unlink_file filename (p ∷ ps) = do
  file ← load p
  let rest = unlink_file filename ps
  if str_eq file.filename filename then pure (some (p, ps)) else (do
    found ← rest
    elim found [ none ↦ pure none | some (q, qs) ↦ pure (some (q, p ∷ qs)) ])

unfoldable pub free_file : ℕ → List ℕ → Exec NameServer Unit
free_file p ps = modify (λ s. record s { files = write s.files p none; file_list = ps })

-- What the handler does once the Storage Server has acknowledged.
unfoldable pub delete_metadata : Text → Exec NameServer Unit
unfolding unlink_file free_file
delete_metadata filename = do
  modify (λ s. record s { file_hash_table = ht_delete s.file_hash_table filename })
  found ← (λ s. unlink_file filename s.file_list s)
  elim found [ none ↦ pure tt | some (p, ps) ↦ (do free_file p ps; save_metadata) ]

unfoldable pub not_owner : Text → Text
not_owner filename =
    error_reply err_permission_denied
      (lit "Only the owner can delete file " ++ (quoted filename ++ lit "."))

unfoldable pub file_deleted : Text → Text
file_deleted filename =
    reply (lit "File " ++ (quoted filename ++ lit " successfully deleted from system."))

unfoldable pub delete_command : Text → Text
delete_command filename = snprintf max_buffer_size (lit "SS_DELETE;" ++ (filename ++ lit "\n"))

unfoldable pub delete_result : Text → Option Text → Exec NameServer Text
unfolding delete_metadata
delete_result filename none = pure no_contact
delete_result filename (some response) =
    if contains response (lit "ACK_DELETE")
    then (do delete_metadata filename; pure (file_deleted filename))
    else pure (ss_failed response)

unfoldable pub handle_delete : World → Text → Text → Exec NameServer Text
unfolding with_file delete_result
handle_delete w filename username = with_file filename (pure (file_not_found filename)) λ p file.
    if not (str_eq file.owner username) then pure (not_owner filename) else (do
      ss ← target_ss file
      answer ← lift (connect_and_send_to_ss (w.peer ss (delete_command filename)))
      delete_result filename answer)
