-- ===== src/Server/Create.antt =====
-- src/name_server/CRWD.c: `handle_create`.
pub mod Keeps
use lang_os_distributed_file.Base.{
  ℕ, Option, none, some, Bool, true, false, List, [], ◌∷◌, ◌++◌, Text, Exec, Run, ok, fault,
  blocked, pure, lift, gets, lit, ◌>>=◌, ◌>>◌, if◌then◌else◌, strcpy, snprintf, contains, take,
}
use lang_os_distributed_file.Server.{NameServer, FileMetadata, StorageServer, World, link_file}
use lang_os_distributed_file.Server.Find.{find_file}
use lang_os_distributed_file.Server.Folder.{owner_access}
use lang_os_distributed_file.Server.Exchange.{connect_and_send_to_ss}
use lang_os_distributed_file.Server.Save.{save_metadata}
use lang_os_distributed_file.Server.Reply.{
  error_reply, reply, quoted, err_file_exists, err_no_ss_available, err_ss_failure,
  err_ss_unreachable, max_buffer_size,
}

-- The struct of a new file over what `malloc` left in it: `is_directory` and `pending_requests`
-- are not set.
unfoldable pub add_file : World → Text → Text → StorageServer → Exec NameServer Unit
unfolding link_file
add_file w filename username ss = do
  name ← lift (strcpy 100 filename)
  owner ← lift (strcpy 50 username)
  link_file (record w.raw {
    filename = name;
    owner = owner;
    word_count = 0;
    char_count = 0;
    last_access = w.now;
    ss = some ss;
    annotation = [];
    access_list = owner_access owner;
  })

-- "Storage Server failed: %.500s"
unfoldable pub ss_failed : Text → Text
ss_failed response = error_reply err_ss_failure (lit "Storage Server failed: " ++ take 500 response)

unfoldable pub no_contact : Text
no_contact = error_reply err_ss_unreachable (lit "Name Server could not contact Storage Server.")

unfoldable pub file_exists : Text → Text
file_exists filename =
    error_reply err_file_exists (lit "File " ++ (quoted filename ++ lit " already exists."))

unfoldable pub file_created : Text → Text
file_created filename = reply (lit "File " ++ (quoted filename ++ lit " created successfully."))

unfoldable pub no_servers : Text
no_servers = error_reply err_no_ss_available (lit "No Storage Servers available.")

unfoldable pub create_command : Text → Text
create_command filename = snprintf max_buffer_size (lit "SS_CREATE;" ++ (filename ++ lit "\n"))

-- The reply to the client, by what the Storage Server answered.
unfoldable pub create_result : Text → Option Text → Text
create_result filename none = no_contact
create_result filename (some response) =
    if contains response (lit "ACK_CREATE") then file_created filename else ss_failed response

-- Metadata first; then, after the mutex is released, the request to the first Storage Server.
unfoldable pub create_at : World → Text → Text → StorageServer → Exec NameServer Text
create_at w filename username ss = do
  add_file w filename username ss
  save_metadata
  answer ← lift (connect_and_send_to_ss (w.peer ss (create_command filename)))
  pure (create_result filename answer)

unfoldable pub handle_create : World → Text → Text → Exec NameServer Text
handle_create w filename username = do
  found ← find_file filename
  elim found [
    | some p ↦ pure (file_exists filename)
    | none ↦ λ s. elim s.ss_list [
      | [] ↦ ok (no_servers, s)
      | ss ∷ servers ↦ create_at w filename username ss s
    ]
  ]
