-- ===== src/Server/Folder.antt =====
-- src/name_server/CRWD.c: `handle_create_folder`, `handle_view_folder`.
use lang_os_distributed_file.Base.{
  ℕ, ◌*◌, Option, none, some, Bool, true, false, List, [], ◌∷◌, ◌++◌, Text, Exec, Run, pure, lift,
  gets, lit, ◌>>=◌, ◌>>◌, ◌==◌, if◌then◌else◌, strcpy, strcat, snprintf, starts_with,
}
use lang_os_distributed_file.Server.{
  NameServer, FileMetadata, AccessNode, StorageServer, World, load, link_file,
}
use lang_os_distributed_file.Server.Find.{find_file, with_file}
use lang_os_distributed_file.Server.Save.{save_metadata}
use lang_os_distributed_file.Server.Reply.{
  error_reply, error_reply_in, reply, quoted, err_file_exists, err_file_not_found, max_buffer_size,
}

abbrev pub owner_access : Text → List AccessNode
owner_access name = record { username = name; permission = b'W' } ∷ []

-- ss_list_head, or NULL
abbrev pub first_ss : List StorageServer → Option StorageServer
first_ss [] = none
first_ss (ss ∷ servers) = some ss

-- The folder's struct is filled over what `malloc` left in it. The owner's name is copied twice,
-- into two buffers of 50 bytes.
unfoldable pub add_folder : World → Text → Text → Exec NameServer Unit
unfolding link_file
add_folder w foldername username = do
  filename ← lift (strcpy 100 foldername)
  owner ← lift (strcpy 50 username)
  servers ← gets (λ s. s.ss_list)
  link_file (record w.raw {
    filename = filename;
    is_directory = 1;
    owner = owner;
    word_count = 0;
    char_count = 0;
    last_access = w.now;
    ss = first_ss servers;
    access_list = owner_access owner;
  })

item_exists : Text → Text
item_exists foldername =
    error_reply err_file_exists (lit "Item " ++ (quoted foldername ++ lit " already exists."))

unfoldable pub handle_create_folder : World → Text → Text → Exec NameServer Text
unfolding find_file add_folder save_metadata item_exists
handle_create_folder w foldername username = do
  found ← find_file foldername
  elim found [
    | some p ↦ pure (item_exists foldername)
    | none ↦ (do
      add_folder w foldername username
      save_metadata
      pure (reply (lit "Folder " ++ (quoted foldername ++ lit " created successfully."))))
  ]

abbrev pub view_size : ℕ
view_size = max_buffer_size * 4

-- The test of the loop: the name goes on with '/' after the folder's name.
unfoldable pub is_inside : Text → Text → Bool
is_inside foldername filename = starts_with filename (foldername ++ lit "/")

-- The four calls of `strcat` for one entry.
unfoldable pub entry_line : FileMetadata → Text → Run Text
entry_line file response = strcat view_size response (
    lit "-> "
    ++ (file.filename ++ ((if file.is_directory == 0 then [] else lit " (DIR)") ++ lit "\n")))

-- The loop over the file list, with the response and the flag `found`.
unfoldable pub folder_loop : Text → List ℕ → Text → Bool → Exec NameServer (Text × Bool)
unfolding load is_inside entry_line
folder_loop foldername [] response found = pure (response, found)
folder_loop foldername (p ∷ ps) response found = do
  file ← load p
  let rest = folder_loop foldername ps response found
  if is_inside foldername file.filename
      then (do longer ← lift (entry_line file response); folder_loop foldername ps longer true)
      else rest

unfoldable pub no_folder : Text → Text
no_folder foldername =
    error_reply_in view_size err_file_not_found
      (lit "Folder " ++ (quoted foldername ++ lit " not found."))

unfoldable pub handle_view_folder : Text → Exec NameServer Text
unfolding with_file folder_loop no_folder
handle_view_folder foldername = with_file foldername (pure (no_folder foldername)) λ p folder.
    if folder.is_directory == 0 then pure (no_folder foldername) else (do
      files ← gets (λ s. s.file_list)
      (response, found) ←
          folder_loop foldername files
            (snprintf view_size (lit "Contents of " ++ (foldername ++ lit ":\n----------------\n")))
            false
      response ← lift (strcat view_size response (if found then [] else lit "(Empty Folder)\n"))
      lift (strcat view_size response (lit "__END__\n")))
