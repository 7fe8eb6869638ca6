-- ===== src/Server/Save.antt =====
-- src/name_server/CRWD.c: `save_metadata`, the text of the three files.
pub mod Total
use lang_os_distributed_file.Base.{
  ℕ, Option, none, some, Bool, true, false, List, [], ◌∷◌, ◌++◌, Text, Exec, Run, ok, fault,
  blocked, pure, gets, modify, lit, not, ◌>>=◌, ◌>>◌, ◌==◌, if◌then◌else◌, length, str_eq,
  print_int,
}
use lang_os_distributed_file.Server.{
  NameServer, FileMetadata, AccessNode, StorageServer, User, Disk, load, target_ss,
}

-- "%s\n" for each user
unfoldable pub user_lines : List User → Text
user_lines [] = []
user_lines (user ∷ users) = user.username ++ (lit "\n" ++ user_lines users)

-- ";%s,%c" for each node of the access list but the owner's
unfoldable pub access_entries : Text → List AccessNode → Text
access_entries owner [] = []
access_entries owner (node ∷ nodes) =
    if str_eq node.username owner
    then access_entries owner nodes
    else lit ";" ++ (node.username ++ (lit "," ++ (node.permission ∷ access_entries owner nodes)))

-- "%s;%s;%s;%d", the access entries and "\n"
unfoldable pub file_line : FileMetadata → StorageServer → Text
unfolding access_entries
file_line file ss =
    file.filename
    ++ (lit ";"
        ++ (file.owner
            ++ (lit ";"
                ++ (ss.ip_addr
                    ++ (lit ";"
                        ++ (print_int ss.port
                            ++ (access_entries file.owner file.access_list ++ lit "\n")))))))

-- The second loop of `save_metadata`; it follows `current->ss`.
unfoldable pub file_lines : List ℕ → Exec NameServer Text
unfolding load file_line
file_lines [] = pure []
file_lines (p ∷ ps) = do
  file ← load p
  ss ← target_ss file
  rest ← file_lines ps
  pure (file_line file ss ++ rest)

-- "%s;%s\n" for each file with an annotation
unfoldable pub note_lines : List ℕ → Exec NameServer Text
unfolding load
note_lines [] = pure []
note_lines (p ∷ ps) = do
  file ← load p
  rest ← note_lines ps
  if length file.annotation == 0
      then pure rest
      else pure (file.filename ++ (lit ";" ++ (file.annotation ++ (lit "\n" ++ rest))))

abbrev pub set_disk : Disk → Exec NameServer Unit
set_disk disk = modify (λ s. record s { disk = disk })

unfoldable pub save_users : Exec NameServer Unit
unfolding user_lines
save_users s = set_disk (record s.disk { user_data = user_lines s.user_list }) s

unfoldable pub save_files : Exec NameServer Unit
unfolding file_lines
save_files = do
  text ← (λ s. file_lines s.file_list s)
  modify (λ s. record s { disk = record s.disk { file_metadata = text; metadata_exists = true } })

unfoldable pub save_notes : Exec NameServer Unit
unfolding note_lines
save_notes = do
  text ← (λ s. note_lines s.file_list s)
  modify (λ s. record s { disk = record s.disk { annotations = text } })

unfoldable pub save_notes_if_open : Exec NameServer Unit
unfolding save_notes
save_notes_if_open s = if s.disk.annotations_opens then save_notes s else ok (tt, s)

-- The function returns early where the first or the second file does not open.
unfoldable pub save_metadata : Exec NameServer Unit
unfolding save_users save_files save_notes_if_open
save_metadata s =
    if not s.disk.user_data_opens
    then ok (tt, s)
    else if not s.disk.file_metadata_opens
    then save_users s
    else (do save_users; save_files; save_notes_if_open) s
