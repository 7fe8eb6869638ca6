-- ===== src/Server/Listing.antt =====
-- The listings: `handle_info` of src/name_server/CRWD.c, `handle_list_users` and `handle_view` of
-- src/name_server/name_server.c.
use lang_os_distributed_file.Base.{
  ℕ, ◌+◌, ◌-◌, ◌*◌, Option, none, some, Bool, true, false, List, [], ◌∷◌, ◌++◌, Text, pos, Exec,
  Run, ok, pure, lift, gets, lit, not, ◌>>=◌, ◌==◌, if◌then◌else◌, strcat, snprintf, snprintf_at,
  pad_right, print_int, and_then, length, ltb, contains, ◌&&◌,
}
use lang_os_distributed_file.Server.{
  NameServer, FileMetadata, AccessNode, StorageServer, User, World, load,
}
use lang_os_distributed_file.Server.Find.{with_file, check_permission}
use lang_os_distributed_file.Server.Reply.{
  error_head, quoted, err_permission_denied, err_file_not_found, max_buffer_size,
}
use lang_os_distributed_file.Server.Script.{strncat}

abbrev pub info_size : ℕ
info_size = max_buffer_size * 2

-- An error of `handle_info`: the marker is appended by `strcat`.
unfoldable pub info_error : ℕ → Text → Run Text
info_error code message =
    strcat info_size (snprintf info_size (error_head code ++ (message ++ lit "\n")))
      (lit "__END__\n")

-- The loop over the access list: ", %s (%c)" while there is room.
unfoldable pub info_access : List AccessNode → Text × ℕ → Run (Text × ℕ)
unfolding snprintf_at
info_access [] out = ok out
info_access (node ∷ nodes) out =
    if ltb out.1 (info_size - 100)
    then and_then
        (snprintf_at info_size out
          (lit ", " ++ (node.username ++ (lit " (" ++ (node.permission ∷ lit ")")))))
        (info_access nodes)
    else info_access nodes out

-- The calls of `snprintf` for the file's details.
unfoldable pub info_details : World → FileMetadata → Text
info_details w file =
    lit "File: "
    ++ (file.filename
        ++ (lit "\nOwner: "
            ++ (file.owner
                ++ (lit "\nLast Modified: "
                    ++ (w.format_time file.last_access
                        ++ (lit "\nWord Count: "
                            ++ (print_int (pos file.word_count)
                                ++ (lit "\nChar Count: "
                                    ++ (print_int (pos file.char_count)
                                        ++ (lit "\nAccess: "
                                            ++ (file.owner ++ lit " (RW)")))))))))))

unfoldable pub info_text : World → FileMetadata → Run Text
unfolding info_access info_details snprintf_at
info_text w file = and_then (snprintf_at info_size ([], 0) (info_details w file)) λ out.
    and_then (info_access file.access_list out) λ out.
      and_then (snprintf_at info_size out (lit "\n"))
        λ out. ok (strncat info_size out.0 (lit "__END__\n"))

unfoldable pub handle_info : World → Text → Text → Exec NameServer Text
unfolding with_file info_text info_error
handle_info w filename username =
    with_file filename
      (lift (info_error err_file_not_found (lit "File " ++ (quoted filename ++ lit " not found."))))
      λ p file.
        if not (check_permission file username b'R')
        then lift (
            info_error err_permission_denied
              (lit "Permission denied for file " ++ (quoted filename ++ lit ".")))
        else lift (info_text w file)

-- The three calls of `strcat` for each user.
unfoldable pub user_list_lines : List User → Text → Run Text
user_list_lines [] response = ok response
user_list_lines (user ∷ users) response =
    and_then (strcat info_size response (lit "-> " ++ (user.username ++ lit "\n")))
      (user_list_lines users)

unfoldable pub handle_list_users : Exec NameServer Text
unfolding user_list_lines
handle_list_users s =
    lift
      (and_then (user_list_lines s.user_list (lit "Registered Users:\n-----------------\n"))
        λ response. strcat info_size response (lit "__END__\n"))
      s

abbrev pub view_size : ℕ
view_size = max_buffer_size * 4

-- char loc[40]
unfoldable pub location : Option StorageServer → Text
location none = lit "N/A"
location (some ss) = snprintf 40 (ss.ip_addr ++ (lit ":" ++ print_int ss.port))

-- "| %-20s | %-12s | %-17s |\n"
unfoldable pub view_row : Text → Text → Text → Text
view_row a b c =
    lit "| "
    ++ (pad_right 20 a
        ++ (lit " | " ++ (pad_right 12 b ++ (lit " | " ++ (pad_right 17 c ++ lit " |\n")))))

-- char line[256]
unfoldable pub view_line : Bool → FileMetadata → Text
unfolding view_row location
view_line show_details file = snprintf 256 (
    if show_details
    then view_row file.filename file.owner (location file.ss)
    else file.filename ++ lit "\n")

-- "Prevent buffer overflow"
unfoldable pub add_line : Text → Text → Text
add_line response line =
    if ltb (length response + length line) (view_size - 100) then response ++ line else response

-- The loop over the file list, with the response and `file_count`.
unfoldable pub view_loop : Bool → Bool → Text → List ℕ → Text → ℕ → Exec NameServer (Text × ℕ)
unfolding load view_line add_line
view_loop details all username [] response count = pure (response, count)
view_loop details all username (p ∷ ps) response count = do
  file ← load p
  let shown =
      view_loop details all username ps (add_line response (view_line details file)) (count + 1)
  let skipped = view_loop details all username ps response count
  if not all && not (check_permission file username b'R') then skipped else shown

-- flags && strstr(flags, letter)
unfoldable pub has_flag : Option Text → Text → Bool
has_flag none letter = false
has_flag (some flags) letter = contains flags letter

unfoldable pub view_header : Bool → Text
unfolding view_row
view_header false = []
view_header true =
    view_row (lit "Filename") (lit "Owner") (lit "Location (SS)")
    ++ lit "---------------------------------------------------------\n"

unfoldable pub view_footer : Bool → ℕ → Text
view_footer show_all count =
    if count == 0
    then (if show_all
        then lit "No files found in the system.\n"
        else lit "No files accessible to you.\n")
    else []

unfoldable pub handle_view : Option Text → Text → Exec NameServer Text
unfolding view_loop has_flag view_header view_footer
handle_view flags username = do
  let details = has_flag flags (lit "l")
  let all = has_flag flags (lit "a")
  files ← gets (λ s. s.file_list)
  (response, count) ← view_loop details all username files (view_header details) 0
  response ← lift (strcat view_size response (view_footer all count))
  lift (strcat view_size response (lit "__END__\n"))
