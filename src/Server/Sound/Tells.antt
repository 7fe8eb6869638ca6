-- ===== src/Server/Sound/Tells.antt =====
-- The handlers of src/name_server/CRWD.c and name_server.c that list users, files, requests and the
-- details of a file, in a sound state.
use lang_os_distributed_file.Base.{
  ℕ, Option, List, [], ◌∷◌, ◌++◌, Text, arith, lit, Bool, true, false, if◌then◌else◌, pure, lift,
  not, ◌==◌, str_eq, snprintf_at, raise, wild_pointer, ◌-◌, ◌+◌, ◌&&◌, strcat, ltb, Bool-cases, inl,
  inr,
}
use lang_os_distributed_file.Server.{NameServer, FileMetadata, World, User, RequestNode, AccessNode}
use lang_os_distributed_file.Server.Find.{check_permission}
use lang_os_distributed_file.Server.Reply.{
  no_such_file, quoted, err_file_not_found, err_permission_denied,
}
use lang_os_distributed_file.Server.Script.{strncat}
use lang_os_distributed_file.Server.Requests.{
  pending, request_lines, request_list, requests_size, none_line, owner_views_only,
  handle_view_reqs,
}
use lang_os_distributed_file.Server.Listing.{
  info_error, info_access, info_text, info_size, handle_info, info_details, user_list_lines,
  handle_list_users, view_loop, view_line, add_line, view_footer, view_header, has_flag, view_size,
  handle_view,
}
use lang_os_distributed_file.Server.Folder.{
  entry_line, folder_loop, is_inside, no_folder, handle_view_folder, view_size as folder_size,
}
use lang_os_distributed_file.Server.Sound.{
  IsSound, AreLive, Extends-refl, Upholds, Keeps, Upholds-bind, Keeps-bind, Keeps-pure,
  Upholds-test, Upholds-case,
}
use lang_os_distributed_file.Server.Sound.Rules.{
  Keeps-with_file, AreLive-ext, Upholds-load, Keeps-lift, Clean, Clean-ok, Clean-and_then,
  Clean-strcat,
}
use lang_os_distributed_file.Server.Sound.Asks.{Keeps-guarded}

-- The texts that are told.
Clean-at : (size : ℕ) (out : Text × ℕ) (text : Text) → Clean (snprintf_at size out text)
unfolding snprintf_at
Clean-at size (buf, len) text = ground arith

Clean-request_lines : (nodes : List RequestNode) (out : Text × ℕ) → Clean (request_lines nodes out)
unfolding request_lines
Clean-request_lines [] out = Clean-ok out
Clean-request_lines (node ∷ nodes) out =
    Clean-and_then _ (request_lines nodes) (Clean-at requests_size out _)
      (Clean-request_lines nodes)

Clean-request_list : (name : Text) (nodes : List RequestNode) → Clean (request_list name nodes)
unfolding request_list
Clean-request_list name nodes =
    Clean-and_then _ _
      (Clean-at requests_size ([], 0) (lit "Pending requests for " ++ (quoted name ++ lit ":\n")))
      λ out. Clean-and_then _ _ (Clean-request_lines nodes out) λ out.
        Clean-and_then _ _ (none_lem nodes out) λ out.
          Clean-and_then _ _ (Clean-at requests_size out (lit "__END__\n")) λ out. Clean-ok out.0
  where
    none_lem : (nodes : List RequestNode) (out : Text × ℕ) → Clean (none_line nodes out)
    none_lem [] out = Clean-at requests_size out _
    none_lem (node ∷ nodes) out = Clean-ok out

pub Keeps-pending : (file : FileMetadata) → Keeps (pending file)
Keeps-pending file s sound =
    Upholds-case s file.pending_requests (raise wild_pointer) pure (λ bad. cc)
      (λ nodes. (sound, Extends-refl s))

pub Keeps-view_reqs : (name user : Text) → Keeps (handle_view_reqs name user)
unfolding handle_view_reqs
Keeps-view_reqs name user =
    Keeps-guarded name (pure no_such_file) (λ file. not (str_eq file.owner user))
      (λ file. owner_views_only) _ (Keeps-pure no_such_file)
      (λ file.
        Keeps-bind (pending file) _ (Keeps-pending file)
          λ nodes. Keeps-lift (request_list name nodes) (Clean-request_list name nodes))

Clean-info_error : (code : ℕ) (message : Text) → Clean (info_error code message)
unfolding info_error
Clean-info_error code message = Clean-strcat info_size _ _

Clean-info_access : (nodes : List AccessNode) (out : Text × ℕ) → Clean (info_access nodes out)
unfolding info_access
Clean-info_access [] out = Clean-ok out
Clean-info_access (node ∷ nodes) out = elim (Bool-cases (ltb out.1 (info_size - 100))) [
  | inl fits ↦
      rw fits
        (Clean-and_then _ (info_access nodes) (Clean-at info_size out _) (Clean-info_access nodes))
  | inr full ↦ rw full (Clean-info_access nodes out)
]

Clean-info_text : (w : World) (file : FileMetadata) → Clean (info_text w file)
unfolding info_text
Clean-info_text w file =
    Clean-and_then _ _ (Clean-at info_size ([], 0) (info_details w file)) λ out.
      Clean-and_then _ _ (Clean-info_access file.access_list out) λ out.
        Clean-and_then _ _ (Clean-at info_size out (lit "\n"))
          λ out. Clean-ok (strncat info_size out.0 (lit "__END__\n"))

pub Keeps-info : (w : World) (name user : Text) → Keeps (handle_info w name user)
unfolding handle_info
Keeps-info w name user =
    let absent : Text = lit "File " ++ (quoted name ++ lit " not found.") in
    let denied : Text = lit "Permission denied for file " ++ (quoted name ++ lit ".") in
    let not_there = info_error err_file_not_found absent in
    let refused = info_error err_permission_denied denied in
    Keeps-with_file name (lift not_there) _
      (Keeps-lift not_there (Clean-info_error err_file_not_found absent))
      λ p file s sound at_p.
        Upholds-test s (not (check_permission file user b'R')) (lift refused)
          (lift (info_text w file))
          (Keeps-lift refused (Clean-info_error err_permission_denied denied) s sound)
          (Keeps-lift (info_text w file) (Clean-info_text w file) s sound)

Clean-user_lines : (users : List User) (response : Text) → Clean (user_list_lines users response)
unfolding user_list_lines
Clean-user_lines [] response = Clean-ok response
Clean-user_lines (user ∷ users) response =
    Clean-and_then _ (user_list_lines users)
      (Clean-strcat info_size response (lit "-> " ++ (user.username ++ lit "\n")))
      (Clean-user_lines users)

pub Keeps-list_users : Keeps handle_list_users
unfolding handle_list_users
Keeps-list_users s sound =
    Keeps-lift _
      (Clean-and_then _ (λ response. strcat info_size response (lit "__END__\n"))
        (Clean-user_lines s.user_list (lit "Registered Users:\n-----------------\n"))
        λ response. Clean-strcat info_size response (lit "__END__\n"))
      s sound

-- The loop of `handle_view` over files that exist.
view_loop_lem :
    (details all : Bool) (user : Text) (ps : List ℕ) (response : Text) (count : ℕ) (s : NameServer)
    → IsSound s
    → AreLive s.files ps
    → Upholds s (view_loop details all user ps response count s)
unfolding view_loop
view_loop_lem details all user [] response count s sound live = (sound, Extends-refl s)
view_loop_lem details all user (p ∷ ps) response count s sound ((f, at_p), live) =
    Upholds-load s p f _ at_p (
      Upholds-test s (not all && not (check_permission f user b'R')) _ _
        (view_loop_lem details all user ps response count s sound live)
        (view_loop_lem details all user ps (add_line response (view_line details f)) (count + 1) s
          sound live))

pub Keeps-view : (flags : Option Text) (user : Text) → Keeps (handle_view flags user)
unfolding handle_view
Keeps-view flags user s sound =
    let details = has_flag flags (lit "l") in
    let all = has_flag flags (lit "a") in
    Upholds-bind s (view_loop details all user s.file_list (view_header details) 0) _
      (view_loop_lem details all user s.file_list (view_header details) 0 s sound sound.live)
      λ out t _ sound' _.
        Keeps-bind (lift (strcat view_size out.0 (view_footer all out.1))) _
          (Keeps-lift _ (Clean-strcat view_size out.0 (view_footer all out.1)))
          (λ response. Keeps-lift _ (Clean-strcat view_size response (lit "__END__\n"))) t sound'

Clean-entry_line : (file : FileMetadata) (response : Text) → Clean (entry_line file response)
unfolding entry_line
Clean-entry_line file response = Clean-strcat _ _ _

-- The loop of `handle_view_folder` over files that exist.
folder_loop_lem :
    (folder : Text) (ps : List ℕ) (response : Text) (found : Bool) (s : NameServer)
    → IsSound s
    → AreLive s.files ps
    → Upholds s (folder_loop folder ps response found s)
unfolding folder_loop
folder_loop_lem folder [] response found s sound live = (sound, Extends-refl s)
folder_loop_lem folder (p ∷ ps) response found s sound ((f, at_p), live) =
    Upholds-load s p f _ at_p (
      Upholds-test s (is_inside folder f.filename) _ _
        (Upholds-bind s (lift (entry_line f response)) _
          (Keeps-lift _ (Clean-entry_line f response) s sound)
          λ longer t _ sound' ext.
            folder_loop_lem folder ps longer true t sound' (AreLive-ext s t ps ext live))
        (folder_loop_lem folder ps response found s sound live))

pub Keeps-view_folder : (folder : Text) → Keeps (handle_view_folder folder)
unfolding handle_view_folder
Keeps-view_folder folder =
    Keeps-with_file folder (pure (no_folder folder)) _ (Keeps-pure (no_folder folder))
      λ p file s sound at_p.
        Upholds-test s (file.is_directory == 0) _ _ (sound, Extends-refl s)
          (Upholds-bind s (folder_loop folder s.file_list _ false) _
            (folder_loop_lem folder s.file_list _ false s sound sound.live)
            λ out t _ sound' _.
              Keeps-bind
                (lift (strcat folder_size out.0 (if out.1 then [] else lit "(Empty Folder)\n"))) _
                (Keeps-lift _ (Clean-strcat folder_size out.0 _))
                (λ response. Keeps-lift _ (Clean-strcat folder_size response (lit "__END__\n"))) t
                sound')
