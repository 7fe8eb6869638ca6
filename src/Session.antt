-- ===== src/Session.antt =====
-- src/name_server/name_server.c: `handle_connection`. A request is what one `recv` returns. The
-- chain of `strcmp` tests is split in two: the request is parsed, and then executed.
pub mod Keeps
pub mod Reach
mod Witnesses
use lang_os_distributed_file.Base.{
  take, ◌-◌, Option, none, some, Text, [], ℤ, Exec, pure, lift, lit, ◌>>=◌, ◌>>◌, if◌then◌else◌,
  str_eq, strcpy, strncpy, strtok, atoi,
}
use lang_os_distributed_file.Server.{NameServer, World}
use lang_os_distributed_file.Server.Reply.{max_buffer_size}
use lang_os_distributed_file.Server.Access.{handle_add_access, handle_rem_access}
use lang_os_distributed_file.Server.Folder.{handle_create_folder, handle_view_folder}
use lang_os_distributed_file.Server.Create.{handle_create}
use lang_os_distributed_file.Server.Redirect.{handle_read, handle_write, handle_stream}
use lang_os_distributed_file.Server.Delete.{handle_delete}
use lang_os_distributed_file.Server.Version.{
  handle_undo, handle_checkpoint, handle_revert, handle_view_checkpoint,
}
use lang_os_distributed_file.Server.Meta.{handle_update_meta}
use lang_os_distributed_file.Server.Script.{handle_exec}
use lang_os_distributed_file.Server.Requests.{
  handle_req_access, handle_view_reqs, handle_approve_req, handle_reject_req,
}
use lang_os_distributed_file.Server.Annotate.{handle_annotate, handle_show_annotation}
use lang_os_distributed_file.Server.Listing.{handle_info, handle_list_users, handle_view}
use lang_os_distributed_file.Server.Register.{register_user, register_storage_server}

-- `incomplete` is a known command without its arguments: nothing is done and nothing is sent.
pub data Command : Type 0 where
  list_users unknown incomplete : Command
  view : Option Text → Command
  info create read delete stream undo update_meta exec : Text → Command
  create_folder view_folder request_access view_requests show_annotation : Text → Command
  write : Text → ℤ → Command
  rem_access checkpoint revert view_checkpoint approve reject annotate : Text → Text → Command
  add_access : Text → Text → Text → Command

abbrev pub delimiters : Text
delimiters = lit ";\n"

-- The next token, at `strtok`'s position, and what is done with it and the position behind it.
unfoldable pub with_token : Text → Text → (Text → Text → Command) → Command
with_token ds s k =
    let (token, rest) = strtok ds s in elim token [ none ↦ incomplete | some t ↦ k t rest ]

unfoldable pub one : Text → (Text → Command) → Command
unfolding with_token
one s k = with_token delimiters s λ a rest. k a

unfoldable pub two : Text → (Text → Text → Command) → Command
unfolding with_token
two s k = with_token delimiters s λ a rest. with_token delimiters rest λ b rest. k a b

unfoldable pub three : Text → (Text → Text → Text → Command) → Command
unfolding with_token
three s k =
    with_token delimiters s
      λ a rest. with_token delimiters rest λ b rest. with_token delimiters rest λ c rest. k a b c

-- The note of ANNOTATE is the rest of the line.
unfoldable pub parse_annotate : Text → Command
unfolding with_token
parse_annotate s =
    with_token delimiters s
      λ fname rest. with_token (lit "\n") rest λ note rest. annotate fname note

-- The chain of tests, on the command's name and `strtok`'s position behind it. The names of some
-- commands are copied into buffers of 100, 50 and 2 bytes.
unfoldable pub parse_args : Text → Text → Command
unfolding one two three parse_annotate
parse_args command s =
    if str_eq command (lit "LIST_USERS")
    then list_users
    else if str_eq command (lit "VIEW")
    then view (strtok delimiters s).0
    else if str_eq command (lit "INFO")
    then one s info
    else if str_eq command (lit "ADDACCESS")
    then (three s λ f u p. add_access (strncpy 99 f) (strncpy 49 u) (strncpy 1 p))
    else if str_eq command (lit "REMACCESS")
    then two s rem_access
    else if str_eq command (lit "CREATE")
    then (one s λ f. create (strncpy 99 f))
    else if str_eq command (lit "READ")
    then (one s λ f. read (strncpy 99 f))
    else if str_eq command (lit "WRITE")
    then (two s λ f n. write (strncpy 99 f) (atoi n))
    else if str_eq command (lit "DELETE")
    then one s delete
    else if str_eq command (lit "STREAM")
    then one s stream
    else if str_eq command (lit "UNDO")
    then one s undo
    else if str_eq command (lit "UPDATE_META")
    then one s update_meta
    else if str_eq command (lit "EXEC")
    then one s exec
    else if str_eq command (lit "CREATEFOLDER")
    then one s create_folder
    else if str_eq command (lit "VIEWFOLDER")
    then one s view_folder
    else if str_eq command (lit "CHECKPOINT")
    then two s checkpoint
    else if str_eq command (lit "REVERT")
    then two s revert
    else if str_eq command (lit "VIEWCHECKPOINT")
    then two s view_checkpoint
    else if str_eq command (lit "REQUESTACCESS")
    then one s request_access
    else if str_eq command (lit "VIEWREQUESTS")
    then one s view_requests
    else if str_eq command (lit "APPROVE")
    then two s approve
    else if str_eq command (lit "REJECT")
    then two s reject
    else if str_eq command (lit "ANNOTATE")
    then parse_annotate s
    else if str_eq command (lit "SHOW_ANNOTATION")
    then one s show_annotation
    else unknown

-- recv(sock, buffer, MAX_BUFFER_SIZE - 1, 0), of the bytes that have arrived
abbrev pub received : Text → Text
received arrived = take (max_buffer_size - 1) arrived

-- strtok(buffer, ";\n"); nothing where the request has no token.
unfoldable pub parse_command : Text → Option Command
unfolding parse_args
parse_command arrived =
    let (command, s) = strtok delimiters (received arrived) in
    elim command [ none ↦ none | some name ↦ some (parse_args name s) ]

unfoldable pub execute : World → Text → Command → Exec NameServer Text
execute w user list_users = handle_list_users
execute w user unknown = pure (lit "ERROR: Unknown command.\n__END__\n")
execute w user incomplete = pure []
execute w user (view flags) = handle_view flags user
execute w user (info f) = handle_info w f user
execute w user (create f) = handle_create w f user
execute w user (read f) = handle_read f user
execute w user (delete f) = handle_delete w f user
execute w user (stream f) = handle_stream f user
execute w user (undo f) = handle_undo w f user
execute w user (update_meta f) = handle_update_meta w f
execute w user (exec f) = handle_exec w f user
execute w user (create_folder f) = handle_create_folder w f user
execute w user (view_folder f) = handle_view_folder f
execute w user (request_access f) = handle_req_access w f user
execute w user (view_requests f) = handle_view_reqs f user
execute w user (show_annotation f) = handle_show_annotation f
execute w user (write f n) = handle_write f n user
execute w user (rem_access f u) = handle_rem_access f u user
execute w user (checkpoint f tag) = handle_checkpoint w f tag user
execute w user (revert f tag) = handle_revert w f tag user
execute w user (view_checkpoint f tag) = handle_view_checkpoint w f tag user
execute w user (approve f u) = handle_approve_req f u user
execute w user (reject f u) = handle_reject_req f u user
execute w user (annotate f note) = handle_annotate f note user
execute w user (add_access f u p) = handle_add_access w f u p user

-- One round of the command loop: what is sent to the client.
unfoldable pub serve : World → Text → Text → Exec NameServer Text
unfolding parse_command execute
serve w user arrived = elim (parse_command arrived) [ none ↦ pure [] | some c ↦ execute w user c ]

-- How the first message of a connection ends: closed, or a session for a user.
pub data Session : Type 0 where
  closed : Session
  session : Text → Session

unfoldable pub register_client : Text → Option Text → Exec NameServer (Session × Text)
unfolding register_user
register_client client_ip none = pure (session (lit "anonymous"), lit "ACK_CLIENT_REG\n__END__\n")
register_client client_ip (some username) = do
  register_user username client_ip
  user ← lift (strcpy 50 username)
  pure (session user, lit "ACK_CLIENT_REG\n__END__\n")

abbrev pub or_empty : Option Text → Text
or_empty none = []
or_empty (some s) = s

-- The file list is the rest of the line.
unfoldable pub register_ss : World → Text → Exec NameServer (Session × Text)
unfolding register_storage_server
register_ss w s =
    let (ip, s) = strtok delimiters s in
    let (port, s) = strtok delimiters s in
    let (files, s) = strtok (lit "\n") s in
    let ack : Session × Text = (closed, lit "ACK_SS_REG\n__END__\n") in
    elim ip [
      | none ↦ pure ack
      | some ip ↦ elim port [
        | none ↦ pure ack
        | some port ↦ (do register_storage_server w ip (atoi port) (or_empty files); pure ack)
      ]
    ]

-- The first message.
unfoldable pub open_session : World → Text → Text → Exec NameServer (Session × Text)
unfolding register_client register_ss
open_session w client_ip arrived =
    let (command, s) = strtok delimiters (received arrived) in
    elim command [
      | none ↦ pure (closed, [])
      | some name ↦
          if str_eq name (lit "REGISTER_CLIENT")
          then register_client client_ip (strtok delimiters s).0
          else if str_eq name (lit "REGISTER_SS")
          then register_ss w s
          else pure (closed, [])
    ]
