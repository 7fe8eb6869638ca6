-- ===== src/Server/Version.antt =====
-- src/name_server/CRWD.c: `handle_undo`, `handle_checkpoint`, `handle_revert`,
-- `handle_view_checkpoint`.
use lang_os_distributed_file.Base.{
  Option, none, some, ◌++◌, Text, Exec, pure, lift, lit, not, ◌>>=◌, if◌then◌else◌, snprintf,
  contains, take,
}
use lang_os_distributed_file.Server.{NameServer, FileMetadata, World, target_ss}
use lang_os_distributed_file.Server.Find.{with_file, check_permission}
use lang_os_distributed_file.Server.Exchange.{connect_and_send_to_ss}
use lang_os_distributed_file.Server.Reply.{
  error_head, error_reply, reply, quoted, file_not_found, no_such_file, err_permission_denied,
  err_ss_failure, err_ss_unreachable, max_buffer_size,
}

-- Send a command to the file's Storage Server.
unfoldable pub ask_ss : World → FileMetadata → Text → Exec NameServer (Option Text)
ask_ss w file command = do
  ss ← target_ss file
  lift (connect_and_send_to_ss (w.peer ss (snprintf max_buffer_size command)))

unfoldable pub undo_denied : Text → Text
undo_denied filename =
    error_reply err_permission_denied
      (lit "Write permission required to undo " ++ (quoted filename ++ lit "."))

unfoldable pub undo_result : Text → Option Text → Text
undo_result filename none =
    error_reply err_ss_unreachable (lit "Name Server could not contact Storage Server for undo.")
undo_result filename (some response) =
    if contains response (lit "ACK_UNDO")
    then reply (lit "Undo successful for " ++ (quoted filename ++ lit "."))
    else error_reply err_ss_failure (lit "Undo failed on Storage Server: " ++ take 500 response)

unfoldable pub handle_undo : World → Text → Text → Exec NameServer Text
unfolding with_file ask_ss undo_result
handle_undo w filename current_user = with_file filename (pure (file_not_found filename)) λ p file.
    if not (check_permission file current_user b'W') then pure (undo_denied filename) else (do
      answer ← ask_ss w file (lit "SS_UNDO;" ++ (filename ++ lit "\n"))
      pure (undo_result filename answer))

unfoldable pub permission_denied : Text
permission_denied = error_reply err_permission_denied (lit "Permission denied.")

unfoldable pub unreachable : Text
unreachable = error_reply err_ss_unreachable (lit "SS Unreachable.")

-- "%s;%s;%s\n"
unfoldable pub tagged_command : Text → Text → Text → Text
tagged_command name filename tag = name ++ (lit ";" ++ (filename ++ (lit ";" ++ (tag ++ lit "\n"))))

-- The reply to a failed checkpoint has no end marker of its own.
unfoldable pub checkpoint_result : Text → Text → Option Text → Text
checkpoint_result filename tag none = unreachable
checkpoint_result filename tag (some response) =
    if contains response (lit "ACK_CHECKPOINT")
    then reply
        (lit "Checkpoint " ++ (quoted tag ++ (lit " created for " ++ (quoted filename ++ lit "."))))
    else snprintf max_buffer_size
        (error_head err_ss_failure ++ (lit "SS Error: " ++ take 500 response))

unfoldable pub handle_checkpoint : World → Text → Text → Text → Exec NameServer Text
unfolding with_file ask_ss checkpoint_result
handle_checkpoint w filename tag username = with_file filename (pure no_such_file) λ p file.
    if not (check_permission file username b'R') then pure permission_denied else (do
      answer ← ask_ss w file (tagged_command (lit "SS_CHECKPOINT") filename tag)
      pure (checkpoint_result filename tag answer))

unfoldable pub revert_result : Text → Text → Option Text → Text
revert_result filename tag none = unreachable
revert_result filename tag (some response) =
    if contains response (lit "ACK_REVERT")
    then reply (
        lit "File "
        ++ (quoted filename ++ (lit " reverted to checkpoint " ++ (quoted tag ++ lit "."))))
    else error_reply err_ss_failure (lit "SS Error: " ++ take 500 response)

unfoldable pub handle_revert : World → Text → Text → Text → Exec NameServer Text
unfolding with_file ask_ss revert_result
handle_revert w filename tag username = with_file filename (pure no_such_file) λ p file.
    if not (check_permission file username b'W') then pure permission_denied else (do
      answer ← ask_ss w file (tagged_command (lit "SS_REVERT") filename tag)
      pure (revert_result filename tag answer))

-- The name server passes the content on, and ends it itself.
unfoldable pub view_checkpoint_result : Option Text → Text
view_checkpoint_result none = error_reply err_ss_failure (lit "Failed to retrieve checkpoint.")
view_checkpoint_result (some content) = content ++ lit "\n__END__\n"

unfoldable pub handle_view_checkpoint : World → Text → Text → Text → Exec NameServer Text
unfolding with_file ask_ss view_checkpoint_result
handle_view_checkpoint w filename tag username = with_file filename (pure no_such_file) λ p file.
    if not (check_permission file username b'R') then pure permission_denied else (do
      answer ← ask_ss w file (tagged_command (lit "SS_READ_CHECKPOINT") filename tag)
      pure (view_checkpoint_result answer))
