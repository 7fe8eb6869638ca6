-- ===== src/Server/Redirect.antt =====
-- src/name_server/CRWD.c: `handle_read`, `handle_write`, `handle_stream`.
pub mod Guard
use lang_os_distributed_file.Base.{
  ℕ, Bool, ◌++◌, Text, ℤ, Exec, Run, ok, fault, blocked, pure, lit, not, ◌>>=◌, if◌then◌else◌,
  snprintf, print_int,
}
use lang_os_distributed_file.Server.{NameServer, FileMetadata, StorageServer, target_ss}
use lang_os_distributed_file.Server.Find.{with_file, check_permission}
use lang_os_distributed_file.Server.Reply.{
  error_reply, reply, quoted, file_not_found, err_permission_denied, max_buffer_size,
}

-- "Permission denied for file '%s'."
unfoldable pub denied : Text → Text
denied filename =
    error_reply err_permission_denied
      (lit "Permission denied for file " ++ (quoted filename ++ lit "."))

unfoldable pub write_denied : Text → Text
write_denied filename =
    error_reply err_permission_denied
      (lit "Write permission denied for file " ++ (quoted filename ++ lit "."))

-- "%s;%s;%d;%s": the kind, the server's address and the file
unfoldable pub redirect : Text → StorageServer → Text → Text
redirect kind ss filename =
    kind ++ (lit ";" ++ (ss.ip_addr ++ (lit ";" ++ (print_int ss.port ++ (lit ";" ++ filename)))))

-- The server's address is read after the mutex is released, from a struct that never changes.
unfoldable pub redirect_to : Text → FileMetadata → Text → Exec NameServer Text
unfolding redirect
redirect_to kind file filename = do ss ← target_ss file; pure (reply (redirect kind ss filename))

unfoldable pub handle_read : Text → Text → Exec NameServer Text
unfolding with_file redirect_to
handle_read filename username = with_file filename (pure (file_not_found filename)) λ p file.
    if not (check_permission file username b'R')
    then pure (denied filename)
    else redirect_to (lit "REDIRECT_READ") file filename

unfoldable pub handle_write : Text → ℤ → Text → Exec NameServer Text
unfolding with_file redirect
handle_write filename sentence_num username =
    with_file filename (pure (file_not_found filename)) λ p file.
      if not (check_permission file username b'W') then pure (write_denied filename) else (do
        ss ← target_ss file
        pure (
            reply
              (redirect (lit "REDIRECT_WRITE") ss filename ++ (lit ";" ++ print_int sentence_num))))

unfoldable pub handle_stream : Text → Text → Exec NameServer Text
unfolding with_file redirect_to
handle_stream filename username = with_file filename (pure (file_not_found filename)) λ p file.
    if not (check_permission file username b'R')
    then pure (denied filename)
    else redirect_to (lit "REDIRECT_STREAM") file filename
