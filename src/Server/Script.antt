-- ===== src/Server/Script.antt =====
-- src/name_server/CRWD.c: `handle_exec`. What `bash` makes of the content is the surroundings'.
use lang_os_distributed_file.Base.{
  ℕ, ◌-◌, ◌*◌, Option, none, some, ◌++◌, Text, Exec, pure, lift, lit, not, ◌>>=◌, if◌then◌else◌,
  length, take,
}
use lang_os_distributed_file.Server.{
  NameServer, World, Shell, no_temporary, no_pipe, no_fork, output, target_ss,
}
use lang_os_distributed_file.Server.Find.{with_file, check_permission}
use lang_os_distributed_file.Server.Exchange.{connect_and_send_to_ss}
use lang_os_distributed_file.Server.Meta.{read_command}
use lang_os_distributed_file.Server.Reply.{
  error_reply_in, quoted, err_file_not_found, err_permission_denied, err_server_misc,
  err_ss_unreachable, max_buffer_size,
}

-- The size of `response` and of `output_buffer`.
abbrev pub output_size : ℕ
output_size = max_buffer_size * 4

-- strncat(buf, s, size - strlen(buf) - 1)
unfoldable pub strncat : ℕ → Text → Text → Text
strncat size buf s = buf ++ take (size - length buf - 1) s

-- The read loop stops when the buffer is full; the marker takes what room is left.
unfoldable pub exec_output : Shell → Text
unfolding strncat
exec_output no_temporary =
    error_reply_in output_size err_server_misc (lit "NS failed to create temp file for execution.")
exec_output no_pipe = error_reply_in output_size err_server_misc (lit "NS failed to create pipe.")
exec_output no_fork = error_reply_in output_size err_server_misc (lit "NS failed to fork.")
exec_output (output text) = strncat output_size (take (output_size - 1) text) (lit "\n__END__\n")

unfoldable pub exec_result : World → Option Text → Text
unfolding exec_output
exec_result w none =
    error_reply_in output_size err_ss_unreachable (lit "NS failed to fetch file from SS.")
exec_result w (some content) = exec_output (w.shell content)

unfoldable pub read_denied : Text → Text
read_denied filename =
    error_reply_in output_size err_permission_denied
      (lit "Read permission denied for file " ++ (quoted filename ++ lit "."))

unfoldable pub exec_not_found : Text → Text
exec_not_found filename =
    error_reply_in output_size err_file_not_found
      (lit "File " ++ (quoted filename ++ lit " not found."))

unfoldable pub handle_exec : World → Text → Text → Exec NameServer Text
unfolding with_file exec_result
handle_exec w filename current_user = with_file filename (pure (exec_not_found filename)) λ p file.
    if not (check_permission file current_user b'R') then pure (read_denied filename) else (do
      ss ← target_ss file
      answer ← lift (connect_and_send_to_ss (w.peer ss (read_command filename)))
      pure (exec_result w answer))
