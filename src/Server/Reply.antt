-- ===== src/Server/Reply.antt =====
-- The replies of the Name Server: src/error_codes.h and the `snprintf` calls of the handlers.
use lang_os_distributed_file.Base.{ℕ, pos, Text, lit, ◌++◌, print_int, snprintf}

abbrev pub err_permission_denied : ℕ
err_permission_denied = 403

abbrev pub err_file_not_found : ℕ
err_file_not_found = 404

abbrev pub err_file_exists : ℕ
err_file_exists = 409

abbrev pub err_no_ss_available : ℕ
err_no_ss_available = 503

abbrev pub err_ss_failure : ℕ
err_ss_failure = 504

abbrev pub err_invalid_input : ℕ
err_invalid_input = 106

abbrev pub err_server_misc : ℕ
err_server_misc = 107

abbrev pub err_ss_unreachable : ℕ
err_ss_unreachable = 108

abbrev pub err_user_not_found : ℕ
err_user_not_found = 105

abbrev pub max_buffer_size : ℕ
max_buffer_size = 1024

abbrev pub ss_response_len : ℕ
ss_response_len = 4096

-- "%s;%d;" with ERROR_PREFIX and the code
unfoldable pub error_head : ℕ → Text
error_head code = lit "ERROR;" ++ (print_int (pos code) ++ lit ";")

-- An error reply with its end marker, in a buffer of `size` bytes.
unfoldable pub error_reply_in : ℕ → ℕ → Text → Text
error_reply_in size code message = snprintf size (error_head code ++ (message ++ lit "\n__END__\n"))

-- And in a buffer of MAX_BUFFER_SIZE.
unfoldable pub error_reply : ℕ → Text → Text
error_reply code message =
    snprintf max_buffer_size (error_head code ++ (message ++ lit "\n__END__\n"))

-- Any other reply with its end marker.
unfoldable pub reply : Text → Text
reply message = snprintf max_buffer_size (message ++ lit "\n__END__\n")

-- '%s'
abbrev pub quoted : Text → Text
quoted s = lit "'" ++ (s ++ lit "'")

-- "File '%s' not found."
unfoldable pub file_not_found : Text → Text
file_not_found filename =
    error_reply err_file_not_found (lit "File " ++ (quoted filename ++ lit " not found."))

-- "File not found."
unfoldable pub no_such_file : Text
no_such_file = error_reply err_file_not_found (lit "File not found.")
