-- ===== src/Client/Reply.antt =====
-- src/client/user_client.c: `handle_ns_command` after `send`.
use lang_os_distributed_file.Base.{
  ℕ, ◌-◌, Option, none, some, Bool, [], ◌∷◌, ◌++◌, List, Text, ℤ, lit, Run, ok, fault, blocked,
  strtok, str_eq, starts_with, before, contains, atoi, length, take, leb, ◌==◌, ◌||◌, if◌then◌else◌,
}
use lang_os_distributed_file.Client.{max_response_len}

-- The room that is left for `recv`.
abbrev pub room : Text → ℕ
room buffer = max_response_len - length buffer - 1

-- The loop over `recv`: the reply once it holds the end marker, or nothing where the connection ends
-- or the buffer is full first. `closes` tells whether the server closes after its last portion.
unfoldable pub receive : Bool → List Text → Text → Run (Option Text)
receive closes [] buffer = if closes || room buffer == 0 then ok none else blocked
receive closes (chunk ∷ chunks) buffer =
    let buffer' = buffer ++ take (room buffer) chunk in
    let rest = receive closes chunks buffer' in
    if room buffer == 0 || length chunk == 0
    then ok none
    else if contains buffer' (lit "__END__\n")
    then ok (some buffer')
    else if leb (length chunk) (room buffer)
    then rest
    else ok none

-- What a reply makes the client do: mark the connection as dead, print a text, or talk to a Storage
-- Server.
pub data Reaction : Type 0 where
  lost : Reaction
  print : Text → Reaction
  ss_read ss_stream : Text → ℤ → Text → Reaction
  ss_write : Text → ℤ → Text → ℤ → Reaction
  nothing : Reaction

-- Case A.
unfoldable pub error_text : Option Text → Option Text → Option Text → Text
error_text type (some code) (some message) =
    lit "Error [" ++ (code ++ (lit "]: " ++ (message ++ lit "\n")))
error_text none _ _ = lit "(null)\n"
error_text (some type) _ _ = type ++ lit "\n"

unfoldable pub show_error : Text → Reaction
unfolding error_text
show_error reply =
    let (type, s) = strtok (lit ";") reply in
    let (code, s) = strtok (lit ";") s in
    let (message, s) = strtok (lit "\n") s in print (error_text type code message)

-- Case B, once the address and the name are there; `s` is `strtok`'s position behind them.
unfoldable pub redirect : Text → Text → Text → Text → Text → Reaction
redirect type ip port filename s =
    if str_eq type (lit "REDIRECT_READ")
    then ss_read ip (atoi port) filename
    else if str_eq type (lit "REDIRECT_WRITE")
    then elim (strtok (lit ";\n") s).0 [
      | none ↦ nothing
      | some n ↦ ss_write ip (atoi port) filename (atoi n)
    ]
    else if str_eq type (lit "REDIRECT_STREAM")
    then ss_stream ip (atoi port) filename
    else nothing

unfoldable pub redirect_if : Option Text → Option Text → Option Text → Option Text → Text → Reaction
unfolding redirect
redirect_if (some type) (some ip) (some port) (some filename) s = redirect type ip port filename s
redirect_if _ _ _ _ s = nothing

unfoldable pub follow_redirect : Text → Reaction
unfolding redirect_if
follow_redirect reply =
    let (type, s) = strtok (lit ";") reply in
    let (ip, s) = strtok (lit ";") s in
    let (port, s) = strtok (lit ";") s in
    let (filename, s) = strtok (lit ";\n") s in redirect_if type ip port filename s

-- A newline where the text ends without one.
unfoldable pub end_line : Text → Text
end_line [] = []
end_line (c ∷ []) = if c == 10 then c ∷ [] else c ∷ 10 ∷ []
end_line (c ∷ d ∷ s) = c ∷ end_line (d ∷ s)

-- The three cases, on the reply with its end marker cut off.
unfoldable pub react : Text → Reaction
unfolding show_error follow_redirect end_line
react reply =
    if starts_with reply (lit "ERROR")
    then show_error reply
    else if starts_with reply (lit "REDIRECT_")
    then follow_redirect reply
    else print (end_line reply)

abbrev pub cut_end : Text → Text
cut_end reply = elim (before (lit "__END__") reply) [ none ↦ reply | some body ↦ body ]

abbrev after_receive : Run (Option Text) → Run Reaction
after_receive (ok none) = ok lost
after_receive (ok (some reply)) = ok (react (cut_end reply))
after_receive (fault e) = fault e
after_receive blocked = blocked

-- From the first `recv` on.
unfoldable pub handle_ns_command : Bool → List Text → Run Reaction
unfolding receive
handle_ns_command closes chunks = after_receive (receive closes chunks [])
