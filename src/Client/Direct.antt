-- ===== src/Client/Direct.antt =====
-- src/client/client_SS_helper_functions.c: the client at a Storage Server. The portions are what the
-- calls of `recv` return, each of `MAX_RESPONSE_LEN - 1` bytes at most.
use lang_os_distributed_file.Base.{
  ℕ, zero, suc, ◌-◌, ◌*◌, Option, none, some, not, Bool, [], ◌∷◌, ◌++◌, List, Text, ℤ, lit, Run, ok,
  blocked, and_then, strtok, starts_with, before, snprintf, atoi, print_int, length, take, ◌==◌,
  if◌then◌else◌,
}
use lang_os_distributed_file.Client.{max_response_len, strcasecmp}

abbrev pub ss_end : Text
ss_end = lit "__SS_END__"

-- read_from_ss: what is printed. The marker is looked for in each portion alone.
unfoldable pub read_from_ss : Bool → List Text → Run Text
read_from_ss closes [] = if closes then ok [] else blocked
read_from_ss closes (chunk ∷ chunks) =
    let rest = read_from_ss closes chunks in
    if length chunk == 0 then ok [] else elim (before ss_end chunk) [
      | some body ↦ ok body
      | none ↦ and_then rest λ text. ok (chunk ++ text)
    ]

unfoldable pub ss_read_command : Text → Text
ss_read_command filename = snprintf 1024 (lit "SS_READ;" ++ (filename ++ lit "\n"))

unfoldable pub ss_stream_command : Text → Text
ss_stream_command filename = snprintf 1024 (lit "SS_STREAM;" ++ (filename ++ lit "\n"))

unfoldable pub ss_lock_command : Text → ℤ → Text
ss_lock_command filename n =
    snprintf 1024 (lit "SS_LOCK_SENTENCE;" ++ (filename ++ (lit ";" ++ (print_int n ++ lit "\n"))))

unfoldable pub write_data_command : Text → Text → Text
write_data_command index content =
    snprintf 1024
      (lit "WRITE_DATA;" ++ (print_int (atoi index) ++ (lit ";" ++ (content ++ lit "\n"))))

unfoldable pub update_meta_command : Text → Text
update_meta_command filename = snprintf 1024 (lit "UPDATE_META;" ++ (filename ++ lit "\n"))

-- The loop of `stream_from_ss` with what it has collected, in a buffer of ten times the size.
unfoldable pub collect : Bool → List Text → Text → Run Text
collect closes [] total = if closes then ok total else blocked
collect closes (chunk ∷ chunks) total =
    let room = max_response_len * 10 - length total - 1 in
    let rest = collect closes chunks (total ++ take room chunk) in
    if length chunk == 0
    then ok total
    else elim (before ss_end chunk) [ some body ↦ ok (total ++ take room body) | none ↦ rest ]

-- The words, each followed by a space; each word takes a byte at least.
unfoldable pub stream_words : ℕ → Text → Text
stream_words zero s = []
stream_words (suc fuel) s =
    let (word, rest) = strtok (lit " \t\n\r") s in
    elim word [ none ↦ [] | some w ↦ w ++ (lit " " ++ stream_words fuel rest) ]

-- What is printed between the two lines around the stream.
unfoldable pub stream_from_ss : Bool → List Text → Run Text
unfolding collect stream_words
stream_from_ss closes chunks =
    and_then (collect closes chunks []) λ total. ok (stream_words (length total) total)

-- How a write session ends: no lock, a line that is not acknowledged, a reply that never comes, the
-- end of the input, or a commit.
pub data Ending : Type 0 where
  refused unacknowledged waiting out_of_input committed : Ending

-- A line of the session: index and content, or nothing where one is missing.
abbrev pub word_line : Text → Option (Text × Text)
word_line input =
    let (index, s) = strtok (lit " ") input in
    let (content, s) = strtok [] s in
    elim index [ none ↦ none | some i ↦ elim content [ none ↦ none | some c ↦ some (i, c) ] ]

abbrev pub sent_first : Text → List Text × Ending → List Text × Ending
sent_first command (commands, ending) = (command ∷ commands, ending)

-- The interactive loop, on the lines that the user types and on what the calls of `recv` return: the
-- commands that go to the Storage Server, and the end. COMMIT_WRITE goes out with its NUL.
unfoldable pub write_loop : List Text → List Text → List Text × Ending
unfolding strcasecmp write_data_command
write_loop [] acks = ([], out_of_input)
write_loop (input ∷ inputs) acks =
    if strcasecmp input (lit "ETIRW")
    then (lit "COMMIT_WRITE;\n" ∷ [], committed)
    else elim (word_line input) [
      | none ↦ write_loop inputs acks
      | some (index, content) ↦ elim acks [
        | [] ↦ (write_data_command index content ∷ [], waiting)
        | ack ∷ acks ↦
            if starts_with ack (lit "ACK_DATA")
            then sent_first (write_data_command index content) (write_loop inputs acks)
            else (write_data_command index content ∷ [], unacknowledged)
      ]
    ]

-- From the connection on. After a commit, the Name Server is told by `update_meta_command`.
unfoldable pub handle_ss_write_session : Text → ℤ → List Text → List Text → List Text × Ending
unfolding write_loop ss_lock_command
handle_ss_write_session filename n inputs [] = (ss_lock_command filename n ∷ [], waiting)
handle_ss_write_session filename n inputs (ack ∷ acks) =
    if starts_with ack (lit "ACK_LOCK")
    then sent_first (ss_lock_command filename n) (write_loop inputs acks)
    else (ss_lock_command filename n ∷ [], refused)

-- The Storage Server as connect_to_ss finds it, and the portions that arrive from it.
pub record SsConnection : Type 0 where
  pub made : Bool
  pub connected : Bool
  pub closes : Bool
  pub arriving : List Text

-- What is given to `perror`, or nothing where the connection stands.
unfoldable pub connect_to_ss : SsConnection → Option Text
connect_to_ss ss =
    if not ss.made
    then some (lit "Could not create SS socket")
    else if not ss.connected
    then some (lit "SS Connect failed")
    else none

-- The command that is sent, and what is printed; without a connection, neither.
unfoldable pub handle_ss_read : SsConnection → Text → Run (Option Text × Text)
unfolding connect_to_ss read_from_ss
handle_ss_read ss filename = elim (connect_to_ss ss) [
  | some error ↦ ok (none, [])
  | none ↦
      and_then (read_from_ss ss.closes ss.arriving)
        λ text. ok (some (ss_read_command filename), text)
]

unfoldable pub handle_ss_stream : SsConnection → Text → Run (Option Text × Text)
unfolding connect_to_ss stream_from_ss
handle_ss_stream ss filename = elim (connect_to_ss ss) [
  | some error ↦ ok (none, [])
  | none ↦
      and_then (stream_from_ss ss.closes ss.arriving)
        λ text. ok (some (ss_stream_command filename), text)
]
