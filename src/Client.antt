-- ===== src/Client.antt =====
-- src/client/user_client.c: what `main` makes of a line that the user types. The line comes without
-- its newline.
pub mod Reply
pub mod Verbs
pub mod Commands
pub mod Direct
pub mod Main
pub mod Marker
pub mod Whole
pub mod Follow
mod Witnesses
use lang_os_distributed_file.Base.{
  ℕ, ◌+◌, Option, none, some, Bool, true, false, [], ◌∷◌, ◌++◌, Text, lit, snprintf, strtok, str_eq,
  leb, ◌==◌, ◌&&◌, if◌then◌else◌,
}

abbrev pub max_response_len : ℕ
max_response_len = 8192

-- tolower
abbrev pub to_lower : ℕ → ℕ
to_lower c = if leb b'A' c && leb c b'Z' then c + 32 else c

-- strcasecmp(a, b) == 0
unfoldable pub strcasecmp : Text → Text → Bool
strcasecmp [] [] = true
strcasecmp (a ∷ s) (b ∷ t) = to_lower a == to_lower b && strcasecmp s t
strcasecmp _ _ = false

-- What a line makes the client do: end, ask again, print a message, or send a command to the Name
-- Server.
pub data Input : Type 0 where
  leave again : Input
  print : Text → Input
  send : Text → Input

-- The command text in its buffer.
abbrev pub command_to_send : Text → Input
command_to_send s = send (snprintf max_response_len s)

-- The tests of the arguments for NULL, and the formats "%s;%s\n", "%s;%s;%s\n" and
-- "%s;%s;%s;%s\n".
unfoldable pub one_arg : Text → Text → Option Text → Input
one_arg usage name none = print usage
one_arg usage name (some a) = command_to_send (name ++ (lit ";" ++ (a ++ lit "\n")))

unfoldable pub two_args : Text → Text → Option Text → Option Text → Input
two_args usage name (some a) (some b) =
    command_to_send (name ++ (lit ";" ++ (a ++ (lit ";" ++ (b ++ lit "\n")))))
two_args usage name _ _ = print usage

unfoldable pub three_args : Text → Text → Option Text → Option Text → Option Text → Input
three_args usage name (some a) (some b) (some c) =
    command_to_send (name ++ (lit ";" ++ (a ++ (lit ";" ++ (b ++ (lit ";" ++ (c ++ lit "\n")))))))
three_args usage name _ _ _ = print usage

-- The next token and then, at what is left, those behind it.
unfoldable pub read_one : Text → Text → Text → Input
unfolding one_arg
read_one usage name s = one_arg usage name (strtok (lit " ") s).0

unfoldable pub read_two : Text → Text → Text → Input
unfolding two_args
read_two usage name s =
    two_args usage name (strtok (lit " ") s).0 (strtok (lit " ") (strtok (lit " ") s).1).0

unfoldable pub read_three : Text → Text → Text → Input
unfolding three_args
read_three usage name s =
    three_args usage name (strtok (lit " ") s).0 (strtok (lit " ") (strtok (lit " ") s).1).0
      (strtok (lit " ") (strtok (lit " ") (strtok (lit " ") s).1).1).0

-- The note is the rest of the line.
unfoldable pub read_note : Text → Text → Text → Input
unfolding two_args
read_note usage name s =
    two_args usage name (strtok (lit " ") s).0 (strtok (lit "\n") (strtok (lit " ") s).1).0

-- flags ? flags : "-"
abbrev pub flags_or : Option Text → Text
flags_or none = lit "-"
flags_or (some flags) = flags

-- The chain of tests, on the first word and `strtok`'s position behind it.
unfoldable pub read_args : Text → Text → Input
unfolding strcasecmp read_one read_two read_three read_note
read_args command s =
    if strcasecmp command (lit "VIEW")
    then command_to_send (lit "VIEW;" ++ (flags_or (strtok (lit " ") s).0 ++ lit "\n"))
    else if strcasecmp command (lit "LIST")
    then command_to_send (lit "LIST_USERS;\n")
    else if strcasecmp command (lit "CREATE")
    then read_one (lit "Usage: CREATE <filename>\n") (lit "CREATE") s
    else if strcasecmp command (lit "READ")
    then read_one (lit "Usage: READ <filename>\n") (lit "READ") s
    else if strcasecmp command (lit "WRITE")
    then read_two (lit "Usage: WRITE <filename> <sentence_number>\n") (lit "WRITE") s
    else if strcasecmp command (lit "DELETE")
    then read_one (lit "Usage: DELETE <filename>\n") (lit "DELETE") s
    else if strcasecmp command (lit "STREAM")
    then read_one (lit "Usage: STREAM <filename>\n") (lit "STREAM") s
    else if strcasecmp command (lit "UNDO")
    then read_one (lit "Usage: UNDO <filename>\n") (lit "UNDO") s
    else if strcasecmp command (lit "INFO")
    then read_one (lit "Usage: INFO <filename>\n") (lit "INFO") s
    else if strcasecmp command (lit "ADDACCESS")
    then read_three (lit "Usage: ADDACCESS <filename> <user> <R|W>\n") (lit "ADDACCESS") s
    else if strcasecmp command (lit "REMACCESS")
    then read_two (lit "Usage: REMACCESS <filename> <user>\n") (lit "REMACCESS") s
    else if strcasecmp command (lit "EXEC")
    then read_one (lit "Usage: EXEC <filename>\n") (lit "EXEC") s
    else if strcasecmp command (lit "CREATEFOLDER")
    then read_one (lit "Usage: CREATEFOLDER <foldername>\n") (lit "CREATEFOLDER") s
    else if strcasecmp command (lit "VIEWFOLDER")
    then read_one (lit "Usage: VIEWFOLDER <foldername>\n") (lit "VIEWFOLDER") s
    else if strcasecmp command (lit "CHECKPOINT")
    then read_two (lit "Usage: CHECKPOINT <filename> <tag>\n") (lit "CHECKPOINT") s
    else if strcasecmp command (lit "REVERT")
    then read_two (lit "Usage: REVERT <filename> <tag>\n") (lit "REVERT") s
    else if strcasecmp command (lit "VIEWCHECKPOINT")
    then read_two (lit "Usage: VIEWCHECKPOINT <filename> <tag>\n") (lit "VIEWCHECKPOINT") s
    else if strcasecmp command (lit "REQUESTACCESS")
    then read_one (lit "Usage: REQUESTACCESS <filename>\n") (lit "REQUESTACCESS") s
    else if strcasecmp command (lit "VIEWREQUESTS")
    then read_one (lit "Usage: VIEWREQUESTS <filename>\n") (lit "VIEWREQUESTS") s
    else if strcasecmp command (lit "APPROVE")
    then read_two (lit "Usage: APPROVE <filename> <user>\n") (lit "APPROVE") s
    else if strcasecmp command (lit "REJECT")
    then read_two (lit "Usage: REJECT <filename> <user>\n") (lit "REJECT") s
    else if strcasecmp command (lit "ANNOTATE")
    then read_note (lit "Usage: ANNOTATE <filename> <message>\n") (lit "ANNOTATE") s
    else if strcasecmp command (lit "VIEWNOTE")
    then read_one (lit "Usage: VIEWNOTE <filename>\n") (lit "SHOW_ANNOTATION") s
    else print (lit "Unknown command: " ++ (command ++ lit "\n"))

unfoldable pub read_words : Option Text × Text → Input
unfolding read_args
read_words (none, s) = again
read_words (some command, s) = read_args command s

-- One round of the interactive loop.
unfoldable pub read_input : Text → Input
unfolding read_words
read_input input = if str_eq input (lit "exit") then leave else read_words (strtok (lit " ") input)

-- The first message.
unfoldable pub register_message : Text → Text
register_message username =
    snprintf max_response_len (lit "REGISTER_CLIENT;" ++ (username ++ lit "\n"))
