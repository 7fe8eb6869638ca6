-- ===== src/Client/Verbs.antt =====
-- The commands with one argument: how the client and the Name Server call them.
use lang_os_distributed_file.Base.{
  ◌≤◌, true, false, [], ◌∷◌, ◌++◌, Text, lit, ◌≡◌, ◌≢◌, refl, ap, arith, length, take_of_length-le,
  str_eq, member, none_of, strncpy,
}
use lang_os_distributed_file.Client.{strcasecmp, read_one, read_args}
use lang_os_distributed_file.Session.{
  Command, one, parse_args, info, create, read, delete, stream, undo, exec, create_folder,
  view_folder, request_access, view_requests, show_annotation,
}

-- An argument that passes through both parsers as one token, and through the buffers whole.
pub record IsWord (a : Text) : Type 0 where
  pub given : a ≢ []
  pub no_space : none_of (lit " ") a ≡ true
  pub plain : none_of (lit ";\n") a ≡ true
  pub short : length a ≤ 99

-- The commands of the client with one argument, and how the client and the Name Server call them.
pub data Verb : Type 0 where
  to_info to_create to_read to_delete to_stream to_undo to_exec to_create_folder to_view_folder
        to_request_access to_view_requests to_view_note :
      Verb

abbrev pub typed : Verb → Text
typed to_info = lit "INFO"
typed to_create = lit "CREATE"
typed to_read = lit "READ"
typed to_delete = lit "DELETE"
typed to_stream = lit "STREAM"
typed to_undo = lit "UNDO"
typed to_exec = lit "EXEC"
typed to_create_folder = lit "CREATEFOLDER"
typed to_view_folder = lit "VIEWFOLDER"
typed to_request_access = lit "REQUESTACCESS"
typed to_view_requests = lit "VIEWREQUESTS"
typed to_view_note = lit "VIEWNOTE"

-- The name in the message is the word, but for VIEWNOTE.
abbrev pub sent : Verb → Text
sent to_view_note = lit "SHOW_ANNOTATION"
sent v = typed v

abbrev pub meant : Verb → Text → Command
meant to_info f = info f
meant to_create f = create f
meant to_read f = read f
meant to_delete f = delete f
meant to_stream f = stream f
meant to_undo f = undo f
meant to_exec f = exec f
meant to_create_folder f = create_folder f
meant to_view_folder f = view_folder f
meant to_request_access f = request_access f
meant to_view_requests f = view_requests f
meant to_view_note f = show_annotation f

-- The message.
abbrev pub message_of : Text → Text → Text
message_of name a = name ++ (lit ";" ++ (a ++ lit "\n"))

-- What makes a word of the client's language a command with one argument.
pub record IsTyped (word usage name : Text) : Type 0 where
  pub one_word : none_of (lit " ") word ≡ true
  pub given : word ≢ []
  pub not_exit : (a : Text) → str_eq (word ++ 32 ∷ a) (lit "exit") ≡ false
  pub chosen : (s : Text) → read_args word s ≡ read_one usage name s
  pub short : length name ≤ 20

-- And a name a command of the Name Server's with one argument.
pub record IsKnown (name : Text) (k : Text → Command) : Type 0 where
  pub plain : none_of (lit ";\n") name ≡ true
  pub given : name ≢ []
  pub chosen : (s : Text) → parse_args name s ≡ one s k

word-IsTyped :
    {word usage name : Text}
    → none_of (lit " ") word ≡ true
    → word ≢ []
    → ((a : Text) → str_eq (word ++ 32 ∷ a) (lit "exit") ≡ false)
    → ((s : Text) → read_args word s ≡ read_one usage name s)
    → length name ≤ 20
    → IsTyped word usage name
word-IsTyped one_word given not_exit chosen short = record {
  one_word = one_word;
  given = given;
  not_exit = not_exit;
  chosen = chosen;
  short = short;
}

name-IsKnown :
    {name : Text} {k : Text → Command}
    → none_of (lit ";\n") name ≡ true
    → name ≢ []
    → ((s : Text) → parse_args name s ≡ one s k)
    → IsKnown name k
name-IsKnown plain given chosen = record { plain = plain; given = given; chosen = chosen }

abbrev pub usage_of : Verb → Text
usage_of to_info = lit "Usage: INFO <filename>\n"
usage_of to_create = lit "Usage: CREATE <filename>\n"
usage_of to_read = lit "Usage: READ <filename>\n"
usage_of to_delete = lit "Usage: DELETE <filename>\n"
usage_of to_stream = lit "Usage: STREAM <filename>\n"
usage_of to_undo = lit "Usage: UNDO <filename>\n"
usage_of to_exec = lit "Usage: EXEC <filename>\n"
usage_of to_create_folder = lit "Usage: CREATEFOLDER <foldername>\n"
usage_of to_view_folder = lit "Usage: VIEWFOLDER <foldername>\n"
usage_of to_request_access = lit "Usage: REQUESTACCESS <filename>\n"
usage_of to_view_requests = lit "Usage: VIEWREQUESTS <filename>\n"
usage_of to_view_note = lit "Usage: VIEWNOTE <filename>\n"

pub verb-IsTyped : (v : Verb) → IsTyped (typed v) (usage_of v) (sent v)
unfolding none_of member str_eq read_args strcasecmp
verb-IsTyped to_info = word-IsTyped refl (λ e. cc) (λ a. refl) (λ s. refl) (omega arith)
verb-IsTyped to_create = word-IsTyped refl (λ e. cc) (λ a. refl) (λ s. refl) (omega arith)
verb-IsTyped to_read = word-IsTyped refl (λ e. cc) (λ a. refl) (λ s. refl) (omega arith)
verb-IsTyped to_delete = word-IsTyped refl (λ e. cc) (λ a. refl) (λ s. refl) (omega arith)
verb-IsTyped to_stream = word-IsTyped refl (λ e. cc) (λ a. refl) (λ s. refl) (omega arith)
verb-IsTyped to_undo = word-IsTyped refl (λ e. cc) (λ a. refl) (λ s. refl) (omega arith)
verb-IsTyped to_exec = word-IsTyped refl (λ e. cc) (λ a. refl) (λ s. refl) (omega arith)
verb-IsTyped to_create_folder = word-IsTyped refl (λ e. cc) (λ a. refl) (λ s. refl) (omega arith)
verb-IsTyped to_view_folder = word-IsTyped refl (λ e. cc) (λ a. refl) (λ s. refl) (omega arith)
verb-IsTyped to_request_access = word-IsTyped refl (λ e. cc) (λ a. refl) (λ s. refl) (omega arith)
verb-IsTyped to_view_requests = word-IsTyped refl (λ e. cc) (λ a. refl) (λ s. refl) (omega arith)
verb-IsTyped to_view_note = word-IsTyped refl (λ e. cc) (λ a. refl) (λ s. refl) (omega arith)

-- What the Name Server makes of a name: CREATE and READ copy it into a buffer of 100 bytes.
abbrev pub taken_for : Verb → Text → Command
taken_for to_create f = create (strncpy 99 f)
taken_for to_read f = read (strncpy 99 f)
taken_for v f = meant v f

pub verb-IsKnown : (v : Verb) → IsKnown (sent v) (taken_for v)
unfolding none_of member str_eq parse_args
verb-IsKnown to_info = name-IsKnown refl (λ e. cc) (λ s. refl)
verb-IsKnown to_create = name-IsKnown refl (λ e. cc) (λ s. refl)
verb-IsKnown to_read = name-IsKnown refl (λ e. cc) (λ s. refl)
verb-IsKnown to_delete = name-IsKnown refl (λ e. cc) (λ s. refl)
verb-IsKnown to_stream = name-IsKnown refl (λ e. cc) (λ s. refl)
verb-IsKnown to_undo = name-IsKnown refl (λ e. cc) (λ s. refl)
verb-IsKnown to_exec = name-IsKnown refl (λ e. cc) (λ s. refl)
verb-IsKnown to_create_folder = name-IsKnown refl (λ e. cc) (λ s. refl)
verb-IsKnown to_view_folder = name-IsKnown refl (λ e. cc) (λ s. refl)
verb-IsKnown to_request_access = name-IsKnown refl (λ e. cc) (λ s. refl)
verb-IsKnown to_view_requests = name-IsKnown refl (λ e. cc) (λ s. refl)
verb-IsKnown to_view_note = name-IsKnown refl (λ e. cc) (λ s. refl)

pub taken_for-meant : (v : Verb) (a : Text) → length a ≤ 99 → taken_for v a ≡ meant v a
taken_for-meant to_create a h = ap create (take_of_length-le 99 a h)
taken_for-meant to_read a h = ap read (take_of_length-le 99 a h)
taken_for-meant to_info a h = refl
taken_for-meant to_delete a h = refl
taken_for-meant to_stream a h = refl
taken_for-meant to_undo a h = refl
taken_for-meant to_exec a h = refl
taken_for-meant to_create_folder a h = refl
taken_for-meant to_view_folder a h = refl
taken_for-meant to_request_access a h = refl
taken_for-meant to_view_requests a h = refl
taken_for-meant to_view_note a h = refl
