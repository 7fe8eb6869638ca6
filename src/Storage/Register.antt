-- ===== src/Storage/Register.antt =====
-- src/storage_server/storage_server.c: `register_with_name_server`. The names are those that `readdir`
-- gives for the root directory, in its order.
use lang_os_distributed_file.Base.{
  ℕ, ◌-◌, ◌+◌, ◌==◌, ◌||◌, [], ◌∷◌, ◌++◌, List, Text, lit, length, take, str_eq, snprintf,
  if◌then◌else◌, Option, none, some, Bool, not, Run, ok, blocked,
}

abbrev pub max_file_list_len : ℕ
max_file_list_len = 4096

-- strncat(list, s, MAX_FILE_LIST_LEN - strlen(list) - 1)
unfoldable pub append_name : Text → Text → Text
append_name list s = list ++ take (max_file_list_len - length list - 1) s

-- One round of the loop over the directory.
unfoldable pub add_name : Text → Text → Text
unfolding str_eq append_name
add_name list name =
    if str_eq name (lit ".") || str_eq name (lit "..")
    then list
    else if length list == 0
    then take (max_file_list_len - 1) name
    else append_name (append_name list (lit ",")) name

unfoldable pub file_list : List Text → Text → Text
unfolding add_name
file_list [] list = list
file_list (name ∷ names) list = file_list names (add_name list name)

-- "REGISTER_SS;%s;%d;%s\n" in a buffer of MAX_BUFFER + MAX_FILE_LIST_LEN bytes
unfoldable pub register_message : List Text → Text
unfolding file_list
register_message names =
    snprintf (2048 + max_file_list_len)
      (lit "REGISTER_SS;127.0.0.1;9001;" ++ (file_list names [] ++ lit "\n"))

-- What the calls of the system give: the names in the root directory where it opens, whether there is
-- a socket, whether it connects, whether the message goes out, and whether `recv` ever returns.
pub record Calls : Type 0 where
  pub names : Option (List Text)
  pub made : Bool
  pub connected : Bool
  pub sent : Bool
  pub answered : Bool

-- How the registration ends: with exit(1) after a text of `perror`, or with the text that is printed
-- or given to `perror` last. What the Name Server answers is not looked at.
pub data Registration : Type 0 where
  exited failed printed : Text → Registration

abbrev names_in : Option (List Text) → List Text
names_in none = []
names_in (some names) = names

abbrev sent_text : Text
sent_text = lit "[Storage Server] Registration message sent: "

unfoldable pub register_with_name_server : Calls → Run Registration
register_with_name_server calls =
    let message = register_message (names_in calls.names) in
    if not calls.made
    then ok (exited (lit "Could not create socket"))
    else if not calls.connected
    then ok (exited (lit "Connect to Name Server failed"))
    else if not calls.sent
    then ok (failed (lit "Send failed"))
    else if calls.answered
    then ok (printed (sent_text ++ message))
    else blocked
