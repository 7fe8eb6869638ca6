-- ===== src/Server/Meta.antt =====
-- src/name_server/CRWD.c: `handle_update_meta`. The mutex is held at the start and at the end;
-- `others` runs in between.
pub mod Count
use lang_os_distributed_file.Base.{
  ℕ, zero, suc, ◌+◌, Option, none, some, [], ◌++◌, Text, Exec, pure, raise, lift, lit, null_pointer,
  not, if◌then◌else◌, ◌>>=◌, ◌>>◌, snprintf, length, strtok,
}
use lang_os_distributed_file.Server.{NameServer, StorageServer, World, load, store}
use lang_os_distributed_file.Server.Find.{find_file}
use lang_os_distributed_file.Server.Exchange.{connect_and_send_to_ss}
use lang_os_distributed_file.Server.Reply.{max_buffer_size}

abbrev pub white : Text
white = lit " \t\n\r"

-- The `strtok` loop that counts words; each round takes a byte at least.
unfoldable pub count_loop : ℕ → Text → ℕ → ℕ
count_loop zero text words = words
count_loop (suc fuel) text words =
    let (token, rest) = strtok white text in
    elim token [ none ↦ words | some word ↦ count_loop fuel rest (words + 1) ]

unfoldable pub count_words : Text → ℕ
unfolding count_loop
count_words content = count_loop (suc (length content)) content 0

-- The first critical section: the access time, and the address of the Storage Server.
unfoldable pub touch_file : World → Text → Exec NameServer (Option (Option StorageServer))
unfolding find_file load store
touch_file w filename = do
  found ← find_file filename
  elim found [
    | none ↦ pure none
    | some p ↦ (do
      file ← load p
      store p (record file { last_access = w.now })
      pure (some file.ss))
  ]

-- The second critical section.
unfoldable pub update_counts : Text → ℕ → ℕ → Exec NameServer Unit
unfolding find_file load store
update_counts filename words chars = do
  found ← find_file filename
  elim found [
    | none ↦ pure tt
    | some p ↦ (do file ← load p; store p (record file { word_count = words; char_count = chars }))
  ]

unfoldable pub ack_meta_update : Text
ack_meta_update = lit "ACK_META_UPDATE\n__END__\n"

unfoldable pub read_command : Text → Text
read_command filename = snprintf max_buffer_size (lit "SS_READ;" ++ (filename ++ lit "\n"))

-- What follows when the content has come, or has not; `strdup` may find no memory.
unfoldable pub meta_result : World → Text → Option Text → Exec NameServer Text
unfolding update_counts count_words
meta_result w filename none = pure []
meta_result w filename (some content) = if not w.memory then pure [] else (do
  w.others
  update_counts filename (count_words content) (length content)
  pure ack_meta_update)

-- Nothing is sent where the file is not there or cannot be fetched.
unfoldable pub handle_update_meta : World → Text → Exec NameServer Text
unfolding touch_file meta_result read_command
handle_update_meta w filename = do
  touched ← touch_file w filename
  elim touched [
    | none ↦ pure []
    | some server ↦ (do
      ss ← (elim server [ none ↦ raise null_pointer | some ss ↦ pure ss ])
      answer ← lift (connect_and_send_to_ss (w.peer ss (read_command filename)))
      meta_result w filename answer)
  ]
