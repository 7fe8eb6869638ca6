-- ===== src/Server/Register.antt =====
-- src/name_server/name_server.c: `register_user`, `register_storage_server`.
pub mod Users
pub mod Files
use lang_os_distributed_file.Base.{
  ℕ, zero, suc, Option, none, some, Bool, true, false, List, [], ◌∷◌, Text, ℤ, int_eq, Exec, Run,
  ok, fault, blocked, pure, lift, modify, lit, ◌>>=◌, ◌>>◌, if◌then◌else◌, str_eq, strcpy, strtok,
  length, ◌&&◌, and_then,
}
use lang_os_distributed_file.Server.{
  NameServer, FileMetadata, StorageServer, User, World, link_file,
}
use lang_os_distributed_file.Server.Find.{find_file}

-- The loop that looks for the user and sets the address: the new list, or nothing where the user
-- is new.
unfoldable pub update_user : List User → Text → Text → Option (List User)
update_user [] username ip = none
update_user (user ∷ users) username ip =
    let rest = update_user users username ip in
    if str_eq user.username username
    then some (record user { ip_addr = ip } ∷ users)
    else elim rest [ none ↦ none | some users' ↦ some (user ∷ users') ]

unfoldable pub register_user : Text → Text → Exec NameServer Unit
unfolding update_user
register_user username ip_addr s = elim (update_user s.user_list username ip_addr) [
  | some users ↦ (do ip ← lift (strcpy 20 ip_addr); modify (λ s. record s { user_list = users })) s
  | none ↦
      (do
        name ← lift (strcpy 50 username)
        ip ← lift (strcpy 20 ip_addr)
        modify
            (λ s. record s { user_list = record { username = name; ip_addr = ip } ∷ s.user_list }))
        s
]

-- The test of the loops over `ss_list_head`.
unfoldable pub find_ss : List StorageServer → Text → ℤ → Option StorageServer
find_ss [] ip port = none
find_ss (ss ∷ servers) ip port =
    if str_eq ss.ip_addr ip && int_eq ss.port port then some ss else find_ss servers ip port

-- A file that the new Storage Server already has: nobody's, with no access list.
unfoldable pub add_found_file : World → StorageServer → Text → Exec NameServer Unit
unfolding link_file
add_found_file w ss filename = do
  name ← lift (strcpy 100 filename)
  link_file (record w.raw {
    filename = name;
    owner = lit "ss_owner";
    word_count = 0;
    char_count = 0;
    last_access = w.now;
    ss = some ss;
    access_list = [];
  })

unfoldable pub register_file : World → StorageServer → Text → Exec NameServer Unit
unfolding find_file add_found_file
register_file w ss filename = do
  found ← find_file filename
  elim found [ some p ↦ pure tt | none ↦ add_found_file w ss filename ]

-- The `strtok` loop over the list of files; each round takes a byte at least.
unfoldable pub register_files : ℕ → World → StorageServer → Text → Exec NameServer Unit
unfolding register_file
register_files zero w ss text = pure tt
register_files (suc fuel) w ss text =
    let (token, rest) = strtok (lit ",") text in
    elim token [
      | none ↦ pure tt
      | some filename ↦ (do register_file w ss filename; register_files fuel w ss rest)
    ]

unfoldable pub add_ss : World → Text → ℤ → Text → Exec NameServer Unit
unfolding register_files
add_ss w ip port file_list_str = do
  ip_addr ← lift (strcpy 20 ip)
  let ss : StorageServer = record { ip_addr = ip_addr; port = port }
  modify (λ s. record s { ss_list = ss ∷ s.ss_list })
  register_files (suc (length file_list_str)) w ss file_list_str

unfoldable pub register_storage_server : World → Text → ℤ → Text → Exec NameServer Unit
unfolding find_ss add_ss
register_storage_server w ip port file_list_str s = elim (find_ss s.ss_list ip port) [
  | some ss ↦ ok (tt, s)
  | none ↦ add_ss w ip port file_list_str s
]
