-- ===== src/Server/Find.antt =====
-- src/name_server/CRWD.c: `find_file`, `check_permission`, `find_user`.
pub mod Frame
pub mod Rights
use lang_os_distributed_file.Base.{
  ℕ, Option, none, some, Bool, true, false, List, [], ◌∷◌, Text, Exec, Run, ok, fault, blocked,
  pure, ◌>>=◌, ◌>>◌, ◌==◌, if◌then◌else◌, str_eq, ◌||◌, ◌&&◌,
}
use lang_os_distributed_file.Table.{ht_search}
use lang_os_distributed_file.Cache.{lru_get, lru_put}
use lang_os_distributed_file.Server.{NameServer, FileMetadata, AccessNode, User, load, in_cache}

-- lru_put(file), which reads the file's name.
unfoldable pub cache_file : ℕ → Exec NameServer Unit
unfolding load
cache_file p = do file ← load p; in_cache (lru_put p file.filename)

-- A cache miss of `find_file`.
unfoldable pub search_table : Text → Exec NameServer (Option ℕ)
unfolding cache_file
search_table filename s = elim (ht_search s.file_hash_table filename) [
  | none ↦ ok (none, s)
  | some p ↦ (do cache_file p; pure (some p)) s
]

unfoldable pub find_file : Text → Exec NameServer (Option ℕ)
unfolding search_table
find_file filename = do
  hit ← in_cache (lru_get filename)
  elim hit [ some p ↦ pure (some p) | none ↦ search_table filename ]

-- How every handler begins: the file is looked up, and read if it is there.
unfoldable pub with_file :
    Text → Exec NameServer Text → (ℕ → FileMetadata → Exec NameServer Text) → Exec NameServer Text
unfolding load
with_file filename missing k = do
  found ← find_file filename
  elim found [ none ↦ missing | some p ↦ do file ← load p; k p file ]

-- The loop of `check_permission`.
unfoldable pub grants : List AccessNode → Text → ℕ → Bool
grants [] username perm = false
grants (node ∷ nodes) username perm =
    (str_eq node.username username && (node.permission == b'W' || node.permission == perm))
    || grants nodes username perm

unfoldable pub check_permission : FileMetadata → Text → ℕ → Bool
unfolding grants
check_permission file username perm =
    if str_eq file.owner username then true else grants file.access_list username perm

unfoldable pub find_user : List User → Text → Option User
find_user [] username = none
find_user (user ∷ users) username =
    if str_eq user.username username then some user else find_user users username
