-- ===== src/Server.antt =====
-- src/name_server/types.h and the globals of src/name_server/CRWD.c: what the Name Server keeps,
-- and what it asks of its surroundings. `FileMetadata` structs stand at addresses, since the file
-- list, the hash table and the cache all point to the same struct; `malloc` returns an address
-- that no struct had before, and does not fail but where the code tests for it. A linked list
-- that nothing else points into is a list.
pub mod Find
pub mod Reply
pub mod Exchange
pub mod Save
pub mod Access
pub mod Folder
pub mod Create
pub mod Redirect
pub mod Delete
pub mod Version
pub mod Meta
pub mod Script
pub mod Requests
pub mod Annotate
pub mod Listing
pub mod Register
pub mod Restore
pub mod Sound
pub mod Example
mod Witnesses
use lang_os_distributed_file.Base.{
  ℕ, ◌+◌, Option, none, some, Bool, List, [], ◌∷◌, Text, ℤ, Exec, Run, ok, fault, blocked, modify,
  pure, raise, lift, gets, ◌>>=◌, ◌>>◌, null_pointer, use_after_free, ◌==◌, if◌then◌else◌, strcpy,
}
use lang_os_distributed_file.Table.{HashTable, ht_create, ht_insert}
use lang_os_distributed_file.Cache.{LruCache, lru_init}

pub record AccessNode : Type 0 where
  pub username : Text
  pub permission : ℕ

pub record RequestNode : Type 0 where
  pub username : Text

pub record StorageServer : Type 0 where
  pub ip_addr : Text
  pub port : ℤ

pub record User : Type 0 where
  pub username : Text
  pub ip_addr : Text

-- `ss` is `none` where the pointer is NULL. `pending_requests` is `none` where the pointer was
-- never set and does not happen to be NULL: to follow it is undefined.
pub record FileMetadata : Type 0 where
  pub filename : Text
  pub is_directory : ℕ
  pub owner : Text
  pub word_count : ℕ
  pub char_count : ℕ
  pub last_access : ℕ
  pub ss : Option StorageServer
  pub access_list : List AccessNode
  pub pending_requests : Option (List RequestNode)
  pub annotation : Text

-- The three files that `save_metadata` writes, whether `fopen` can open each for writing, and
-- whether the second is there to be read.
pub record Disk : Type 0 where
  pub user_data : Text
  pub file_metadata : Text
  pub annotations : Text
  pub user_data_opens : Bool
  pub file_metadata_opens : Bool
  pub annotations_opens : Bool
  pub metadata_exists : Bool

pub record NameServer : Type 0 where
  pub files : ℕ → Option FileMetadata
  pub fresh : ℕ
  pub file_list : List ℕ
  pub ss_list : List StorageServer
  pub user_list : List User
  pub file_hash_table : HashTable ℕ
  pub file_cache : LruCache
  pub disk : Disk

-- The other end of a connection: whether `socket`, `connect` and `send` succeed, the bytes that
-- arrive, in the portions in which they arrive, and whether the peer then closes.
pub record Peer : Type 0 where
  pub socket_ok : Bool
  pub connect_ok : Bool
  pub send_ok : Bool
  pub arriving : List Text
  pub closes : Bool

-- What becomes of `bash` on a temporary file: a system call fails, or the script ends and has
-- written its output.
pub data Shell : Type 0 where
  no_temporary no_pipe no_fork : Shell
  output : Text → Shell

-- The surroundings of one request. `raw` is what `malloc` leaves in a new `FileMetadata`;
-- `others` is what other threads do while a handler has released `data_mutex`.
pub record World : Type 0 where
  pub now : ℕ
  pub format_time : ℕ → Text
  pub raw : FileMetadata
  pub memory : Bool
  pub peer : StorageServer → Text → Peer
  pub shell : Text → Shell
  pub others : Exec NameServer Unit

-- The state of `main` after `ht_create` and `lru_init`.
unfoldable pub boot : Disk → NameServer
boot disk = record {
  files = λ p. none;
  fresh = 0;
  file_list = [];
  ss_list = [];
  user_list = [];
  file_hash_table = ht_create;
  file_cache = lru_init;
  disk = disk;
}

abbrev pub write : (ℕ → Option FileMetadata) → ℕ → Option FileMetadata → ℕ → Option FileMetadata
write files p file q = if q == p then file else files q

-- `*p`
unfoldable pub load : ℕ → Exec NameServer FileMetadata
load p s = elim (s.files p) [ none ↦ fault use_after_free | some file ↦ ok (file, s) ]

unfoldable pub store : ℕ → FileMetadata → Exec NameServer Unit
store p file = modify (λ s. record s { files = write s.files p (some file) })

-- A step of the cache inside the server.
abbrev pub in_cache : {A : Type 0} → Exec LruCache A → Exec NameServer A
in_cache m s = elim (m s.file_cache) [
  | ok (a, cache) ↦ ok (a, record s { file_cache = cache })
  | fault e ↦ fault e
  | blocked ↦ blocked
]

-- file->ss where it is followed
abbrev pub target_ss : FileMetadata → Exec NameServer StorageServer
target_ss file = elim file.ss [ none ↦ raise null_pointer | some ss ↦ pure ss ]

-- The end of every creation of a file: the struct is filled, linked in front of the file list and
-- indexed under its own name.
unfoldable pub link_file : FileMetadata → Exec NameServer Unit
unfolding store
link_file file = do
  p ← gets (λ s. s.fresh)
  store p file
  modify (λ s. record s { fresh = p + 1; file_list = p ∷ s.file_list })
  table ← (λ s. lift (ht_insert s.file_hash_table file.filename p) s)
  modify (λ s. record s { file_hash_table = table })
