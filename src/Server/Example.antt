-- ===== src/Server/Example.antt =====
-- One server for the examples: alice's file, for which bob has asked.
use lang_os_distributed_file.Base.{
  ℕ, ◌≡◌, refl, arith, Option, none, some, true, false, [], ◌∷◌, List, Text, lit, ok, fault,
  blocked, Run, pos, str_eq, contains, before, starts_with, if◌then◌else◌, ◌==◌, ◌∙◌, ap,
  str_eq_iff, Bool-cases, inl, inr, strcpy,
}
use mathlib.Core.List.{head?}
use lang_os_distributed_file.Table.Laws.{search-insert, search-stacks, stacks-create}
use lang_os_distributed_file.Cache.Ideal.{file_of, contents}
use lang_os_distributed_file.Cache.Refine.{lru_init-Represents}
use lang_os_distributed_file.Server.Sound.{IsSound}
use lang_os_distributed_file.Table.{
  HashTable, ht_create, ht_insert, ht_search, ht_delete, hash_function, search_chain,
}
use lang_os_distributed_file.Cache.{LruCache, lru_init, lru_get, lru_put}
use lang_os_distributed_file.Server.{NameServer, FileMetadata, StorageServer, Disk, no_pipe, World}
use lang_os_distributed_file.Server.Find.{find_file, check_permission, find_user}
use lang_os_distributed_file.Server.Find.Frame.{Finds, Misses}
use lang_os_distributed_file.Server.Save.Total.{AreStored}
use lang_os_distributed_file.Server.Access.Nodes.{are_distinct}
use lang_os_distributed_file.Server.Access.Relist.{IsGrant}
use lang_os_distributed_file.Server.Exchange.Laws.{answering}
use lang_os_distributed_file.Server.Requests.Nodes.{are_single, are_letters}
use lang_os_distributed_file.Server.Requests.{has_request}

abbrev pub ss : StorageServer
ss = record { ip_addr = lit "10.0.0.2"; port = pos 9001 }

-- A reply in two portions.
abbrev pub chunks : List Text
chunks = lit "ACK_DELETE\n__SS_" ∷ lit "END__" ∷ []

-- "bob" has asked for access to alice's file.
abbrev pub file : FileMetadata
file = record {
  filename = lit "a";
  is_directory = 0;
  owner = lit "al";
  word_count = 0;
  char_count = 0;
  last_access = 0;
  ss = some ss;
  access_list = record { username = lit "al"; permission = b'W' } ∷ [];
  pending_requests = some (record { username = lit "bob" } ∷ []);
  annotation = [];
}

abbrev pub w : World
w = record {
  now = 7;
  format_time = λ t. lit "now";
  raw = record file { pending_requests = none };
  memory = true;
  peer = λ ss command. answering chunks false;
  shell = λ script. no_pipe;
  others = λ s. ok (tt, s);
}

abbrev pub table : HashTable ℕ
table = elim (ht_insert {V = ℕ} ht_create (lit "a") 0) [
  | ok t ↦ t
  | fault e ↦ ht_create
  | blocked ↦ ht_create
]

abbrev pub disk : Disk
disk = record {
  user_data = lit "al\nbob\n";
  file_metadata = lit "a;al;10.0.0.2;9001\n";
  annotations = [];
  user_data_opens = true;
  file_metadata_opens = true;
  annotations_opens = true;
  metadata_exists = true;
}

abbrev pub s : NameServer
s = record {
  files = λ p. if p == 0 then some file else none;
  fresh = 1;
  file_list = 0 ∷ [];
  ss_list = ss ∷ [];
  user_list = record { username = lit "bob"; ip_addr = lit "10.0.0.3" } ∷ [];
  file_hash_table = table;
  file_cache = lru_init;
  disk = disk;
}

-- The cache after a look-up of a name, and after a second one.
abbrev pub cache_after : Run (Option ℕ × NameServer) → LruCache
cache_after r = elim r [ ok (p, t) ↦ t.file_cache | fault e ↦ lru_init | blocked ↦ lru_init ]

abbrev pub cache : LruCache
cache = cache_after (find_file (lit "a") s)

abbrev pub cache_after_miss : LruCache
cache_after_miss = cache_after (find_file (lit "b") s)

abbrev pub cache_after_hit : LruCache
cache_after_hit = elim (lru_get (lit "a") cache) [
  | ok (p, c) ↦ c
  | fault e ↦ cache
  | blocked ↦ cache
]

pub found : Finds (lit "a") s 0 cache
unfolding find_file lru_init lru_get lru_put ht_search ht_insert ht_delete ht_create hash_function
    search_chain str_eq
found = refl

pub missing : Misses (lit "b") s cache_after_miss
unfolding find_file lru_init lru_get lru_put ht_search ht_insert ht_delete ht_create hash_function
    search_chain str_eq
missing = refl

pub hit : lru_get (lit "a") cache ≡ ok (some 0, cache_after_hit)
unfolding find_file lru_init lru_get lru_put ht_search ht_insert ht_delete ht_create hash_function
    search_chain str_eq
hit = refl

abbrev pub stored : AreStored s.files s.file_list
stored = ((file, refl, (ss, refl)), tt)

pub distinct : are_distinct file.access_list ≡ true
unfolding are_distinct
distinct = refl

pub others_differ : str_eq (lit "al") (lit "bob") ≡ false
unfolding str_eq
others_differ = refl

pub grant : IsGrant s (lit "bob") (lit "R")
unfolding find_user str_eq
grant = record {
  user = record { username = lit "bob"; ip_addr = lit "10.0.0.3" };
  registered = refl;
  short = omega arith;
  valid = refl;
}

pub owner_writes : check_permission file (lit "al") b'W' ≡ true
unfolding check_permission str_eq
owner_writes = refl

pub acknowledged : contains (lit "ACK_DELETE\n") (lit "ACK_DELETE") ≡ true
unfolding contains before starts_with
acknowledged = refl

pub single : are_single (record { username = lit "bob" } ∷ []) ≡ true
unfolding are_single has_request
single = refl

pub letters : are_letters file.access_list ≡ true
unfolding are_letters
letters = refl

-- The file as `handle_create` leaves it, and "bob", who may not read it.
abbrev pub fresh_file : FileMetadata
fresh_file = record file { pending_requests = none }

abbrev pub s₂ : NameServer
s₂ = record s { files = λ p. if p == 0 then some fresh_file else none }

pub found_fresh : Finds (lit "a") s₂ 0 cache
unfolding find_file lru_init lru_get lru_put ht_search ht_insert ht_delete ht_create hash_function
    search_chain str_eq
found_fresh = refl

pub barred : check_permission fresh_file (lit "bob") b'R' ≡ false
unfolding check_permission str_eq
barred = refl

-- Only "a" is in the table, and nothing in the cache.
inserted : ht_insert {V = ℕ} ht_create (lit "a") 0 ≡ ok table
unfolding ht_insert strcpy
inserted = refl

indexes : (name : Text) → ht_search table name ≡ (if str_eq (lit "a") name then some 0 else none)
indexes name =
    search-insert ht_create (lit "a") name 0 inserted
    ∙ ap (λ (r : Option ℕ). if str_eq (lit "a") name then some 0 else r)
        (search-stacks ht_create name ∙ ap head? (stacks-create name))

pub sound : IsSound s
unfolding file_of contents
sound = record {
  entries = [];
  cached = lru_init-Represents;
  agrees = λ name p held. cc;
  named = λ name p found. elim (Bool-cases (str_eq (lit "a") name)) [
    | inl same ↦
        let is = (str_eq_iff (lit "a") name).0 same in
        (file, ground (arith, indexes name, found, same), is, rw (← is) (omega arith))
    | inr other ↦ absurd (ground (arith, indexes name, found, other))
  ];
  live = ((file, refl), tt);
  unused = λ p above. ground (arith, above);
}

pub indexed : ht_search table (lit "a") ≡ some 0
unfolding ht_search ht_insert ht_create hash_function search_chain str_eq strcpy
indexed = refl
