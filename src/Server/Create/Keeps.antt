-- ===== src/Server/Create/Keeps.antt =====
-- What `handle_create` leaves behind, whatever the Storage Server answers.
use lang_os_distributed_file.Base.{
  ℕ, ◌+◌, ◌<◌, Option, some, true, false, List, [], ◌∷◌, Text, ok, ◌≡◌, refl, arith, str_eq, ◌==◌,
  length, strcpy, if◌then◌else◌, and_then, Bool-cases, Run-cases, inl, inr, ◌⊎◌,
}
use lang_os_distributed_file.Table.{ht_search, ht_insert, HashTable}
use lang_os_distributed_file.Table.Laws.{search-insert, ht_insert-fits}
use lang_os_distributed_file.Cache.{LruCache}
use lang_os_distributed_file.Server.{
  NameServer, FileMetadata, StorageServer, RequestNode, World, write, link_file, store,
}
use lang_os_distributed_file.Server.Find.{check_permission, grants}
use lang_os_distributed_file.Server.Find.Frame.{Misses, with_cache}
use lang_os_distributed_file.Server.Folder.{owner_access}
use lang_os_distributed_file.Server.Save.{save_metadata}
use lang_os_distributed_file.Server.Save.Total.{AreStored, save_metadata-total, disk_after}
use lang_os_distributed_file.Server.Exchange.{connect_and_send_to_ss}
use lang_os_distributed_file.Server.Create.{
  add_file, create_at, create_result, create_command, handle_create,
}

-- The struct of a new file.
abbrev new_file : World → Text → Text → StorageServer → FileMetadata
new_file w filename username ss = record w.raw {
  filename = filename;
  owner = username;
  word_count = 0;
  char_count = 0;
  last_access = w.now;
  ss = some ss;
  annotation = [];
  access_list = owner_access username;
}

linked : NameServer → FileMetadata → HashTable ℕ → NameServer
linked s file table = record s {
  files = write s.files s.fresh (some file);
  fresh = s.fresh + 1;
  file_list = s.fresh ∷ s.file_list;
  file_hash_table = table;
}

add_file-links :
    (w : World) (filename username : Text) (ss : StorageServer) (s : NameServer)
    (table : HashTable ℕ)
    → length filename < 100
    → length username < 50
    → ht_insert s.file_hash_table filename s.fresh ≡ ok table
    → add_file w filename username ss s ≡ ok (tt, linked s (new_file w filename username ss) table)
unfolding add_file link_file store strcpy linked
add_file-links w filename username ss s table short short_user inserted = ground (arith, inserted)

-- A new file with a Storage Server keeps every file stored.
AreStored-put :
    (files : ℕ → Option FileMetadata) (ps : List ℕ) (p : ℕ) (g : FileMetadata)
    (server : StorageServer)
    → g.ss ≡ some server
    → AreStored files ps
    → AreStored (write files p (some g)) ps
AreStored-put files [] p g server has h = tt
AreStored-put files (q ∷ ps) p g server has ((f, at_q, (ss, stored)), h) =
    (here (Bool-cases (q == p)), AreStored-put files ps p g server has h)
  where
    here :
        ((q == p) ≡ true) ⊎ ((q == p) ≡ false)
        → (x : FileMetadata) × (write files p (some g) q ≡ some x)
          × ((y : StorageServer) × (x.ss ≡ some y))
    here (inl e) = (g, ground arith, (server, has))
    here (inr e) = (f, ground arith, (ss, stored))

-- A file is known at `p`: its owner may do everything and nobody else anything, it lies on the given
-- server, its list of requests is the given one, it is listed, and the table finds it by its name,
-- and everything else as before.
pub record IsCreated (s t : NameServer) (p : ℕ) (filename username : Text) (ss : StorageServer)
    (pending : Option (List RequestNode)) : Type 0 where
  pub file : FileMetadata
  pub at_p : t.files p ≡ some file
  pub named : file.filename ≡ filename
  pub owned : file.owner ≡ username
  pub placed : file.ss ≡ some ss
  pub requests : file.pending_requests ≡ pending
  pub allowed : (user : Text) (perm : ℕ) → check_permission file user perm ≡ str_eq username user
  pub listed : t.file_list ≡ p ∷ s.file_list
  pub indexed :
      (name : Text)
      → ht_search t.file_hash_table name
        ≡ (if str_eq filename name then some p else ht_search s.file_hash_table name)
  pub other_files : (q : ℕ) → (q == p) ≡ false → t.files q ≡ s.files q

new_file-IsCreated :
    (w : World) (filename username : Text) (ss : StorageServer) (s : NameServer)
    (table : HashTable ℕ)
    → ht_insert s.file_hash_table filename s.fresh ≡ ok table
    → IsCreated s
        (linked s (new_file w filename username ss) table)
        s.fresh
        filename
        username
        ss
        w.raw.pending_requests
unfolding linked check_permission grants
new_file-IsCreated w filename username ss s table inserted = record {
  file = new_file w filename username ss;
  at_p = ground arith;
  named = refl;
  owned = refl;
  placed = refl;
  requests = refl;
  allowed = λ user perm. ground arith;
  listed = refl;
  indexed = λ name. search-insert s.file_hash_table filename name s.fresh inserted;
  other_files = λ q ne. ground (arith, ne);
}

-- The handler from the new struct on.
create_at-runs :
    (w : World) (filename username : Text) (ss : StorageServer) (s t : NameServer)
    → add_file w filename username ss s ≡ ok (tt, t)
    → save_metadata t ≡ ok (tt, record t { disk = disk_after t })
    → create_at w filename username ss s
      ≡ and_then
          (connect_and_send_to_ss (w.peer ss (create_command filename)))
          λ answer. ok (create_result filename answer, record t { disk = disk_after t })
unfolding create_at
create_at-runs w filename username ss s t added saved =
    elim (Run-cases (connect_and_send_to_ss (w.peer ss (create_command filename)))) [
      | inl (answer, e) ↦ ground (arith, added, saved, e)
      | inr (inl (e, h)) ↦ ground (arith, added, saved, h)
      | inr (inr h) ↦ ground (arith, added, saved, h)
    ]

-- If no file has the name, a Storage Server is registered, every listed file has one, and the names
-- fit, then `handle_create` keeps the new file whatever the Storage Server answers: where the
-- exchange ends, with an answer or without contact, the handler returns the reply for that end, and
-- the file is known, also if the Storage Server refused it; where the exchange blocks or faults, so
-- does the handler.
pub create_keeps :
    (w : World) (filename username : Text) (ss : StorageServer) (servers : List StorageServer)
    (s : NameServer) (cache : LruCache)
    → Misses filename s cache
    → s.ss_list ≡ ss ∷ servers
    → AreStored s.files s.file_list
    → length filename < 100
    → length username < 50
    → (t : NameServer) × ((handle_create w filename username s
          ≡ and_then
              (connect_and_send_to_ss (w.peer ss (create_command filename)))
              λ answer. ok (create_result filename answer, t))
        × IsCreated s t s.fresh filename username ss w.raw.pending_requests)
unfolding handle_create linked
create_keeps w filename username ss servers s cache missing registered stored short short_user =
    let s' = with_cache s cache in
    let (table, inserted) = ht_insert-fits s.file_hash_table filename s.fresh short in
    let t = linked s' (new_file w filename username ss) table in
    let made : IsCreated s' t s.fresh filename username ss w.raw.pending_requests =
      new_file-IsCreated w filename username ss s' table inserted in
    (
      record t { disk = disk_after t },
      (
        ground (
          arith,
          missing,
          registered,
          create_at-runs w filename username ss s' t
              (add_file-links w filename username ss s' table short short_user inserted)
              (save_metadata-total t (
                (new_file w filename username ss, ground arith, (ss, refl)),
                AreStored-put s.files s.file_list s.fresh (new_file w filename username ss) ss refl
                    stored,
              )),
        ),
        record {
          file = made.file;
          at_p = made.at_p;
          named = made.named;
          owned = made.owned;
          placed = made.placed;
          requests = made.requests;
          allowed = made.allowed;
          listed = made.listed;
          indexed = made.indexed;
          other_files = made.other_files;
        },
      ),
    )
