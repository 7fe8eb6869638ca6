-- ===== src/Server/Delete/Dangling.antt =====
-- A delete frees the struct of the file, and the cache keeps its address.
use lang_os_distributed_file.Base.{
  ℕ, Option, none, some, Bool, true, false, List, [], ◌∷◌, ◌++◌, Text, ok, fault, ◌≡◌, inl, inr,
  refl, arith, lit, str_eq, str_eq_refl, ◌==◌, contains, not, ◌&&◌, Option-cases, use_after_free,
}
use lang_os_distributed_file.Table.{ht_delete}
use lang_os_distributed_file.Cache.{LruCache, lru_get}
use lang_os_distributed_file.Server.{NameServer, FileMetadata, StorageServer, World, load, write}
use lang_os_distributed_file.Server.Find.{with_file, find_file}
use lang_os_distributed_file.Server.Find.Frame.{Finds, with_cache}
use lang_os_distributed_file.Server.Save.Total.{AreStored, save_metadata-total, disk_after}
use lang_os_distributed_file.Server.Exchange.{connect_and_send_to_ss}
use lang_os_distributed_file.Server.Redirect.{handle_read}
use lang_os_distributed_file.Server.Delete.{
  unlink_file, free_file, delete_metadata, delete_result, delete_command, file_deleted,
  handle_delete,
}

-- No file of the list has the name, and each exists.
unfoldable pub have_other_names : (ℕ → Option FileMetadata) → Text → List ℕ → Bool
have_other_names files filename [] = true
have_other_names files filename (p ∷ ps) =
    (elim (files p) [ none ↦ false | some f ↦ not (str_eq f.filename filename) ])
    && have_other_names files filename ps

unlink_file-first :
    (filename : Text) (front back : List ℕ) (p : ℕ) (f : FileMetadata) (s : NameServer)
    → have_other_names s.files filename front ≡ true
    → s.files p ≡ some f
    → f.filename ≡ filename
    → unlink_file filename (front ++ (p ∷ back)) s ≡ ok (some (p, front ++ back), s)
unfolding unlink_file have_other_names load
unlink_file-first filename [] back p f s h at_p named =
    ground (arith, at_p, named, str_eq_refl filename)
unlink_file-first filename (q ∷ front) back p f s h at_p named = elim (Option-cases (s.files q)) [
  | inl absent ↦ ground (arith, h, absent)
  | inr (g, e) ↦ ground (arith, h, e, at_p, unlink_file-first filename front back p f s)
]

-- The address is not in the list.
unfoldable pub lacks : ℕ → List ℕ → Bool
lacks p [] = true
lacks p (q ∷ ps) = not (q == p) && lacks p ps

AreStored-free :
    (files : ℕ → Option FileMetadata) (front back : List ℕ) (p : ℕ)
    → lacks p (front ++ back) ≡ true
    → AreStored files (front ++ (p ∷ back))
    → AreStored (write files p none) (front ++ back)
unfolding lacks
AreStored-free files [] [] p h stored = tt
AreStored-free files [] (q ∷ back) p h (at_p, ((f, at_q, server), stored)) = (
  (f, ground (arith, h, at_q), server),
  AreStored-free files [] back p (ground (arith, h)) (at_p, stored),
)
AreStored-free files (q ∷ front) back p h ((f, at_q, server), stored) = (
  (f, ground (arith, h, at_q), server),
  AreStored-free files front back p (ground (arith, h)) stored,
)

-- The state once the file at `p` is gone from the table, the list and the heap, and is saved.
freed : NameServer → Text → ℕ → List ℕ → NameServer
freed s filename p ps =
    let t : NameServer = record s {
      file_hash_table = ht_delete s.file_hash_table filename;
      files = write s.files p none;
      file_list = ps;
    } in
    record t { disk = disk_after t }

delete_metadata-frees :
    (filename : Text) (front back : List ℕ) (p : ℕ) (f : FileMetadata) (s : NameServer)
    → s.file_list ≡ front ++ (p ∷ back)
    → have_other_names s.files filename front ≡ true
    → lacks p (front ++ back) ≡ true
    → s.files p ≡ some f
    → f.filename ≡ filename
    → AreStored s.files (front ++ (p ∷ back))
    → delete_metadata filename s ≡ ok (tt, freed s filename p (front ++ back))
unfolding delete_metadata free_file freed
delete_metadata-frees filename front back p f s listed first once at_p named stored =
    let table = ht_delete s.file_hash_table filename in
    let s' : NameServer = record s { file_hash_table = table } in
    let t : NameServer = record s' { files = write s.files p none; file_list = front ++ back } in
    ground (
      arith,
      listed,
      unlink_file-first filename front back p f s' first at_p named,
      save_metadata-total t (AreStored-free s.files front back p once stored),
    )

pub find_file-hit :
    (filename : Text) (s : NameServer) (cache : LruCache) (p : ℕ)
    → lru_get filename s.file_cache ≡ ok (some p, cache)
    → Finds filename s p cache
unfolding find_file
find_file-hit filename s cache p hit = ground (arith, hit)

handle_read-freed :
    (filename user : Text) (s : NameServer) (cache : LruCache) (p : ℕ)
    → Finds filename s p cache
    → s.files p ≡ none
    → handle_read filename user s ≡ fault use_after_free
unfolding handle_read with_file load
handle_read-freed filename user s cache p found gone = ground (arith, found, gone)

-- Suppose that the owner deletes a file, that the Storage Server acknowledges it, that the file
-- stands once in the list and is the first there of its name, and that every listed file has a
-- Storage Server. Then the delete succeeds: the file is gone from the table, from the list and from
-- the heap. But the cache is as the lookup left it: if the cache has the name, which it gives as the
-- address of the freed struct, then the next read of that name, by whomever, reads freed memory.
pub delete_then_read :
    (w : World) (filename owner user answer : Text) (s : NameServer) (cache cache' : LruCache)
    (front back : List ℕ) (p : ℕ) (f : FileMetadata) (ss : StorageServer)
    → Finds filename s p cache
    → s.files p ≡ some f
    → f.filename ≡ filename
    → f.owner ≡ owner
    → f.ss ≡ some ss
    → connect_and_send_to_ss (w.peer ss (delete_command filename)) ≡ ok (some answer)
    → contains answer (lit "ACK_DELETE") ≡ true
    → s.file_list ≡ front ++ (p ∷ back)
    → have_other_names s.files filename front ≡ true
    → lacks p (front ++ back) ≡ true
    → AreStored s.files (front ++ (p ∷ back))
    → lru_get filename cache ≡ ok (some p, cache')
    → (t : NameServer) × ((handle_delete w filename owner s ≡ ok (file_deleted filename, t))
        × ((t.files p ≡ none)
            × ((t.file_list ≡ front ++ back)
                × ((t.file_hash_table ≡ ht_delete s.file_hash_table filename)
                    × ((t.file_cache ≡ cache)
                        × (handle_read filename user t ≡ fault use_after_free))))))
unfolding handle_delete delete_result with_file load freed
delete_then_read w filename owner user answer s cache cache' front back p f ss found at_p named own
      server answered acknowledged listed first once stored hit =
    let s' = with_cache s cache in
    let t = freed s' filename p (front ++ back) in
    let deleted =
      delete_metadata-frees filename front back p f s' listed first once at_p named stored in
    (
      t,
      (
        ground
            (arith, found, at_p, own, server, answered, acknowledged, deleted, str_eq_refl owner),
        (
          ground arith,
          (
            refl,
            (
              refl,
              (
                refl,
                handle_read-freed filename user t cache' p (find_file-hit filename t cache' p hit)
                    (ground arith),
              ),
            ),
          ),
        ),
      ),
    )
