-- ===== src/Server/Delete/Stale.antt =====
-- After a delete the cache of a sound state still has the name.
use lang_os_distributed_file.Base.{
  ℕ, none, some, true, List, ◌∷◌, ◌++◌, Text, ok, fault, ◌≡◌, ◌∙◌, ap, arith, lit, contains,
  use_after_free,
}
use lang_os_distributed_file.Table.{ht_search, ht_delete}
use lang_os_distributed_file.Cache.{LruCache, lru_get}
use lang_os_distributed_file.Cache.Uses.{lru_get_lem}
use lang_os_distributed_file.Server.{NameServer, FileMetadata, StorageServer, World}
use lang_os_distributed_file.Server.Find.Frame.{Finds, with_cache}
use lang_os_distributed_file.Server.Save.Total.{AreStored}
use lang_os_distributed_file.Server.Exchange.{connect_and_send_to_ss}
use lang_os_distributed_file.Server.Redirect.{handle_read}
use lang_os_distributed_file.Server.Create.{handle_create, file_exists}
use lang_os_distributed_file.Server.Sound.{IsSound}
use lang_os_distributed_file.Server.Sound.Search.{find_file_lem}
use lang_os_distributed_file.Server.Delete.{handle_delete, delete_command, file_deleted}
use lang_os_distributed_file.Server.Delete.Dangling.{
  have_other_names, lacks, delete_then_read, find_file-hit,
}

-- A name that is found is not created.
handle_create-exists :
    (w : World) (filename user : Text) (s : NameServer) (cache : LruCache) (p : ℕ)
    → Finds filename s p cache
    → handle_create w filename user s ≡ ok (file_exists filename, with_cache s cache)
unfolding handle_create
handle_create-exists w filename user s cache p found = ground (arith, found)

-- Suppose that the pointers of the server agree, that the table has the file at `p`, that its owner
-- deletes it, and that the Storage Server acknowledges it; that the file stands once in the list and
-- is the first there of its name, and that every listed file has a Storage Server. Then the delete
-- succeeds, and the file is gone from the list and from the heap, and its key has been taken out of
-- the table once. But the cache still has the name. So the next request that looks the name up, by
-- whomever, goes wrong: a read reads freed memory, and a create is refused since the file exists.
pub delete_leaves_stale :
    (w : World) (filename owner user answer : Text) (s : NameServer) (front back : List ℕ) (p : ℕ)
    (f : FileMetadata) (ss : StorageServer)
    → IsSound s
    → ht_search s.file_hash_table filename ≡ some p
    → s.files p ≡ some f
    → f.owner ≡ owner
    → f.ss ≡ some ss
    → connect_and_send_to_ss (w.peer ss (delete_command filename)) ≡ ok (some answer)
    → contains answer (lit "ACK_DELETE") ≡ true
    → s.file_list ≡ front ++ (p ∷ back)
    → have_other_names s.files filename front ≡ true
    → lacks p (front ++ back) ≡ true
    → AreStored s.files (front ++ (p ∷ back))
    → (t : NameServer) × (handle_delete w filename owner s ≡ ok (file_deleted filename, t))
      × (t.files p ≡ none)
      × (t.file_list ≡ front ++ back)
      × (t.file_hash_table ≡ ht_delete s.file_hash_table filename)
      × (handle_read filename user t ≡ fault use_after_free)
      × ((u : NameServer) × (handle_create w filename user t ≡ ok (file_exists filename, u)))
delete_leaves_stale w filename owner user answer s front back p f ss v indexed at_p own server
      answered acknowledged listed first once stored =
    let l = find_file_lem s filename v in
    let held = l.held ∙ indexed in
    let found : Finds filename s p l.cache =
      l.finds ∙ ap (λ r. ok (r, with_cache s l.cache)) indexed in
    let (f', at_p', named, _) = v.named filename p indexed in
    let named' : f.filename ≡ filename = ground (arith, at_p, at_p', named) in
    let (cache', _, got, _, _) = lru_get_lem l.cache l.sound.entries filename l.sound.cached in
    let hit : lru_get filename l.cache ≡ ok (some p, cache') =
      got ∙ ap (λ r. ok (r, cache')) held in
    let (t, (deleted, (gone, (unlisted, (unindexed, (kept, reads)))))) =
      delete_then_read w filename owner user answer s l.cache cache' front back p f ss found at_p
        named' own server answered acknowledged listed first once stored hit in
    let again = find_file-hit filename t cache' p (rw kept hit) in
    (
      t,
      deleted,
      gone,
      unlisted,
      unindexed,
      reads,
      (with_cache t cache', handle_create-exists w filename user t cache' p again),
    )
