-- ===== src/Server/Sound/Search.antt =====
-- `find_file` of src/name_server/CRWD.c in a sound state: with the cache in front it finds what a
-- search of the table finds.
use lang_os_distributed_file.Base.{
  ℕ, ◌≡◌, sym, ◌∙◌, ap, Option, some, List, Text, arith, Run, ok, Option-cases, inl, inr,
}
use lang_os_distributed_file.Table.{ht_search}
use lang_os_distributed_file.Cache.{LruCache}
use lang_os_distributed_file.Cache.Order.{Entry}
use lang_os_distributed_file.Cache.Shape.{Represents}
use lang_os_distributed_file.Cache.Uses.{lru_get_lem, lru_put_lem}
use lang_os_distributed_file.Cache.Recall.{file_of-touch, file_of-admit, file_of-admit_self}
use lang_os_distributed_file.Cache.Ideal.{file_of, contents}
use lang_os_distributed_file.Server.{NameServer, load}
use lang_os_distributed_file.Server.Find.{find_file, search_table, cache_file}
use lang_os_distributed_file.Server.Find.Frame.{with_cache}
use lang_os_distributed_file.Server.Sound.{IsSound}

-- The state with another cache that agrees with the table, too.
recached :
    (s : NameServer) (v : IsSound s) (cache : LruCache) (es : List Entry)
    → Represents cache es
    → ((name : Text) (p : ℕ)
        → file_of name (contents es) ≡ some p
        → ht_search s.file_hash_table name ≡ some p)
    → IsSound (with_cache s cache)
recached s v cache es r agrees = record {
  entries = es;
  cached = r;
  agrees = agrees;
  named = v.named;
  live = v.live;
  unused = v.unused;
}

-- A lookup in a sound state returns, finds what the table has, and leaves a sound state whose cache
-- holds the file that was found.
pub record IsLookup (s : NameServer) (filename : Text) (r : Run (Option ℕ × NameServer))
    : Type 0 where
  pub cache : LruCache
  pub finds : r ≡ ok (ht_search s.file_hash_table filename, with_cache s cache)
  pub sound : IsSound (with_cache s cache)
  pub held : file_of filename (contents sound.entries) ≡ ht_search s.file_hash_table filename

pub find_file_lem :
    (s : NameServer) (filename : Text) → IsSound s → IsLookup s filename (find_file filename s)
unfolding find_file search_table cache_file load recached
find_file_lem s filename v =
    let m = contents v.entries in
    let (cache, es, got, r, moved) = lru_get_lem s.file_cache v.entries filename v.cached in
    let same : (name : Text) → file_of name (contents es) ≡ file_of name m =
      λ name. ap (file_of name) moved ∙ file_of-touch filename name m in
    let agrees : (name : Text) (p : ℕ)
        → file_of name (contents es) ≡ some p
        → ht_search s.file_hash_table name ≡ some p =
      λ name p h. v.agrees name p (sym (same name) ∙ h) in
    elim (Option-cases (file_of filename m)) [
      | inr (p, hit) ↦ record {
        cache = cache;
        finds = ground (arith, got, hit, v.agrees filename p hit);
        sound = recached s v cache es r agrees;
        held = same filename ∙ hit ∙ sym (v.agrees filename p hit);
      }
      | inl miss ↦ elim (Option-cases (ht_search s.file_hash_table filename)) [
        | inl absent ↦ record {
          cache = cache;
          finds = ground (arith, got, miss, absent);
          sound = recached s v cache es r agrees;
          held = same filename ∙ miss ∙ sym absent;
        }
        | inr (p, found) ↦
            let (f, at_p, named, short) = v.named filename p found in
            let (cache', es', put, r', admitted) = lru_put_lem cache es p filename r short in
            let absent = same filename ∙ miss in
            record {
              cache = cache';
              finds = ground (arith, got, miss, found, at_p, named, put);
              sound = recached s v cache' es' r' (λ name q h.
                  elim (file_of-admit p filename name (contents es) q absent
                    (sym (ap (file_of name) admitted) ∙ h)) [
                      | inl (is, at) ↦ rw (← is, ← at) found
                      | inr old ↦ agrees name q old
                    ]);
              held =
                  ap (file_of filename) admitted
                  ∙ file_of-admit_self p filename (contents es) absent
                  ∙ sym found;
            }
      ]
    ]
