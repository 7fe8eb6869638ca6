-- ===== src/Server/Find/Frame.antt =====
-- `find_file` changes the cache and nothing else, and it finds what the table or the cache has.
use lang_os_distributed_file.Base.{
  ℕ, Option, none, some, Text, Exec, ok, fault, ◌≡◌, ◌∙◌, ap, arith, use_after_free,
}
use lang_os_distributed_file.Cache.{LruCache}
use lang_os_distributed_file.Server.{NameServer, FileMetadata, load, in_cache}
use lang_os_distributed_file.Server.Find.{cache_file, search_table, find_file, with_file}

-- The state with another cache.
abbrev pub with_cache : NameServer → LruCache → NameServer
with_cache s cache = record s { file_cache = cache }

in_cache-frame :
    {A : Type 0} (m : Exec LruCache A) (s s' : NameServer) (a : A)
    → in_cache m s ≡ ok (a, s')
    → s' ≡ with_cache s s'.file_cache
in_cache-frame m s s' a h = ground (arith, h)

-- A lookup leaves everything but the cache as it was.
pub find_file-frame :
    (filename : Text) (s s' : NameServer) (r : Option ℕ)
    → find_file filename s ≡ ok (r, s')
    → s' ≡ with_cache s s'.file_cache
unfolding find_file search_table cache_file load
find_file-frame filename s s' r h = ground (arith, h)

-- Handlers begin with `find_file`, and go on with the file that it found.
module _ (filename : Text) (missing : Exec NameServer Text)
    (k : ℕ → FileMetadata → Exec NameServer Text) (s s' : NameServer) where
  pub with_file-missing :
      find_file filename s ≡ ok (none, s') → with_file filename missing k s ≡ missing s'
  unfolding with_file
  with_file-missing h = ground (arith, h)

  pub with_file-found :
      (p : ℕ) (f : FileMetadata)
      → find_file filename s ≡ ok (some p, s')
      → s'.files p ≡ some f
      → with_file filename missing k s ≡ k p f s'
  unfolding with_file load
  with_file-found p f h at_p = ground (arith, h, at_p)

  pub with_file-freed :
      (p : ℕ)
      → find_file filename s ≡ ok (some p, s')
      → s'.files p ≡ none
      → with_file filename missing k s ≡ fault use_after_free
  unfolding with_file load
  with_file-freed p h at_p = ground (arith, h, at_p)

-- A lookup that finds the file at `p` and leaves the cache as `cache`. By `find_file-frame` every
-- lookup that finds a file has this form.
abbrev pub Finds : Text → NameServer → ℕ → LruCache → Type 0
Finds filename s p cache = find_file filename s ≡ ok (some p, with_cache s cache)

abbrev pub Misses : Text → NameServer → LruCache → Type 0
Misses filename s cache = find_file filename s ≡ ok (none, with_cache s cache)

pub find_file-Finds :
    (filename : Text) (s s' : NameServer) (p : ℕ)
    → find_file filename s ≡ ok (some p, s')
    → Finds filename s p s'.file_cache
find_file-Finds filename s s' p h =
    h ∙ ap (λ t. ok (some p, t)) (find_file-frame filename s s' (some p) h)
