-- ===== src/Server/Redirect/Guard.antt =====
-- Who is sent to a Storage Server.
use lang_os_distributed_file.Base.{
  ℕ, some, true, false, ◌++◌, Text, ℤ, ok, ◌≡◌, arith, ◌∙◌, lit, str_eq, ◌==◌, if◌then◌else◌,
  print_int,
}
use lang_os_distributed_file.Cache.{LruCache}
use lang_os_distributed_file.Server.{NameServer, FileMetadata, StorageServer, World, load}
use lang_os_distributed_file.Server.Find.{with_file, check_permission}
use lang_os_distributed_file.Server.Find.Frame.{Finds, with_cache}
use lang_os_distributed_file.Server.Save.Total.{AreStored}
use lang_os_distributed_file.Server.Access.{
  first_char, access_set, handle_add_access, handle_rem_access,
}
use lang_os_distributed_file.Server.Access.Nodes.{are_distinct}
use lang_os_distributed_file.Server.Access.Relist.{IsGrant}
use lang_os_distributed_file.Server.Access.Grant.{grant_exact, revoke_exact}
use lang_os_distributed_file.Server.Reply.{reply}
use lang_os_distributed_file.Server.Redirect.{
  redirect_to, denied, write_denied, redirect, handle_read, handle_write, handle_stream,
}

-- What the three redirecting handlers answer for a file that is found, and what they change: the
-- cache. The server's address is told to those who have the permission, and to nobody else.
pub record IsGuarded (s : NameServer) (filename username : Text) (cache : LruCache)
    (f : FileMetadata) (ss : StorageServer) : Type 0 where
  pub reads :
      handle_read filename username s
      ≡ ok (
        (if check_permission f username b'R'
            then reply (redirect (lit "REDIRECT_READ") ss filename)
            else denied filename),
        with_cache s cache,
      )
  pub streams :
      handle_stream filename username s
      ≡ ok (
        (if check_permission f username b'R'
            then reply (redirect (lit "REDIRECT_STREAM") ss filename)
            else denied filename),
        with_cache s cache,
      )
  pub writes :
      (n : ℤ)
      → handle_write filename n username s
        ≡ ok (
          (if check_permission f username b'W'
              then reply (redirect (lit "REDIRECT_WRITE") ss filename ++ (lit ";" ++ print_int n))
              else write_denied filename),
          with_cache s cache,
        )

-- For a file that is found and has a Storage Server, a read, a stream and a write are redirected to
-- that server exactly if the user has the permission, are refused otherwise, and change nothing but
-- the cache.
pub redirects :
    (s : NameServer) (filename username : Text) (cache : LruCache) (p : ℕ) (f : FileMetadata)
    (ss : StorageServer)
    → Finds filename s p cache
    → s.files p ≡ some f
    → f.ss ≡ some ss
    → IsGuarded s filename username cache f ss
unfolding handle_read handle_stream handle_write with_file load redirect_to
redirects s filename username cache p f ss found at_p server = record {
  reads = ground (arith, found, at_p, server);
  streams = ground (arith, found, at_p, server);
  writes = λ n. ground (arith, found, at_p, server);
}

module _ (w : World) (filename target perm owner : Text) (s : NameServer) (cache : LruCache) (p : ℕ)
    (f : FileMetadata) (ss : StorageServer) (found : Finds filename s p cache)
    (at_p : s.files p ≡ some f) (server : f.ss ≡ some ss) (own : f.owner ≡ owner)
    (stored : AreStored s.files s.file_list) (distinct : are_distinct f.access_list ≡ true)
    (other : str_eq owner target ≡ false) where
  -- After the owner of a file has granted 'R' or 'W' to another registered user, in any state of the
  -- cache in which the file is still found, that user's read is redirected to the file's server, and
  -- the write is redirected exactly if the letter was 'W'.
  pub grant_opens :
      IsGrant s target perm
      → w.memory ≡ true
      → (t : NameServer) × ((handle_add_access w filename target perm owner s
            ≡ ok (access_set filename target perm, t))
          × ((cache' : LruCache)
              → Finds filename t p cache'
              → (handle_read filename target t
                  ≡ ok (reply (redirect (lit "REDIRECT_READ") ss filename), with_cache t cache'))
                × ((n : ℤ)
                    → handle_write filename n target t
                      ≡ ok (
                        (if first_char perm == b'W'
                            then reply (
                                redirect (lit "REDIRECT_WRITE") ss filename
                                ++ (lit ";" ++ print_int n))
                            else write_denied filename),
                        with_cache t cache',
                      ))))
  grant_opens g memory =
      let (t, (f', (runs, (only, rights)))) =
        grant_exact w filename target perm owner s cache p f found at_p own stored distinct g memory
          other in
      (
        t,
        (
          runs,
          λ cache' again.
              let guard =
                redirects t filename target cache' p f' ss again only.at_p
                  (only.same_ss ∙ server) in
              (
                ground (arith, guard.reads, rights b'R', g.valid),
                λ n. ground (arith, guard.writes n, rights b'W', g.valid),
              ),
        ),
      )

  -- After the owner of a file has taken away another user's access, in any state of the cache in which
  -- the file is still found, that user is redirected neither to read, nor to stream, nor to write.
  pub revoke_closes :
      (t : NameServer) × ((answer : Text) × ((handle_rem_access filename target owner s
            ≡ ok (answer, t))
          × ((cache' : LruCache)
              → Finds filename t p cache'
              → (handle_read filename target t ≡ ok (denied filename, with_cache t cache'))
                × ((handle_stream filename target t ≡ ok (denied filename, with_cache t cache'))
                    × ((n : ℤ)
                        → handle_write filename n target t
                          ≡ ok (write_denied filename, with_cache t cache'))))))
  revoke_closes =
      let (t, (f', (runs, (only, rights)))) =
        revoke_exact w filename target perm owner s cache p f found at_p own stored distinct
          other in
      (
        t,
        (
          _,
          (
            runs,
            λ cache' again.
                let guard =
                  redirects t filename target cache' p f' ss again only.at_p
                    (only.same_ss ∙ server) in
                (
                  ground (arith, guard.reads, rights b'R'),
                  (
                    ground (arith, guard.streams, rights b'R'),
                    λ n. ground (arith, guard.writes n, rights b'W'),
                  ),
                ),
          ),
        ),
      )
