-- ===== src/Session/Reach.antt =====
-- The states of the Name Server (src/name_server/name_server.c) that connections and requests can
-- bring about as long as nobody deletes a file.
use lang_os_distributed_file.Base.{
  ◌≡◌, ◌≢◌, refl, sym, ◌∙◌, [], Text, Exec, Run, ok, fault, use_after_free, false, ◌>>◌, pure, ◌≤◌,
  arith,
}
use mathlib.Core.Path.{subst}
use lang_os_distributed_file.Table.{ht_search}
use lang_os_distributed_file.Cache.{LruCache, cache_size}
use lang_os_distributed_file.Cache.Refine.{lru_init-Represents}
use lang_os_distributed_file.Cache.Ideal.{file_of, contents}
use lang_os_distributed_file.Server.{NameServer, Disk, World, boot}
use lang_os_distributed_file.Server.Find.{find_file}
use lang_os_distributed_file.Server.Find.Frame.{with_cache}
use lang_os_distributed_file.Server.Restore.{load_metadata}
use lang_os_distributed_file.Server.Restore.Boot.{restores_users_only, boot-HasNoFiles}
use lang_os_distributed_file.Server.Sound.{IsSound, Upholds, Keeps, Keeps-bind, Keeps-pure}
use lang_os_distributed_file.Server.Sound.Search.{find_file_lem}
use lang_os_distributed_file.Session.{Session, parse_command, serve, open_session}
use lang_os_distributed_file.Session.Keeps.{
  asks_delete, Keeps-serve, Keeps-open_session, Keeps-load_users,
}

-- What other threads do while a handler has released the mutex: they serve connections and requests
-- of their own, none of which is a DELETE, one after another.
pub data IsQuiet : Exec NameServer (Unit {0}) → Type 0 where
  idle : IsQuiet (pure tt)
  connection :
      {m : Exec NameServer (Unit {0})} (w : World) (ip buffer : Text)
      → IsQuiet m
      → IsQuiet (open_session w ip buffer >> m)
  request :
      {m : Exec NameServer (Unit {0})} (w : World) (user buffer : Text)
      → asks_delete (parse_command buffer) ≡ false
      → IsQuiet w.others
      → IsQuiet m
      → IsQuiet (serve w user buffer >> m)

-- The reachable states: `main` has loaded the metadata, a connection has been opened, or a request
-- other than DELETE has been served while the other threads were quiet.
pub data Reach : NameServer → Type 0 where
  started :
      (w : World) (disk : Disk) {t : NameServer}
      → load_metadata w (boot disk) ≡ ok (tt, t)
      → Reach t
  opened :
      (w : World) (ip buffer : Text) {s t : NameServer} {r : Session × Text}
      → Reach s
      → open_session w ip buffer s ≡ ok (r, t)
      → Reach t
  served :
      (w : World) (user buffer : Text) {s t : NameServer} {reply : Text}
      → Reach s
      → asks_delete (parse_command buffer) ≡ false
      → IsQuiet w.others
      → serve w user buffer s ≡ ok (reply, t)
      → Reach t

Keeps-quiet : {m : Exec NameServer (Unit {0})} → IsQuiet m → Keeps m
Keeps-quiet idle = Keeps-pure tt
Keeps-quiet (connection {m} w ip buffer rest) =
    Keeps-bind (open_session w ip buffer) (λ u. m) (Keeps-open_session w ip buffer)
      λ u. Keeps-quiet rest
Keeps-quiet (request {m} w user buffer kept others rest) =
    Keeps-bind (serve w user buffer) (λ u. m) (Keeps-serve w (Keeps-quiet others) user buffer kept)
      λ u. Keeps-quiet rest

boot-IsSound : (disk : Disk) → IsSound (boot disk)
unfolding boot contents file_of
boot-IsSound disk = record {
  entries = [];
  cached = lru_init-Represents;
  agrees = λ name p held. cc;
  named = λ name p found. cc ((boot-HasNoFiles disk).indexed name);
  live = tt;
  unused = λ p above. refl;
}

ended :
    {A : Type 0} (s : NameServer) (r : Run (A × NameServer)) (x : A × NameServer)
    → r ≡ ok x
    → Upholds s r
    → IsSound x.1
ended s r x e h = (subst (λ r. Upholds s r) e h).0

-- In every reachable state the pointers agree: the cache is well formed, and each name it holds, the
-- table has at the same address; what the table finds under a name is a live file of that name; and
-- every listed file is alive.
pub reach_sound : {s : NameServer} → Reach s → IsSound s
reach_sound (started w disk {t} h) =
    let same = (restores_users_only w (boot disk) (boot-HasNoFiles disk)).0 in
    ended (boot disk) _ (tt, t) (sym same ∙ h)
      (Keeps-load_users _ _ (boot disk) (boot-IsSound disk))
reach_sound (opened w ip buffer {s} {t} {r} before h) =
    ended s _ (r, t) h (Keeps-open_session w ip buffer s (reach_sound before))
reach_sound (served w user buffer {s} {t} {reply} before kept quiet h) =
    ended s _ (reply, t) h
      (Keeps-serve w (Keeps-quiet quiet) user buffer kept s (reach_sound before))

-- In a reachable state no request but DELETE reads freed memory, while the other threads are quiet.
pub reach_reads_live :
    {s : NameServer} (w : World) (user buffer : Text)
    → Reach s
    → asks_delete (parse_command buffer) ≡ false
    → IsQuiet w.others
    → serve w user buffer s ≢ fault use_after_free
reach_reads_live {s} w user buffer reach kept quiet bad =
    let none_freed = Keeps-serve w (Keeps-quiet quiet) user buffer kept s (reach_sound reach) in
    subst (λ r. Upholds s r) bad none_freed refl

-- In a reachable state `find_file` returns, and returns what a search of the table alone would: the
-- cache in front of the table changes no answer. Nothing but the cache changes.
pub find_file_searches :
    {s : NameServer} (filename : Text)
    → Reach s
    → (cache : LruCache) × (find_file filename s
        ≡ ok (ht_search s.file_hash_table filename, with_cache s cache))
      × (cache.size ≤ cache_size)
find_file_searches {s} filename reach =
    let l = find_file_lem s filename (reach_sound reach) in
    (l.cache, l.finds, omega (arith, l.sound.cached.counted, l.sound.cached.room))
