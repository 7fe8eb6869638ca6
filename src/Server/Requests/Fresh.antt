-- ===== src/Server/Requests/Fresh.antt =====
-- Requests on a file that `handle_create` has just made.
use lang_os_distributed_file.Base.{
  ℕ, Option, and_then, ◌≡◌, ◌<◌, ◌∙◌, ap, arith, none, some, false, List, ◌∷◌, Text, ok, fault,
  wild_pointer, length, str_eq, str_eq_refl,
}
use mathlib.Core.Path.{subst}
use lang_os_distributed_file.Table.{ht_search}
use lang_os_distributed_file.Cache.{LruCache}
use lang_os_distributed_file.Server.{NameServer, StorageServer, World}
use lang_os_distributed_file.Server.Find.Frame.{Misses, with_cache}
use lang_os_distributed_file.Server.Save.Total.{AreStored}
use lang_os_distributed_file.Server.Exchange.{connect_and_send_to_ss}
use lang_os_distributed_file.Server.Create.{handle_create, create_command, create_result}
use lang_os_distributed_file.Server.Create.Keeps.{create_keeps}
use lang_os_distributed_file.Server.Sound.{IsSound, Upholds}
use lang_os_distributed_file.Server.Sound.Search.{find_file_lem}
use lang_os_distributed_file.Server.Sound.Creates.{Keeps-create}
use lang_os_distributed_file.Server.Requests.{handle_req_access}
use lang_os_distributed_file.Server.Requests.Approve.{request-wild}

-- A user creates a file in a sound state in which a Storage Server is registered and every listed file
-- has one, under a name that is free, the names fitting their buffers, and the exchange with the
-- Storage Server ends, with an answer or without; the memory that malloc gave for the file holds no
-- list of requests. Then the handler returns, and the first request for access to the file, by any
-- other user, follows a wild pointer.
pub create_then_request :
    (w w' : World) (filename owner username : Text) (answer : Option Text) (ss : StorageServer)
    (servers : List StorageServer) (s : NameServer) (cache : LruCache)
    → IsSound s
    → Misses filename s cache
    → s.ss_list ≡ ss ∷ servers
    → AreStored s.files s.file_list
    → length filename < 100
    → length owner < 50
    → w.raw.pending_requests ≡ none
    → connect_and_send_to_ss (w.peer ss (create_command filename)) ≡ ok answer
    → str_eq owner username ≡ false
    → (t : NameServer) × (handle_create w filename owner s ≡ ok (create_result filename answer, t))
      × (handle_req_access w' filename username t ≡ fault wild_pointer)
create_then_request w w' filename owner username answer ss servers s cache sound missing registered
      stored short short_owner wild ends other =
    let (t, (runs, made)) =
      create_keeps w filename owner ss servers s cache missing registered stored short
        short_owner in
    let created : handle_create w filename owner s ≡ ok (create_result filename answer, t) =
      runs ∙ ap (λ r. and_then r λ answer. ok (create_result filename answer, t)) ends in
    let kept = subst (Upholds s) created (Keeps-create w filename owner s sound) in
    let lookup = find_file_lem t filename kept.0 in
    let indexed : ht_search t.file_hash_table filename ≡ some s.fresh =
      made.indexed filename ∙ ground (arith, str_eq_refl filename) in
    let found = lookup.finds ∙ ap (λ (p : Option ℕ). ok (p, with_cache t lookup.cache)) indexed in
    (
      t,
      created,
      request-wild w' filename username t lookup.cache s.fresh made.file found made.at_p
          (made.requests ∙ wild) (made.allowed username b'R' ∙ other),
    )
