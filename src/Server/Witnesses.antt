-- ===== src/Server/Witnesses.antt =====
-- The theorems on the Name Server at work on the example.
use lang_os_distributed_file.Server.Meta.{count_loop, white}
use lang_os_distributed_file.Server.Meta.Count.{count_loop-counts}
use lang_os_distributed_file.Server.Register.{register_files}
use lang_os_distributed_file.Server.Register.Files.{register_each, register_files_each}
use lang_os_distributed_file.Base.{
  map, none_of, member, ◌+◌, length, fields, ℕ, ◌≡◌, refl, arith, none, some, false, [], ◌∷◌, ◌++◌,
  Text, lit, ok, fault, blocked, and_then, ℤ, contains, before, starts_with, if◌then◌else◌, ◌==◌,
  ◌||◌, print_int, wild_pointer, use_after_free,
}
use lang_os_distributed_file.Table.{ht_delete}
use lang_os_distributed_file.Cache.{LruCache}
use lang_os_distributed_file.Server.{User, NameServer, FileMetadata, boot}
use lang_os_distributed_file.Server.Find.{check_permission}
use lang_os_distributed_file.Server.Find.Frame.{Finds, with_cache}
use lang_os_distributed_file.Server.Save.{save_metadata}
use lang_os_distributed_file.Server.Access.{
  access_set, access_removed, nothing_to_remove, handle_add_access, handle_rem_access,
}
use lang_os_distributed_file.Server.Access.Nodes.{mentions}
use lang_os_distributed_file.Server.Access.Relist.{IsRightsOnly}
use lang_os_distributed_file.Server.Access.Grant.{grant_exact, revoke_exact}
use lang_os_distributed_file.Server.Reply.{reply}
use lang_os_distributed_file.Server.Redirect.{
  denied, write_denied, redirect, handle_read, handle_write, handle_stream,
}
use lang_os_distributed_file.Server.Redirect.Guard.{grant_opens, revoke_closes}
use lang_os_distributed_file.Server.Exchange.{cut_marker, connect_and_send_to_ss}
use lang_os_distributed_file.Server.Exchange.Laws.{answering, exchange_complete, exchange_blocks}
use lang_os_distributed_file.Server.Create.{
  file_exists, handle_create, create_result, create_command,
}
use lang_os_distributed_file.Server.Create.Keeps.{IsCreated, create_keeps}
use lang_os_distributed_file.Server.Delete.{handle_delete, file_deleted}
use lang_os_distributed_file.Server.Delete.Dangling.{have_other_names, lacks}
use lang_os_distributed_file.Server.Delete.Stale.{delete_leaves_stale}
use lang_os_distributed_file.Server.Restore.{load_metadata, load_user, for_lines}
use mathlib.Core.List.{reverse}
use lang_os_distributed_file.Server.Restore.Users.{AreUserNames, save_then_boot}
use lang_os_distributed_file.Server.Restore.Boot.{HasNoFiles, boot-HasNoFiles, restores_users_only}
use lang_os_distributed_file.Server.Requests.{handle_approve_req, handle_req_access, access_granted}
use lang_os_distributed_file.Server.Requests.Approve.{IsApproved, approve_answers}
use lang_os_distributed_file.Server.Requests.Fresh.{create_then_request}
use lang_os_distributed_file.Server.Register.{register_user}
use lang_os_distributed_file.Server.Register.Users.{IsRegistered, register_user-registers}
use lang_os_distributed_file.Server.Example.{
  ss, chunks, file, w, disk, s, cache, cache_after_miss, found, missing, stored, distinct,
  others_differ, grant, acknowledged, single, letters, sound, indexed,
}

grant_exact_example :
    (t : NameServer) × ((f' : FileMetadata) × ((handle_add_access w
            (lit "a")
            (lit "bob")
            (lit "R")
            (lit "al")
            s
          ≡ ok (access_set (lit "a") (lit "bob") (lit "R"), t))
        × (IsRightsOnly s t 0 file f' (lit "bob")
            × ((q : ℕ) → check_permission f' (lit "bob") q ≡ (b'R' == b'W' || b'R' == q)))))
grant_exact_example =
    grant_exact w (lit "a") (lit "bob") (lit "R") (lit "al") s cache 0 file found refl refl stored
      distinct grant refl others_differ

revoke_exact_example :
    (t : NameServer) × ((f' : FileMetadata) × ((handle_rem_access (lit "a") (lit "bob") (lit "al") s
          ≡ ok (
            (if mentions file.access_list (lit "bob")
                then access_removed (lit "a") (lit "bob")
                else nothing_to_remove (lit "a") (lit "bob")),
            t,
          ))
        × (IsRightsOnly s t 0 file f' (lit "bob")
            × ((q : ℕ) → check_permission f' (lit "bob") q ≡ false))))
revoke_exact_example =
    revoke_exact w (lit "a") (lit "bob") (lit "R") (lit "al") s cache 0 file found refl refl stored
      distinct others_differ

grant_opens_example :
    (t : NameServer) × ((handle_add_access w (lit "a") (lit "bob") (lit "R") (lit "al") s
        ≡ ok (access_set (lit "a") (lit "bob") (lit "R"), t))
      × ((cache' : LruCache)
          → Finds (lit "a") t 0 cache'
          → (handle_read (lit "a") (lit "bob") t
              ≡ ok (reply (redirect (lit "REDIRECT_READ") ss (lit "a")), with_cache t cache'))
            × ((n : ℤ)
                → handle_write (lit "a") n (lit "bob") t
                  ≡ ok (
                    (if b'R' == b'W'
                        then reply (
                            redirect (lit "REDIRECT_WRITE") ss (lit "a")
                            ++ (lit ";" ++ print_int n))
                        else write_denied (lit "a")),
                    with_cache t cache',
                  ))))
grant_opens_example =
    grant_opens w (lit "a") (lit "bob") (lit "R") (lit "al") s cache 0 file ss found refl refl refl
      stored distinct others_differ grant refl

revoke_closes_example :
    (t : NameServer) × ((answer : Text) × ((handle_rem_access (lit "a") (lit "bob") (lit "al") s
          ≡ ok (answer, t))
        × ((cache' : LruCache)
            → Finds (lit "a") t 0 cache'
            → (handle_read (lit "a") (lit "bob") t ≡ ok (denied (lit "a"), with_cache t cache'))
              × ((handle_stream (lit "a") (lit "bob") t
                    ≡ ok (denied (lit "a"), with_cache t cache'))
                  × ((n : ℤ)
                      → handle_write (lit "a") n (lit "bob") t
                        ≡ ok (write_denied (lit "a"), with_cache t cache'))))))
revoke_closes_example =
    revoke_closes w (lit "a") (lit "bob") (lit "R") (lit "al") s cache 0 file ss found refl refl
      refl stored distinct others_differ

exchange_complete_example :
    connect_and_send_to_ss (answering chunks false) ≡ ok (some (lit "ACK_DELETE\n"))
unfolding before starts_with
exchange_complete_example =
    exchange_complete chunks false (lit "ACK_DELETE\n") (omega arith, (omega arith, tt))
      (omega arith) refl

exchange_blocks_example : connect_and_send_to_ss (answering (lit "hi" ∷ []) false) ≡ blocked
unfolding contains before starts_with
exchange_blocks_example = exchange_blocks (lit "hi" ∷ []) (omega arith, tt) (omega arith) refl

create_keeps_example :
    (t : NameServer) × ((handle_create w (lit "b") (lit "al") s
        ≡ and_then
            (connect_and_send_to_ss (w.peer ss (create_command (lit "b"))))
            λ answer. ok (create_result (lit "b") answer, t))
      × IsCreated s t 1 (lit "b") (lit "al") ss none)
create_keeps_example =
    create_keeps w (lit "b") (lit "al") ss [] s cache_after_miss missing refl stored (omega arith)
      (omega arith)

delete_leaves_stale_example :
    (t : NameServer) × (handle_delete w (lit "a") (lit "al") s ≡ ok (file_deleted (lit "a"), t))
    × (t.files 0 ≡ none)
    × (t.file_list ≡ [])
    × (t.file_hash_table ≡ ht_delete s.file_hash_table (lit "a"))
    × (handle_read (lit "a") (lit "bob") t ≡ fault use_after_free)
    × ((u : NameServer) × (handle_create w (lit "a") (lit "bob") t ≡ ok (file_exists (lit "a"), u)))
unfolding have_other_names lacks
delete_leaves_stale_example =
    delete_leaves_stale w (lit "a") (lit "al") (lit "bob") (lit "ACK_DELETE\n") s [] [] 0 file ss
      sound indexed refl refl refl exchange_complete_example acknowledged refl refl refl stored

restores_users_only_example :
    (load_metadata w (boot disk) ≡ for_lines 7 load_user (lit "al\nbob\n") (boot disk))
    × ((t : NameServer) → load_metadata w (boot disk) ≡ ok (tt, t) → HasNoFiles t)
unfolding boot
restores_users_only_example = restores_users_only w (boot disk) (boot-HasNoFiles disk)

approve_answers_example :
    (t : NameServer) × ((handle_approve_req (lit "a") (lit "bob") (lit "al") s
        ≡ ok (access_granted (lit "bob"), t))
      × IsApproved s t 0 file (record { username = lit "bob" } ∷ []) (lit "bob"))
approve_answers_example =
    approve_answers (lit "a") (lit "bob") (lit "al") s cache 0 file
      (record { username = lit "bob" } ∷ []) found refl refl refl single letters (omega arith)
      stored

answered :
    connect_and_send_to_ss (w.peer ss (create_command (lit "b"))) ≡ ok (some (lit "ACK_DELETE\n"))
unfolding connect_and_send_to_ss cut_marker contains before starts_with
answered = refl

create_then_request_example :
    (t : NameServer) × (handle_create w (lit "b") (lit "al") s
      ≡ ok (create_result (lit "b") (some (lit "ACK_DELETE\n")), t))
    × (handle_req_access w (lit "b") (lit "bob") t ≡ fault wild_pointer)
create_then_request_example =
    create_then_request w w (lit "b") (lit "al") (lit "bob") (some (lit "ACK_DELETE\n")) ss [] s
      cache_after_miss sound missing refl stored (omega arith) (omega arith) refl answered
      others_differ

register_user-registers_example :
    (t : NameServer) × ((register_user (lit "bob") (lit "10.0.0.9") s ≡ ok (tt, t))
      × IsRegistered s t (lit "bob") (lit "10.0.0.9"))
register_user-registers_example =
    register_user-registers (lit "bob") (lit "10.0.0.9") s (omega arith) (omega arith)

count_loop-counts_example :
    count_loop 12 (lit "two  words\n") 0 ≡ 0 + length (fields white (lit "two  words\n"))
count_loop-counts_example = count_loop-counts 12 (lit "two  words\n") 0 (omega arith)

register_files_each_example :
    register_files 5 w ss (lit "b,,c") s ≡ register_each w ss (fields (lit ",") (lit "b,,c")) s
register_files_each_example = register_files_each w ss 5 (lit "b,,c") s (omega arith)

user_names : AreUserNames s.user_list
unfolding none_of member
user_names = (record { given = λ e. cc; one_line = refl; short = omega arith }, tt)

save_then_boot_example :
    (t u : NameServer) × (save_metadata s ≡ ok (tt, t))
    × (load_metadata w (boot t.disk) ≡ ok (tt, u))
    × (map (λ (user : User). user.username) u.user_list ≡ reverse (lit "bob" ∷ []))
    × HasNoFiles u
save_then_boot_example = save_then_boot w s stored user_names refl
