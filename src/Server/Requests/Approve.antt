-- ===== src/Server/Requests/Approve.antt =====
-- Requests for access: what a request needs, and what an approval does.
use lang_os_distributed_file.Base.{
  ℕ, ◌<◌, none, some, true, false, List, ◌∷◌, Text, ok, fault, ◌≡◌, inl, inr, refl, arith, length,
  str_eq, str_eq_refl, ◌==◌, strcpy, wild_pointer, Bool-cases, ◌>>◌,
}
use lang_os_distributed_file.Cache.{LruCache}
use lang_os_distributed_file.Server.{
  NameServer, FileMetadata, RequestNode, World, load, store, write,
}
use lang_os_distributed_file.Server.Find.{with_file, check_permission}
use lang_os_distributed_file.Server.Find.Frame.{Finds, with_cache}
use lang_os_distributed_file.Server.Save.Total.{
  AreStored, AreStored-write, save_metadata-total, disk_after,
}
use lang_os_distributed_file.Server.Requests.{
  has_request, has_access, unlink_request, remove_request, grant_read, access_granted,
  handle_approve_req, handle_req_access,
}
use lang_os_distributed_file.Server.Requests.Nodes.{
  are_single, are_letters, has_request-unlink_self, has_request-unlink_other, are_single-unlink,
  approved, grants-approved_other, grants-approved_self,
}

-- A request is answered: the user may read, and has no request any more; no other user's rights or
-- requests, and no other file, have changed.
pub record IsApproved (s t : NameServer) (p : ℕ) (f : FileMetadata) (nodes : List RequestNode)
    (target : Text) : Type 0 where
  pub file : FileMetadata
  pub left : List RequestNode
  pub at_p : t.files p ≡ some file
  pub reads : check_permission file target b'R' ≡ true
  pub other_rights :
      (user : Text) (perm : ℕ)
      → str_eq target user ≡ false
      → check_permission file user perm ≡ check_permission f user perm
  pub pending : file.pending_requests ≡ some left
  pub answered : has_request left target ≡ false
  pub other_requests :
      (user : Text) → str_eq target user ≡ false → has_request left user ≡ has_request nodes user
  pub single : are_single left ≡ true
  pub other_files : (q : ℕ) → (q == p) ≡ false → t.files q ≡ s.files q

approved_file : FileMetadata → Text → List RequestNode → FileMetadata
approved_file f target nodes = record f {
  access_list = approved target f.access_list;
  pending_requests = some (unlink_request nodes target);
}

-- The state once the access list and the requests have been changed, one after the other.
record IsAnswered (s t : NameServer) (p : ℕ) (f' : FileMetadata) (target : Text) (f : FileMetadata)
    : Type 0 where
  runs : (do grant_read p f target; remove_request p target) s ≡ ok (tt, t)
  at_p : t.files p ≡ some f'
  others : (q : ℕ) → (q == p) ≡ false → t.files q ≡ s.files q
  stored : AreStored t.files t.file_list

grant_then_remove :
    (s : NameServer) (p : ℕ) (f : FileMetadata) (target : Text) (nodes : List RequestNode)
    → s.files p ≡ some f
    → f.pending_requests ≡ some nodes
    → length target < 50
    → AreStored s.files s.file_list
    → (t : NameServer) × IsAnswered s t p (approved_file f target nodes) target f
unfolding grant_read remove_request store load strcpy approved_file
grant_then_remove s p f target nodes at_p requests short stored =
    let f' = approved_file f target nodes in
    elim (Bool-cases (has_access f.access_list target)) [
      | inl e ↦ (
        record s { files = write s.files p (some f') },
        record {
          runs = ground (arith, e, at_p, requests);
          at_p = ground arith;
          others = λ q ne. ground (arith, ne);
          stored = AreStored-write s.files s.file_list p f f' at_p refl stored;
        },
      )
      | inr e ↦
          let g : FileMetadata = record f {
            access_list = record { username = target; permission = b'R' } ∷ f.access_list;
          } in
          let files = write s.files p (some g) in
          (
            record s { files = write files p (some f') },
            record {
              runs = ground (arith, e, at_p, requests, short);
              at_p = ground arith;
              others = λ q ne. ground (arith, ne);
              stored =
                  AreStored-write files s.file_list p g f' (ground arith) refl
                    (AreStored-write s.files s.file_list p f g at_p refl stored);
            },
          )
    ]

-- If the owner of a file approves a user whose name fits, the list of requests is initialised and
-- names no user twice, the access list has no letters but 'R' and 'W', and every listed file has a
-- Storage Server, then the handler succeeds: the user may read the file and has no request on it any
-- more, whether there was one or not, and the rights and the requests of the other users and the
-- other files are as before.
pub approve_answers :
    (filename target owner : Text) (s : NameServer) (cache : LruCache) (p : ℕ) (f : FileMetadata)
    (nodes : List RequestNode)
    → Finds filename s p cache
    → s.files p ≡ some f
    → f.owner ≡ owner
    → f.pending_requests ≡ some nodes
    → are_single nodes ≡ true
    → are_letters f.access_list ≡ true
    → length target < 50
    → AreStored s.files s.file_list
    → (t : NameServer) × ((handle_approve_req filename target owner s
          ≡ ok (access_granted target, t))
        × IsApproved s t p f nodes target)
unfolding handle_approve_req with_file load
approve_answers filename target owner s cache p f nodes found at_p own requests single letters short
      stored =
    let (t, answered) =
      grant_then_remove (with_cache s cache) p f target nodes at_p requests short stored in
    (
      record t { disk = disk_after t },
      (
        ground (
          arith,
          found,
          at_p,
          own,
          str_eq_refl owner,
          answered.runs,
          save_metadata-total t answered.stored,
        ),
        record {
          file = approved_file f target nodes;
          left = unlink_request nodes target;
          at_p = answered.at_p;
          reads =
              unfold check_permission approved_file in
              ground (arith, grants-approved_self target f.access_list letters);
          other_rights = λ user perm ne.
              unfold check_permission approved_file in
              ground (arith, grants-approved_other target f.access_list user perm ne);
          pending = unfold approved_file in refl;
          answered = has_request-unlink_self target nodes single;
          other_requests = λ user ne. has_request-unlink_other target nodes user ne;
          single = are_single-unlink target nodes single;
          other_files = answered.others;
        },
      ),
    )

-- If the list of requests was never initialised, as `handle_create` leaves it, a request by a user
-- without the right to read follows a wild pointer.
pub request-wild :
    (w : World) (filename username : Text) (s : NameServer) (cache : LruCache) (p : ℕ)
    (f : FileMetadata)
    → Finds filename s p cache
    → s.files p ≡ some f
    → f.pending_requests ≡ none
    → check_permission f username b'R' ≡ false
    → handle_req_access w filename username s ≡ fault wild_pointer
unfolding handle_req_access with_file load
request-wild w filename username s cache p f found at_p wild barred =
    ground (arith, found, at_p, wild, barred)
