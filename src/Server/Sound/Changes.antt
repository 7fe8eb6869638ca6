-- ===== src/Server/Sound/Changes.antt =====
-- The handlers of src/name_server/CRWD.c that change one file and save the metadata, in a sound
-- state.
use lang_os_distributed_file.Base.{
  ℕ, ◌≡◌, refl, sym, some, Text, ◌>>◌, pure, not, ◌==◌, ◌||◌, str_eq,
}
use lang_os_distributed_file.Server.{NameServer, FileMetadata, World, store}
use lang_os_distributed_file.Server.Find.{check_permission, find_user}
use lang_os_distributed_file.Server.Save.{save_metadata}
use lang_os_distributed_file.Server.Reply.{file_not_found, no_such_file}
use lang_os_distributed_file.Server.Access.{
  update_access, remove_access, set_access, first_char, access_set, handle_add_access,
  handle_rem_access,
}
use lang_os_distributed_file.Server.Annotate.{annotation_added, handle_annotate}
use lang_os_distributed_file.Server.Requests.{
  pending, request_rejected, grant_read, has_access, remove_request, access_granted,
  handle_approve_req, handle_reject_req,
}
use lang_os_distributed_file.Server.Sound.{
  IsSound, Extends-refl, Upholds, Keeps, Upholds-bind, Keeps-bind, Keeps-pure, Upholds-test,
  Upholds-if, Upholds-case, Upholds-case_run,
}
use lang_os_distributed_file.Server.Sound.Rules.{Keeps-with_file, Upholds-load, store_lem}
use lang_os_distributed_file.Server.Sound.Peer.{Upholds-strcpy}
use lang_os_distributed_file.Server.Sound.Save.{Keeps-save_metadata}
use lang_os_distributed_file.Server.Sound.Tells.{Keeps-pending}

Keeps-saved : (reply : Text) → Keeps (save_metadata >> pure reply)
Keeps-saved reply = Keeps-bind save_metadata _ Keeps-save_metadata λ u. Keeps-pure reply

-- A change of a file that keeps its name, a save and a reply.
stored_lem :
    (s : NameServer) (p : ℕ) (file g : FileMetadata) (reply : Text)
    → IsSound s
    → s.files p ≡ some file
    → g.filename ≡ file.filename
    → Upholds s ((store p g >> (save_metadata >> pure reply)) s)
stored_lem s p file g reply sound at_p same =
    Upholds-bind s (store p g) _ (store_lem s p file g sound at_p same)
      λ u t _ sound' _. Keeps-saved reply t sound'

set_access_lem :
    (w : World) (name target perm : Text) (p : ℕ) (file : FileMetadata) (s : NameServer)
    → IsSound s
    → s.files p ≡ some file
    → Upholds s (set_access w name target perm p file s)
unfolding set_access
set_access_lem w name target perm p file s sound at_p =
    Upholds-case s (update_access file.access_list target (first_char perm)) _ _
      (Upholds-test s (not w.memory) _ _ (sound, Extends-refl s)
        (Upholds-strcpy 50 target _ s
          (stored_lem s p file _ (access_set name target perm) sound at_p refl)))
      (λ nodes. stored_lem s p file _ (access_set name target perm) sound at_p refl)

pub Keeps-add_access :
    (w : World) (name target perm user : Text) → Keeps (handle_add_access w name target perm user)
unfolding handle_add_access
Keeps-add_access w name target perm user =
    Keeps-with_file name (pure (file_not_found name)) _ (Keeps-pure (file_not_found name))
      λ p file s sound at_p.
        Upholds-if s (not (str_eq file.owner user)) _ _ (sound, Extends-refl s)
          (Upholds-case_run s (find_user s.user_list target) _ _ (sound, Extends-refl s)
            λ u.
              Upholds-if s (first_char perm == b'R' || first_char perm == b'W') _ _
                (set_access_lem w name target perm p file s sound at_p) (sound, Extends-refl s))

pub Keeps-rem_access : (name target user : Text) → Keeps (handle_rem_access name target user)
unfolding handle_rem_access
Keeps-rem_access name target user =
    Keeps-with_file name (pure (file_not_found name)) _ (Keeps-pure (file_not_found name))
      λ p file s sound at_p.
        Upholds-test s (not (str_eq file.owner user)) _ _ (sound, Extends-refl s)
          (Upholds-case s (remove_access file.access_list target) _ _
            (Keeps-bind save_metadata _ Keeps-save_metadata (λ u s sound. (sound, Extends-refl s)) s
              sound)
            (λ nodes. stored_lem s p file _ _ sound at_p refl))

pub Keeps-annotate : (name note user : Text) → Keeps (handle_annotate name note user)
unfolding handle_annotate
Keeps-annotate name note user =
    Keeps-with_file name (pure no_such_file) _ (Keeps-pure no_such_file) λ p file s sound at_p.
      Upholds-test s (not (check_permission file user b'W')) _ _ (sound, Extends-refl s)
        (stored_lem s p file _ (annotation_added name) sound at_p refl)

remove_request_lem :
    (p : ℕ) (target : Text) (s : NameServer) (file : FileMetadata)
    → IsSound s
    → s.files p ≡ some file
    → Upholds s (remove_request p target s)
unfolding remove_request
remove_request_lem p target s file sound at_p = Upholds-load s p file _ at_p (
    Upholds-bind s (pending file) _ (Keeps-pending file s sound) λ nodes t _ sound' ext.
      let (g, at_g, named) = ext p file at_p in store_lem t p g _ sound' at_g (sym named))

grant_read_lem :
    (p : ℕ) (file : FileMetadata) (target : Text) (s : NameServer)
    → IsSound s
    → s.files p ≡ some file
    → Upholds s (grant_read p file target s)
unfolding grant_read
grant_read_lem p file target s sound at_p =
    Upholds-test s (has_access file.access_list target) _ _ (sound, Extends-refl s)
      (Upholds-strcpy 50 target _ s (store_lem s p file _ sound at_p refl))

pub Keeps-approve : (name target user : Text) → Keeps (handle_approve_req name target user)
unfolding handle_approve_req
Keeps-approve name target user =
    Keeps-with_file name (pure no_such_file) _ (Keeps-pure no_such_file) λ p file s sound at_p.
      Upholds-test s (not (str_eq file.owner user)) _ _ (sound, Extends-refl s)
        (Upholds-bind s (grant_read p file target) _ (grant_read_lem p file target s sound at_p)
          λ u t _ sound' ext.
            let (g, at_g, _) = ext p file at_p in
            Upholds-bind t (remove_request p target) _ (remove_request_lem p target t g sound' at_g)
              λ u t _ sound'' _. Keeps-saved (access_granted target) t sound'')

pub Keeps-reject : (name target user : Text) → Keeps (handle_reject_req name target user)
unfolding handle_reject_req
Keeps-reject name target user =
    Keeps-with_file name (pure no_such_file) _ (Keeps-pure no_such_file) λ p file s sound at_p.
      Upholds-test s (not (str_eq file.owner user)) _ _ (sound, Extends-refl s)
        (Upholds-bind s (remove_request p target) _ (remove_request_lem p target s file sound at_p)
          λ u t _ sound' _. Keeps-pure (request_rejected target) t sound')
