-- ===== src/Server/Access/Grant.antt =====
-- What the handlers of the access list do to a file.
use lang_os_distributed_file.Base.{
  ℕ, some, true, false, Text, ok, ◌≡◌, refl, arith, str_eq, str_eq_refl, ◌==◌, ◌||◌, if◌then◌else◌,
  Option-cases, inl, inr,
}
use lang_os_distributed_file.Cache.{LruCache}
use lang_os_distributed_file.Server.{NameServer, FileMetadata, World, load, store}
use lang_os_distributed_file.Server.Find.{with_file, check_permission}
use lang_os_distributed_file.Server.Find.Frame.{Finds, with_cache}
use lang_os_distributed_file.Server.Save.Total.{AreStored, save_metadata-total, disk_after}
use lang_os_distributed_file.Server.Access.{
  first_char, remove_access, access_set, access_removed, nothing_to_remove, handle_add_access,
  handle_rem_access,
}
use lang_os_distributed_file.Server.Access.Removal.{
  remove-none, remove-some, grants-remove_other, mentions-remove, are_distinct-remove,
}
use lang_os_distributed_file.Server.Access.Nodes.{
  grants-unmentioned, granted, are_distinct, mentions, grants-granted_other, grants-granted_self,
  are_distinct-granted,
}
use lang_os_distributed_file.Server.Access.Relist.{
  relisted, save-relisted, add_access-relists, relisted-IsRightsOnly, IsGrant, IsRightsOnly,
}

module _ (w : World) (filename target perm owner : Text) (s : NameServer) (cache : LruCache) (p : ℕ)
    (f : FileMetadata) (found : Finds filename s p cache) (at_p : s.files p ≡ some f)
    (own : f.owner ≡ owner) (stored : AreStored s.files s.file_list)
    (distinct : are_distinct f.access_list ≡ true) where
  -- If the owner of a file grants 'R' or 'W' to another registered user, whose name fits, memory is
  -- available, and every listed file has a Storage Server, then `handle_add_access` succeeds. If no
  -- user had two nodes, the target has afterwards exactly what the granted letter gives, whatever it
  -- had before; no other user's rights, no other file, and neither the owner nor the server of the
  -- file have changed; and no user has two nodes.
  pub grant_exact :
      IsGrant s target perm
      → w.memory ≡ true
      → str_eq owner target ≡ false
      → (t : NameServer) × ((f' : FileMetadata) × ((handle_add_access w filename target perm owner s
              ≡ ok (access_set filename target perm, t))
            × (IsRightsOnly s t p f f' target
                × ((q : ℕ)
                    → check_permission f' target q
                      ≡ (first_char perm == b'W' || first_char perm == q)))))
  unfolding check_permission
  grant_exact g memory other =
      let nodes = granted target f.access_list (first_char perm) in
      (
        relisted s cache p f nodes,
        (
          record f { access_list = nodes },
          (
            add_access-relists w filename target perm owner s cache p f found at_p own g memory
                stored,
            (
              relisted-IsRightsOnly s cache p f target nodes
                  (λ user q ne.
                    grants-granted_other target f.access_list (first_char perm) user q ne)
                  (are_distinct-granted target f.access_list (first_char perm) distinct),
              λ q. ground (
                arith,
                own,
                other,
                grants-granted_self target f.access_list (first_char perm) q distinct,
              ),
            ),
          ),
        ),
      )

  -- If the owner of a file takes away the access of another user, and every listed file has a Storage
  -- Server, then `handle_rem_access` succeeds. If no user had two nodes, the target may afterwards do
  -- nothing with the file; no other user's rights, no other file, and neither the owner nor the server
  -- of the file have changed; and no user has two nodes. The reply says whether there was a node.
  pub revoke_exact :
      str_eq owner target ≡ false
      → (t : NameServer) × ((f' : FileMetadata) × ((handle_rem_access filename target owner s
              ≡ ok (
                (if mentions f.access_list target
                    then access_removed filename target
                    else nothing_to_remove filename target),
                t,
              ))
            × (IsRightsOnly s t p f f' target × ((q : ℕ) → check_permission f' target q ≡ false))))
  unfolding handle_rem_access with_file load store check_permission
  revoke_exact other = elim (Option-cases (remove_access f.access_list target)) [
    | inl absent ↦
        let gone = remove-none target f.access_list absent in
        (
          record (with_cache s cache) { disk = disk_after (with_cache s cache) },
          (
            f,
            (
              ground (
                arith,
                found,
                at_p,
                own,
                str_eq_refl owner,
                absent,
                gone,
                save_metadata-total (with_cache s cache) stored,
              ),
              (
                record {
                  at_p = at_p;
                  other_files = λ q ne. refl;
                  same_list = refl;
                  same_owner = refl;
                  same_ss = refl;
                  other_users = λ user perm ne. refl;
                  distinct = distinct;
                },
                λ q. ground (arith, own, other, grants-unmentioned target f.access_list q gone),
              ),
            ),
          ),
        )
    | inr (nodes, e) ↦ (
      relisted s cache p f nodes,
      (
        record f { access_list = nodes },
        (
          ground (
            arith,
            found,
            at_p,
            own,
            str_eq_refl owner,
            e,
            remove-some target f.access_list nodes e,
            save-relisted s cache p f nodes at_p stored,
          ),
          (
            relisted-IsRightsOnly s cache p f target nodes
                (λ user q ne. grants-remove_other target f.access_list nodes user q e ne)
                (are_distinct-remove target f.access_list nodes e distinct),
            λ q. ground (
              arith,
              own,
              other,
              grants-unmentioned target nodes q
                  (mentions-remove target f.access_list nodes e distinct),
            ),
          ),
        ),
      ),
    )
  ]
