-- ===== src/Server/Access/Relist.antt =====
-- What saving a changed access list comes to.
use lang_os_distributed_file.Base.{
  ℕ, ◌<◌, some, true, false, List, Text, ok, ◌≡◌, refl, arith, length, str_eq, str_eq_refl, strcpy,
  ◌==◌, ◌||◌, Option-cases, inl, inr,
}
use lang_os_distributed_file.Cache.{LruCache}
use lang_os_distributed_file.Server.{
  NameServer, FileMetadata, AccessNode, User, World, load, store, write,
}
use lang_os_distributed_file.Server.Find.{with_file, find_user, grants, check_permission}
use lang_os_distributed_file.Server.Find.Frame.{Finds, with_cache}
use lang_os_distributed_file.Server.Save.{save_metadata}
use lang_os_distributed_file.Server.Save.Total.{
  AreStored, AreStored-write, save_metadata-total, disk_after,
}
use lang_os_distributed_file.Server.Access.{
  first_char, update_access, set_access, access_set, handle_add_access,
}
use lang_os_distributed_file.Server.Access.Nodes.{granted, are_distinct}

-- The state after a change of the access list of `f` at `p` has been saved.
abbrev pub relisted : NameServer → LruCache → ℕ → FileMetadata → List AccessNode → NameServer
relisted s cache p f nodes =
    let t : NameServer = record s {
      files = write s.files p (some (record f { access_list = nodes }));
      file_cache = cache;
    } in
    record t { disk = disk_after t }

pub save-relisted :
    (s : NameServer) (cache : LruCache) (p : ℕ) (f : FileMetadata) (nodes : List AccessNode)
    → s.files p ≡ some f
    → AreStored s.files s.file_list
    → save_metadata (record s {
      files = write s.files p (some (record f { access_list = nodes }));
      file_cache = cache;
    })
      ≡ ok (tt, relisted s cache p f nodes)
save-relisted s cache p f nodes at_p stored =
    save_metadata-total _
      (AreStored-write s.files s.file_list p f (record f { access_list = nodes }) at_p refl stored)

-- What an owner may grant to whom.
pub record IsGrant (s : NameServer) (target perm : Text) : Type 0 where
  pub user : User
  pub registered : find_user s.user_list target ≡ some user
  pub short : length target < 50
  pub valid : (first_char perm == b'R' || first_char perm == b'W') ≡ true

pub set_access-relists :
    (w : World) (filename target perm : Text) (s : NameServer) (cache : LruCache) (p : ℕ)
    (f : FileMetadata)
    → s.files p ≡ some f
    → length target < 50
    → w.memory ≡ true
    → AreStored s.files s.file_list
    → set_access w filename target perm p f (with_cache s cache)
      ≡ ok (
        access_set filename target perm,
        relisted s cache p f (granted target f.access_list (first_char perm)),
      )
unfolding set_access store strcpy
set_access-relists w filename target perm s cache p f at_p short memory stored =
    elim (Option-cases (update_access f.access_list target (first_char perm))) [
      | inl absent ↦ ground (
        arith,
        absent,
        memory,
        short,
        save-relisted s cache p f (granted target f.access_list (first_char perm)) at_p stored,
      )
      | inr (nodes, e) ↦ ground (arith, e, save-relisted s cache p f nodes at_p stored)
    ]

-- A grant by the owner succeeds, and saves the new list.
pub add_access-relists :
    (w : World) (filename target perm owner : Text) (s : NameServer) (cache : LruCache) (p : ℕ)
    (f : FileMetadata)
    → Finds filename s p cache
    → s.files p ≡ some f
    → f.owner ≡ owner
    → IsGrant s target perm
    → w.memory ≡ true
    → AreStored s.files s.file_list
    → handle_add_access w filename target perm owner s
      ≡ ok (
        access_set filename target perm,
        relisted s cache p f (granted target f.access_list (first_char perm)),
      )
unfolding handle_add_access with_file load
add_access-relists w filename target perm owner s cache p f found at_p own g memory stored =
    ground (
      arith,
      found,
      at_p,
      own,
      str_eq_refl owner,
      g.registered,
      g.valid,
      set_access-relists w filename target perm s cache p f at_p g.short memory stored,
    )

-- What a change of one user's rights on the file at `p` leaves alone: the other files, the owner
-- and the Storage Server of the file, and the rights of the other users.
pub record IsRightsOnly (s t : NameServer) (p : ℕ) (f f' : FileMetadata) (target : Text)
    : Type 0 where
  pub at_p : t.files p ≡ some f'
  pub other_files : (q : ℕ) → (q == p) ≡ false → t.files q ≡ s.files q
  pub same_list : t.file_list ≡ s.file_list
  pub same_owner : f'.owner ≡ f.owner
  pub same_ss : f'.ss ≡ f.ss
  pub other_users :
      (user : Text) (perm : ℕ)
      → str_eq target user ≡ false
      → check_permission f' user perm ≡ check_permission f user perm
  pub distinct : are_distinct f'.access_list ≡ true

pub relisted-IsRightsOnly :
    (s : NameServer) (cache : LruCache) (p : ℕ) (f : FileMetadata) (target : Text)
    (nodes : List AccessNode)
    → ((user : Text) (perm : ℕ)
        → str_eq target user ≡ false
        → grants nodes user perm ≡ grants f.access_list user perm)
    → are_distinct nodes ≡ true
    → IsRightsOnly s (relisted s cache p f nodes) p f (record f { access_list = nodes }) target
unfolding check_permission
relisted-IsRightsOnly s cache p f target nodes same d = record {
  at_p = ground arith;
  other_files = λ q ne. ground (arith, ne);
  same_list = refl;
  same_owner = refl;
  same_ss = refl;
  other_users = λ user perm ne. ground (arith, same user perm ne);
  distinct = d;
}
