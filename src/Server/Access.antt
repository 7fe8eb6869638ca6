-- ===== src/Server/Access.antt =====
-- src/name_server/CRWD.c: `handle_add_access`, `handle_rem_access`.
pub mod Grant
pub mod Relist
pub mod Nodes
pub mod Removal
use lang_os_distributed_file.Base.{
  ℕ, Option, none, some, Bool, true, false, List, [], ◌∷◌, ◌++◌, Text, Exec, Run, ok, fault,
  blocked, pure, lift, lit, not, ◌>>=◌, ◌>>◌, ◌==◌, if◌then◌else◌, str_eq, strcpy, ◌||◌,
}
use lang_os_distributed_file.Server.{NameServer, FileMetadata, AccessNode, User, World, store}
use lang_os_distributed_file.Server.Find.{with_file, find_user}
use lang_os_distributed_file.Server.Save.{save_metadata}
use lang_os_distributed_file.Server.Reply.{
  error_reply, reply, quoted, file_not_found, err_permission_denied, err_user_not_found,
  err_invalid_input, err_server_misc,
}

-- perm[0]; an empty string has its NUL there.
abbrev pub first_char : Text → ℕ
first_char [] = 0
first_char (c ∷ s) = c

-- The loop that looks for the user and changes the permission of its first node: the new list, or
-- nothing where the user has no node.
unfoldable pub update_access : List AccessNode → Text → ℕ → Option (List AccessNode)
update_access [] target perm = none
update_access (node ∷ nodes) target perm =
    let rest = update_access nodes target perm in
    if str_eq node.username target
    then some (record node { permission = perm } ∷ nodes)
    else elim rest [ none ↦ none | some nodes' ↦ some (node ∷ nodes') ]

-- The loop that unlinks the first node of a user.
unfoldable pub remove_access : List AccessNode → Text → Option (List AccessNode)
remove_access [] target = none
remove_access (node ∷ nodes) target =
    let rest = remove_access nodes target in
    if str_eq node.username target
    then some nodes
    else elim rest [ none ↦ none | some nodes' ↦ some (node ∷ nodes') ]

unfoldable pub owner_only : FileMetadata → Text
owner_only file =
    error_reply err_permission_denied
      (lit "Only the file owner (" ++ (quoted file.owner ++ lit ") can change permissions."))

unfoldable pub not_registered : Text → Text
not_registered target_user =
    error_reply err_user_not_found
      (lit "User " ++ (quoted target_user ++ lit " is not registered in the system."))

invalid_permission : Text → Text
invalid_permission perm =
    error_reply err_invalid_input
      (lit "Invalid permission " ++ (quoted perm ++ lit ". Must be 'R' or 'W'."))

unfoldable pub access_set : Text → Text → Text → Text
access_set filename target_user perm = reply (
    lit "Access for "
    ++ (quoted target_user
        ++ (lit " on " ++ (quoted filename ++ (lit " set to '" ++ (first_char perm ∷ lit "'."))))))

-- What the handler does once all four checks have passed.
unfoldable pub set_access : World → Text → Text → Text → ℕ → FileMetadata → Exec NameServer Text
unfolding update_access access_set
set_access w filename target_user perm p file =
    elim (update_access file.access_list target_user (first_char perm)) [
      | some nodes ↦ (do
        store p (record file { access_list = nodes })
        save_metadata
        pure (access_set filename target_user perm))
      | none ↦
          if not w.memory
          then pure (error_reply err_server_misc (lit "Name Server out of memory."))
          else (do
            name ← lift (strcpy 50 target_user)
            store p (record file {
              access_list =
                  record { username = name; permission = first_char perm } ∷ file.access_list;
            })
            save_metadata
            pure (access_set filename target_user perm))
    ]

unfoldable pub handle_add_access : World → Text → Text → Text → Text → Exec NameServer Text
unfolding with_file set_access find_user owner_only not_registered invalid_permission
handle_add_access w filename target_user perm current_user =
    with_file filename (pure (file_not_found filename)) λ p file s.
      if not (str_eq file.owner current_user)
      then ok (owner_only file, s)
      else elim (find_user s.user_list target_user) [
        | none ↦ ok (not_registered target_user, s)
        | some user ↦
            if first_char perm == b'R' || first_char perm == b'W'
            then set_access w filename target_user perm p file s
            else ok (invalid_permission perm, s)
      ]

unfoldable pub access_removed : Text → Text → Text
access_removed filename target_user = reply (
    lit "Access for "
    ++ (quoted target_user ++ (lit " on " ++ (quoted filename ++ lit " has been removed."))))

unfoldable pub nothing_to_remove : Text → Text → Text
nothing_to_remove filename target_user = reply (
    lit "INFO: User "
    ++ (quoted target_user
        ++ (lit " had no special access on " ++ (quoted filename ++ lit " to remove."))))

unfoldable pub handle_rem_access : Text → Text → Text → Exec NameServer Text
unfolding with_file remove_access owner_only access_removed nothing_to_remove
handle_rem_access filename target_user current_user =
    with_file filename (pure (file_not_found filename)) λ p file.
      if not (str_eq file.owner current_user)
      then pure (owner_only file)
      else elim (remove_access file.access_list target_user) [
        | some nodes ↦ (do
          store p (record file { access_list = nodes })
          save_metadata
          pure (access_removed filename target_user))
        | none ↦ (do save_metadata; pure (nothing_to_remove filename target_user))
      ]
