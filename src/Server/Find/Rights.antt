-- ===== src/Server/Find/Rights.antt =====
-- What `check_permission` grants.
use lang_os_distributed_file.Base.{ℕ, true, List, [], ◌∷◌, Text, ◌≡◌, arith}
use lang_os_distributed_file.Server.{FileMetadata, AccessNode}
use lang_os_distributed_file.Server.Find.{grants, check_permission}

grants-write :
    (nodes : List AccessNode) (username : Text) (perm : ℕ)
    → grants nodes username b'W' ≡ true
    → grants nodes username perm ≡ true
unfolding grants
grants-write [] username perm h = ground arith
grants-write (node ∷ nodes) username perm h = ground (arith, grants-write nodes username perm)

-- Whoever may write a file has every permission on it.
pub write_implies_all :
    (file : FileMetadata) (username : Text) (perm : ℕ)
    → check_permission file username b'W' ≡ true
    → check_permission file username perm ≡ true
unfolding check_permission
write_implies_all file username perm h = ground (arith, grants-write file.access_list username perm)
