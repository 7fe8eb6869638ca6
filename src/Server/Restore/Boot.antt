-- ===== src/Server/Restore/Boot.antt =====
-- What `load_metadata` brings back when `main` calls it, before any Storage Server has registered.
use lang_os_distributed_file.Base.{
  fgets, ℕ, zero, suc, none, [], ◌∷◌, Text, Exec, ok, ◌≡◌, refl, arith, lit, bind-eq-ok, ◌∙◌,
  bind-idle, ◌>>◌, pure, if◌then◌else◌, sym, length, strcpy, strtok, Option-cases, inl, inr,
}
use lang_os_distributed_file.Table.{ht_search, ht_create, search_chain}
use lang_os_distributed_file.Server.{NameServer, Disk, World, boot}
use lang_os_distributed_file.Server.Register.{find_ss}
use lang_os_distributed_file.Server.Restore.{
  for_lines, line_length, load_user, load_line, load_note, attach_note, load_metadata, four_tokens,
}

-- A server without files: nothing listed, nothing indexed, and no Storage Server.
pub record HasNoFiles (s : NameServer) : Type 0 where
  pub listed : s.file_list ≡ []
  pub indexed : (name : Text) → ht_search s.file_hash_table name ≡ none
  pub servers : s.ss_list ≡ []

-- A step that returns from a state without files returns to one.
abbrev IsIdle : Exec NameServer Unit → Type 0
IsIdle m = (s t : NameServer) → HasNoFiles s → m s ≡ ok (tt, t) → HasNoFiles t

load_user-IsIdle : (line : Text) → IsIdle (load_user line)
unfolding load_user strcpy
load_user-IsIdle line s t n h = record {
  listed = ground (arith, h, n.listed);
  indexed = λ name. ground (arith, h, n.indexed name);
  servers = ground (arith, h, n.servers);
}

load_line-same :
    (w : World) (line : Text) (s : NameServer) → HasNoFiles s → load_line w line s ≡ ok (tt, s)
unfolding load_line find_ss
load_line-same w line s n = elim (Option-cases (four_tokens line)) [
  | inl absent ↦ ground (arith, absent)
  | inr ((filename, owner, ss_ip, port, entries), e) ↦ ground (arith, e, n.servers)
]

attach_note-same :
    (fname note : Text) (s : NameServer) → HasNoFiles s → attach_note fname note s ≡ ok (tt, s)
unfolding attach_note
attach_note-same fname note s n = ground (arith, n.indexed fname)

load_note-same : (line : Text) (s : NameServer) → HasNoFiles s → load_note line s ≡ ok (tt, s)
unfolding load_note
load_note-same line s n = elim (Option-cases (strtok (lit ";") line).0) [
  | inl absent ↦ ground (arith, absent)
  | inr (fname, e) ↦ elim (Option-cases (strtok (lit "\n") (strtok (lit ";") line).1).0) [
    | inl absent ↦ ground (arith, e, absent)
    | inr (note, e') ↦ ground (arith, e, e', attach_note-same fname note s n)
  ]
]

-- A step that changes nothing where there are no files changes nothing in a loop over lines.
for_lines-same :
    (step : Text → Exec NameServer Unit)
    → ((line : Text) (s : NameServer) → HasNoFiles s → step line s ≡ ok (tt, s))
    → (fuel : ℕ) (text : Text) (s : NameServer) → HasNoFiles s
    → for_lines fuel step text s ≡ ok (tt, s)
unfolding for_lines
for_lines-same step same zero text s n = refl
for_lines-same step same (suc fuel) [] s n = refl
for_lines-same step same (suc fuel) (c ∷ text) s n = ground (
  arith,
  same (fgets line_length (c ∷ text)).0 s n,
  for_lines-same step same fuel (fgets line_length (c ∷ text)).1 s n,
)

for_lines-IsIdle :
    (step : Text → Exec NameServer Unit)
    → ((line : Text) → IsIdle (step line))
    → (fuel : ℕ) (text : Text) → IsIdle (for_lines fuel step text)
unfolding for_lines
for_lines-IsIdle step idle zero text s t n h = ground (arith, h, n)
for_lines-IsIdle step idle (suc fuel) [] s t n h = ground (arith, h, n)
for_lines-IsIdle step idle (suc fuel) (c ∷ text) s t n h =
    let (line, rest) = fgets line_length (c ∷ text) in
    let ((u, s'), first, after) = bind-eq-ok (step line) (λ u. for_lines fuel step rest) s h in
    for_lines-IsIdle step idle fuel rest s' t (idle line s s' n first) after

rest_of_load : World → Disk → Exec NameServer Unit
rest_of_load w disk =
    if disk.metadata_exists
    then (for_lines (length disk.file_metadata) (load_line w) disk.file_metadata
        >> for_lines (length disk.annotations) load_note disk.annotations)
    else pure tt

rest_of_load-same :
    (w : World) (disk : Disk) (s : NameServer) → HasNoFiles s → rest_of_load w disk s ≡ ok (tt, s)
unfolding rest_of_load
rest_of_load-same w disk s n = ground (
  arith,
  for_lines-same (load_line w) (load_line-same w) (length disk.file_metadata) disk.file_metadata s
      n,
  for_lines-same load_note load_note-same (length disk.annotations) disk.annotations s n,
)

-- While no Storage Server is registered and no file is known, `load_metadata` does what the loop over
-- the users' file does, and nothing else: it returns or faults where that loop does, with the same
-- state, and no line of the files' or of the annotations' file brings a file back.
pub restores_users_only :
    (w : World) (s : NameServer)
    → HasNoFiles s
    → (load_metadata w s ≡ for_lines (length s.disk.user_data) load_user s.disk.user_data s)
      × ((t : NameServer) → load_metadata w s ≡ ok (tt, t) → HasNoFiles t)
unfolding load_metadata rest_of_load
restores_users_only w s n =
    let users = for_lines (length s.disk.user_data) load_user s.disk.user_data in
    let idle =
      for_lines-IsIdle load_user load_user-IsIdle (length s.disk.user_data) s.disk.user_data in
    let same : load_metadata w s ≡ users s =
      bind-idle users (rest_of_load w s.disk) s
        (λ t h. rest_of_load-same w s.disk t (idle s t n h)) in
    (same, λ t h. idle s t n (sym same ∙ h))

-- The state in which `main` loads the metadata has no files.
pub boot-HasNoFiles : (disk : Disk) → HasNoFiles (boot disk)
unfolding boot ht_search ht_create search_chain
boot-HasNoFiles disk = record { listed = refl; indexed = λ name. refl; servers = refl }
