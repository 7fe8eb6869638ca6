-- ===== src/Server/Register/Files.antt =====
-- The files that the registration of a Storage Server in src/name_server/name_server.c brings.
use lang_os_distributed_file.Base.{
  ℕ, zero, suc, ◌<◌, ◌≡◌, refl, some, List, [], ◌∷◌, Text, lit, arith, length, Exec, ok, ◌>>◌, pure,
  strtok, strtok-fields, fields, inl, inr, Option-cases, str_eq_iff, str_eq_refl, strcpy, Run-cases,
  lt→ltb,
}
use lang_os_distributed_file.Table.{ht_search}
use lang_os_distributed_file.Server.{NameServer, FileMetadata, StorageServer, World, link_file}
use lang_os_distributed_file.Server.Find.Frame.{with_cache}
use lang_os_distributed_file.Server.Sound.{IsSound}
use lang_os_distributed_file.Server.Sound.Search.{find_file_lem}
use lang_os_distributed_file.Server.Sound.Link.{link_free, linked}
use lang_os_distributed_file.Server.Register.{add_found_file, register_file, register_files}

-- One registration for each name, in order.
unfoldable pub register_each : World → StorageServer → List Text → Exec NameServer Unit
register_each w ss [] = pure tt
register_each w ss (name ∷ names) = do register_file w ss name; register_each w ss names

-- With more fuel than the list has bytes the loop registers each name of the list, in order, and
-- ends at its end.
pub register_files_each :
    (w : World) (ss : StorageServer) (fuel : ℕ) (text : Text) (s : NameServer)
    → length text < fuel
    → register_files fuel w ss text s ≡ register_each w ss (fields (lit ",") text) s
unfolding register_files register_each
register_files_each w ss zero text s h = absurd (omega arith)
register_files_each w ss (suc fuel) text s h = elim (strtok-fields (lit ",") text) [
  | inl (last, empty) ↦ ground (arith, last, empty)
  | inr (t, next, listed, shorter) ↦ elim (Run-cases (register_file w ss t s)) [
    | inl ((u, s'), ran) ↦ ground (
      arith,
      next,
      listed,
      ran,
      register_files_each w ss fuel (strtok (lit ",") text).1 s' (omega arith),
    )
    | inr (inl (e, bad)) ↦ ground (arith, next, listed, bad)
    | inr (inr waits) ↦ ground (arith, next, listed, waits)
  ]
]

-- Everything that the first table finds, the second finds too.
abbrev pub FindsMore : NameServer → NameServer → Type 0
FindsMore s t =
    (name : Text) (p : ℕ)
    → ht_search s.file_hash_table name ≡ some p
    → ht_search t.file_hash_table name ≡ some p

-- The file of a Storage Server: its name is found, with that server if it is new.
abbrev pub AreFound : NameServer → List Text → Type 0
AreFound t [] = Unit
AreFound t (name ∷ names) =
    ((p : ℕ) × (ht_search t.file_hash_table name ≡ some p)) × AreFound t names

abbrev pub AreShort : List Text → Type 0
AreShort [] = Unit
AreShort (name ∷ names) = (length name < 100) × AreShort names

AreFound-more :
    (s t : NameServer) (names : List Text) → FindsMore s t → AreFound s names → AreFound t names
AreFound-more s t [] more found = tt
AreFound-more s t (name ∷ names) more ((p, at), found) =
    ((p, more name p at), AreFound-more s t names more found)

-- The struct of a file that a Storage Server has.
abbrev found_file : World → StorageServer → Text → FileMetadata
found_file w ss name = record w.raw {
  filename = name;
  owner = lit "ss_owner";
  word_count = 0;
  char_count = 0;
  last_access = w.now;
  ss = some ss;
  access_list = [];
}

add_found_file-links :
    (w : World) (ss : StorageServer) (name : Text) (s : NameServer)
    → length name < 100
    → add_found_file w ss name s ≡ link_file (found_file w ss name) s
unfolding add_found_file strcpy
add_found_file-links w ss name s short = rw (lt→ltb _ _ short) refl

register_file_lem :
    (w : World) (ss : StorageServer) (name : Text) (s : NameServer)
    → IsSound s
    → length name < 100
    → (t : NameServer) × (register_file w ss name s ≡ ok (tt, t))
      × IsSound t
      × FindsMore s t
      × ((p : ℕ) × (ht_search t.file_hash_table name ≡ some p))
unfolding register_file
register_file_lem w ss name s sound short =
    let l = find_file_lem s name sound in
    elim (Option-cases (ht_search s.file_hash_table name)) [
      | inr (p, found) ↦
          (with_cache s l.cache, ground (arith, l.finds, found), l.sound, λ n q at. at, (p, found))
      | inl free ↦
          let (table, links, sound', finds) =
            link_free (with_cache s l.cache) (found_file w ss name) l.sound short free in
          let added = add_found_file-links w ss name (with_cache s l.cache) short in
          (
            linked (with_cache s l.cache) (found_file w ss name) table,
            ground (arith, l.finds, free, added, links),
            sound',
            λ n q at. ground (arith, finds n, at, free, str_eq_iff name n),
            (s.fresh, ground (arith, finds name, str_eq_refl name)),
          )
    ]

-- In a sound state every registration of files with names that fit returns, in a sound state in
-- which the table finds each of the names, and what it found before.
pub register_each_finds :
    (w : World) (ss : StorageServer) (names : List Text) (s : NameServer)
    → IsSound s
    → AreShort names
    → (t : NameServer) × (register_each w ss names s ≡ ok (tt, t))
      × IsSound t
      × FindsMore s t
      × AreFound t names
unfolding register_each
register_each_finds w ss [] s sound short = (s, refl, sound, λ n q at. at, tt)
register_each_finds w ss (name ∷ names) s sound (fits, short) =
    let (t, ran, sound', more, (p, found)) = register_file_lem w ss name s sound fits in
    let (u, ran', sound'', more', found') = register_each_finds w ss names t sound' short in
    (
      u,
      ground (arith, ran, ran'),
      sound'',
      λ n q at. more' n q (more n q at),
      ((p, more' name p found), found'),
    )
