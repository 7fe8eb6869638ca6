-- ===== src/Server/Save/Total.antt =====
-- When `save_metadata` returns, and what it leaves alone.
use lang_os_distributed_file.Base.{
  ℕ, Option, none, some, true, false, List, [], ◌∷◌, ◌++◌, Text, ok, ◌≡◌, refl, arith, length, ◌==◌,
  if◌then◌else◌, lit, not, Bool-cases, inl, inr, ◌⊎◌,
}
use lang_os_distributed_file.Server.{NameServer, FileMetadata, StorageServer, Disk, load, write}
use lang_os_distributed_file.Server.Save.{
  user_lines, file_line, file_lines, note_lines, save_users, save_files, save_notes,
  save_notes_if_open, save_metadata,
}

-- Every file of the list exists and has a Storage Server.
abbrev pub AreStored : (ℕ → Option FileMetadata) → List ℕ → Type 0
AreStored files [] = Unit
AreStored files (p ∷ ps) =
    ((f : FileMetadata) × (files p ≡ some f) × ((ss : StorageServer) × (f.ss ≡ some ss)))
    × AreStored files ps

-- The lines that a list of files is saved as.
abbrev line_of : Option FileMetadata → Text
line_of none = []
line_of (some f) = elim f.ss [ none ↦ [] | some ss ↦ file_line f ss ]

abbrev pub saved_files : (ℕ → Option FileMetadata) → List ℕ → Text
saved_files files [] = []
saved_files files (p ∷ ps) = line_of (files p) ++ saved_files files ps

abbrev note_of : Option FileMetadata → Text → Text
note_of none rest = rest
note_of (some f) rest =
    if length f.annotation == 0
    then rest
    else f.filename ++ (lit ";" ++ (f.annotation ++ (lit "\n" ++ rest)))

abbrev pub saved_notes : (ℕ → Option FileMetadata) → List ℕ → Text
saved_notes files [] = []
saved_notes files (p ∷ ps) = note_of (files p) (saved_notes files ps)

pub file_lines-total :
    (ps : List ℕ) (s : NameServer)
    → AreStored s.files ps
    → file_lines ps s ≡ ok (saved_files s.files ps, s)
unfolding file_lines load
file_lines-total [] s h = refl
file_lines-total (p ∷ ps) s ((f, at_p, (ss, server)), h) =
    ground (arith, at_p, server, file_lines-total ps s h)

pub note_lines-total :
    (ps : List ℕ) (s : NameServer)
    → AreStored s.files ps
    → note_lines ps s ≡ ok (saved_notes s.files ps, s)
unfolding note_lines load
note_lines-total [] s h = refl
note_lines-total (p ∷ ps) s ((f, at_p, (ss, server)), h) =
    ground (arith, at_p, note_lines-total ps s h)

abbrev with_disk : NameServer → Disk → NameServer
with_disk s disk = record s { disk = disk }

-- The disk after the users, after the files and after the annotations have been written.
abbrev users_saved : NameServer → Disk
users_saved s = record s.disk { user_data = user_lines s.user_list }

abbrev files_saved : NameServer → Disk
files_saved s = record s.disk {
  user_data = user_lines s.user_list;
  file_metadata = saved_files s.files s.file_list;
  metadata_exists = true;
}

abbrev pub saved : NameServer → Disk
saved s = record s.disk {
  user_data = user_lines s.user_list;
  file_metadata = saved_files s.files s.file_list;
  metadata_exists = true;
  annotations = saved_notes s.files s.file_list;
}

-- The disk after `save_metadata`, by the files that open.
abbrev pub disk_after : NameServer → Disk
disk_after s =
    if not s.disk.user_data_opens
    then s.disk
    else if not s.disk.file_metadata_opens
    then users_saved s
    else if s.disk.annotations_opens
    then saved s
    else files_saved s

-- Where every listed file exists and has a Storage Server, a save returns and changes the disk
-- alone: a line for each user is written where the first file opens, a line for each listed file
-- where the second opens too, and one for each annotation where all three open.
pub save_metadata-total :
    (s : NameServer)
    → AreStored s.files s.file_list
    → save_metadata s ≡ ok (tt, record s { disk = disk_after s })
unfolding save_metadata save_users save_files save_notes save_notes_if_open
save_metadata-total s h = ground (
  arith,
  file_lines-total s.file_list (with_disk s (users_saved s)) h,
  note_lines-total s.file_list (with_disk s (files_saved s)) h,
)

-- A change of one file that keeps its Storage Server keeps every file stored.
pub AreStored-write :
    (files : ℕ → Option FileMetadata) (ps : List ℕ) (p : ℕ) (f g : FileMetadata)
    → files p ≡ some f
    → g.ss ≡ f.ss
    → AreStored files ps
    → AreStored (write files p (some g)) ps
AreStored-write files [] p f g at_p same h = tt
AreStored-write files (q ∷ ps) p f g at_p same ((f', at_q, (ss, server)), h) =
    (here (Bool-cases (q == p)), AreStored-write files ps p f g at_p same h)
  where
    here :
        ((q == p) ≡ true) ⊎ ((q == p) ≡ false)
        → (x : FileMetadata) × (write files p (some g) q ≡ some x)
          × ((y : StorageServer) × (x.ss ≡ some y))
    here (inl e) = (g, ground arith, (ss, ground arith))
    here (inr e) = (f', ground arith, (ss, server))
