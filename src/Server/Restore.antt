-- ===== src/Server/Restore.antt =====
-- src/name_server/CRWD.c: `load_metadata`. The users' and the annotations' file read as empty where
-- they are not there; without the files' file the annotations are not read.
-- `strtok` keeps one position for the whole thread, so the tokens of an access entry move the
-- position of the loop over the entries.
pub mod Boot
pub mod Users
use lang_os_distributed_file.Base.{
  ℕ, zero, suc, ◌*◌, Option, none, some, Bool, true, false, List, [], ◌∷◌, Text, ℤ, Exec, Run, ok,
  fault, blocked, pure, lift, gets, modify, lit, ◌>>=◌, ◌>>◌, ◌==◌, if◌then◌else◌, strcpy, strtok,
  atoi, length, fgets, and_then,
}
use lang_os_distributed_file.Table.{ht_search}
use lang_os_distributed_file.Server.{
  NameServer, FileMetadata, AccessNode, StorageServer, User, World, load, store, link_file,
}
use lang_os_distributed_file.Server.Access.{first_char}
use lang_os_distributed_file.Server.Folder.{owner_access}
use lang_os_distributed_file.Server.Register.{find_ss}
use lang_os_distributed_file.Server.Reply.{max_buffer_size}

abbrev pub line_length : ℕ
line_length = 2047

-- while (fgets(...)): each line takes a byte at least.
unfoldable pub for_lines : ℕ → (Text → Exec NameServer Unit) → Text → Exec NameServer Unit
for_lines zero step s = pure tt
for_lines (suc fuel) step [] = pure tt
for_lines (suc fuel) step (c ∷ s) =
    let (line, rest) = fgets line_length (c ∷ s) in (do step line; for_lines fuel step rest)

abbrev pub each_line : (Text → Exec NameServer Unit) → Text → Exec NameServer Unit
each_line step text = for_lines (length text) step text

-- A user is unknown by address until it registers again.
unfoldable pub load_user : Text → Exec NameServer Unit
load_user line = if length line == 0 then pure tt else (do
  name ← lift (strcpy 50 line)
  modify (λ s. record s {
    user_list = record { username = name; ip_addr = lit "0.0.0.0" } ∷ s.user_list;
  }))

-- if (user && perm)
unfoldable pub add_access : Option Text → Option Text → List AccessNode → Run (List AccessNode)
add_access none perm nodes = ok nodes
add_access (some user) none nodes = ok nodes
add_access (some user) (some perm) nodes =
    and_then (strcpy 50 user)
      λ name. ok (record { username = name; permission = first_char perm } ∷ nodes)

-- The loop over the access entries, at `strtok`'s position `s`; each round takes a byte at least.
unfoldable pub load_access : ℕ → Text → List AccessNode → Run (List AccessNode)
unfolding add_access
load_access zero s nodes = ok nodes
load_access (suc fuel) s nodes =
    let (access_token, _) = strtok (lit ";") s in
    elim access_token [
      | none ↦ ok nodes
      | some entry ↦
          let (user, s) = strtok (lit ",") entry in
          let (perm, s) = strtok (lit ",") s in
          and_then (add_access user perm nodes) (load_access fuel s)
    ]

-- The struct of a loaded file, once its Storage Server is found.
unfoldable pub load_file : World → Text → Text → StorageServer → Text → Exec NameServer Unit
unfolding load_access link_file
load_file w filename owner ss entries = do
  name ← lift (strcpy 100 filename)
  owner ← lift (strcpy 50 owner)
  nodes ← lift (load_access (suc (length entries)) entries (owner_access owner))
  link_file (record w.raw {
    filename = name;
    owner = owner;
    ss = some ss;
    word_count = 0;
    char_count = 0;
    last_access = w.now;
    access_list = nodes;
  })

-- The four tokens in front of the access entries, and `strtok`'s position behind them.
abbrev pub four_tokens : Text → Option (Text × Text × Text × Text × Text)
four_tokens line =
    let (filename, s) = strtok (lit ";") line in
    let (owner, s) = strtok (lit ";") s in
    let (ss_ip, s) = strtok (lit ";") s in
    let (ss_port, s) = strtok (lit ";") s in
    elim filename [
      | none ↦ none
      | some filename ↦ elim owner [
        | none ↦ none
        | some owner ↦ elim ss_ip [
          | none ↦ none
          | some ss_ip ↦ elim ss_port [
            | none ↦ none
            | some port ↦ some (filename, owner, ss_ip, port, s)
          ]
        ]
      ]
    ]

-- One line of file_metadata.dat. A file whose Storage Server is not registered is skipped.
unfoldable pub load_line : World → Text → Exec NameServer Unit
unfolding load_file
load_line w line = elim (four_tokens line) [
  | none ↦ pure tt
  | some (filename, owner, ss_ip, port, entries) ↦ λ s. elim (find_ss s.ss_list ss_ip (atoi port)) [
    | none ↦ ok (tt, s)
    | some ss ↦ load_file w filename owner ss entries s
  ]
]

-- strcpy(file->annotation, note), for a file that the table has.
unfoldable pub attach_note : Text → Text → Exec NameServer Unit
unfolding load store
attach_note fname note s = elim (ht_search s.file_hash_table fname) [
  | none ↦ ok (tt, s)
  | some p ↦
      (do file ← load p; copy ← lift (strcpy 256 note); store p (record file { annotation = copy }))
        s
]

-- One line of annotations.dat.
unfoldable pub load_note : Text → Exec NameServer Unit
unfolding attach_note
load_note line =
    let (fname, s) = strtok (lit ";") line in
    let (note, s) = strtok (lit "\n") s in
    elim fname [
      | none ↦ pure tt
      | some fname ↦ elim note [ none ↦ pure tt | some note ↦ attach_note fname note ]
    ]

unfoldable pub load_metadata : World → Exec NameServer Unit
unfolding for_lines load_user load_line load_note
load_metadata w = do
  disk ← gets (λ s. s.disk)
  each_line load_user disk.user_data
  if disk.metadata_exists
      then (do each_line (load_line w) disk.file_metadata; each_line load_note disk.annotations)
      else pure tt
