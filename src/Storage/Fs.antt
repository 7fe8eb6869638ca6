-- ===== src/Storage/Fs.antt =====
-- The calls of the file system that src/storage_server/storage_server.c makes. A path is looked up
-- as it is written: `.` and `..` are not resolved. Opening a directory for reading gives no bytes.
pub mod Laws
use lang_os_distributed_file.Base.{
  ℕ, Option, none, some, Bool, true, false, List, [], ◌∷◌, ◌++◌, Text, lit, not, ◌==◌,
  if◌then◌else◌, drop, length, str_eq, starts_with, ◌&&◌, ◌||◌,
}

pub data Node : Type 0 where
  directory : Node
  file : Text → Node

abbrev pub Fs : Type 0
Fs = List (Text × Node)

unfoldable pub node_at : Fs → Text → Option Node
node_at [] path = none
node_at ((name, node) ∷ fs) path = if str_eq name path then some node else node_at fs path

unfoldable pub without : Fs → Text → Fs
without [] path = []
without ((name, node) ∷ fs) path =
    let rest = without fs path in if str_eq name path then rest else (name, node) ∷ rest

unfoldable pub put_node : Fs → Text → Node → Fs
unfolding without
put_node fs path node = (path, node) ∷ without fs path

-- The path up to the last '/', if there is one.
unfoldable pub parent : Text → Option Text
parent [] = none
parent (c ∷ path) = elim (parent path) [
  | some up ↦ some (c ∷ up)
  | none ↦ if c == b'/' then some [] else none
]

-- A name can be made there: the directory that it lies in exists. The working directory does.
unfoldable pub has_place : Fs → Text → Bool
unfolding parent node_at
has_place fs [] = false
has_place fs (c ∷ path) = elim (parent (c ∷ path)) [
  | none ↦ true
  | some up ↦ elim (node_at fs up) [ some directory ↦ true | _ ↦ false ]
]

abbrev pub exists : Fs → Text → Bool
exists fs path = elim (node_at fs path) [ none ↦ false | some node ↦ true ]

-- fopen(path, "r"), and all that `fread` gives
unfoldable pub read_file : Fs → Text → Option Text
unfolding node_at
read_file fs path = elim (node_at fs path) [
  | none ↦ none
  | some directory ↦ some []
  | some (file content) ↦ some content
]

-- fopen(path, "w") and `fwrite`: nothing where it does not open
unfoldable pub write_file : Fs → Text → Text → Option Fs
unfolding node_at has_place put_node
write_file fs path content = elim (node_at fs path) [
  | some directory ↦ none
  | some (file old) ↦ some (put_node fs path (file content))
  | none ↦ if has_place fs path then some (put_node fs path (file content)) else none
]

-- open(path, O_WRONLY | O_CREAT | O_EXCL, 0644)
unfoldable pub create_new : Fs → Text → Option Fs
unfolding node_at has_place put_node
create_new fs path = elim (node_at fs path) [
  | some node ↦ none
  | none ↦ if has_place fs path then some (put_node fs path (file [])) else none
]

-- mkdir, whose result the callers do not use
unfoldable pub mkdir : Fs → Text → Fs
unfolding node_at has_place put_node
mkdir fs path = elim (node_at fs path) [
  | some node ↦ fs
  | none ↦ if has_place fs path then put_node fs path directory else fs
]

unfoldable pub has_children : Fs → Text → Bool
has_children [] path = false
has_children ((name, node) ∷ fs) path = starts_with name (path ++ lit "/") || has_children fs path

-- remove(path)
unfoldable pub remove : Fs → Text → Option Fs
unfolding node_at has_children without
remove fs path = elim (node_at fs path) [
  | none ↦ none
  | some (file content) ↦ some (without fs path)
  | some directory ↦ if has_children fs path then none else some (without fs path)
]

-- The names of what lies in a directory that moves.
unfoldable pub moved : Fs → Text → Text → Fs
moved [] old new = []
moved ((name, node) ∷ fs) old new =
    let rest = moved fs old new in
    if str_eq name old
    then (new, node) ∷ rest
    else if starts_with name (old ++ lit "/")
    then (new ++ drop (length old) name, node) ∷ rest
    else (name, node) ∷ rest

-- A directory moves with all that lies in it, though not into itself, and replaces an empty directory.
unfoldable pub move_directory : Fs → Text → Text → Option Fs
unfolding node_at has_place has_children without moved
move_directory fs old new =
    if starts_with new (old ++ lit "/") then none else elim (node_at fs new) [
      | some (file content) ↦ none
      | some directory ↦ if has_children fs new then none else some (moved (without fs new) old new)
      | none ↦ if has_place fs new then some (moved fs old new) else none
    ]

-- rename(old, new), for two different paths; a file does not replace a directory.
unfoldable pub rename : Fs → Text → Text → Option Fs
unfolding node_at has_place put_node without move_directory
rename fs old new = elim (node_at fs old) [
  | none ↦ none
  | some directory ↦ move_directory fs old new
  | some (file content) ↦ elim (node_at fs new) [
    | some directory ↦ none
    | some (file replaced) ↦ some (put_node (without fs old) new (file content))
    | none ↦ if has_place fs new then some (put_node (without fs old) new (file content)) else none
  ]
]
