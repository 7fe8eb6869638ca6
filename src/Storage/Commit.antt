-- ===== src/Storage/Commit.antt =====
-- src/storage_server/storage_server.c: `commit_changes`, `ensure_directory_exists`, `copy_file`.
pub mod Names
pub mod Steps
pub mod Undo
pub mod Parents
pub mod Copy
use lang_os_distributed_file.Base.{
  ℕ, Option, none, some, Bool, true, false, List, [], ◌∷◌, ◌++◌, Text, ℤ, Run, ok, fault, blocked,
  and_then, lit, ◌==◌, if◌then◌else◌, snprintf, null_pointer, wild_pointer, buffer_overflow,
}
use lang_os_distributed_file.Storage.Fs.{
  Fs, directory, file, node_at, read_file, write_file, rename, mkdir,
}
use lang_os_distributed_file.Storage.Sentence.{WriteOp, get_safe_path, rewrite}

-- snprintf(backup_path, 256, "%s.bak", filepath)
unfoldable pub backup_path : Text → Text
backup_path filepath = snprintf 256 (filepath ++ lit ".bak")

unfoldable pub tmp_path : Text → Text
tmp_path filepath = snprintf 260 (filepath ++ lit ".tmp")

-- A result that is only reported where the call fails.
abbrev pub or_same : Fs → Option Fs → Fs
or_same fs none = fs
or_same fs (some fs') = fs'

-- The old file becomes the backup, if there was one.
unfoldable pub make_backup : Fs → Text → Bool → Fs
unfolding rename backup_path
make_backup fs filepath existed =
    if existed then or_same fs (rename fs filepath (backup_path filepath)) else fs

-- The rename that commits; where it fails, the backup is put back.
unfoldable pub commit_tmp : Fs → Text → Fs
unfolding rename backup_path tmp_path
commit_tmp fs filepath = elim (rename fs (tmp_path filepath) filepath) [
  | some fs' ↦ fs'
  | none ↦ or_same fs (rename fs (backup_path filepath) filepath)
]

-- `fwrite` to a file that did not open follows a NULL pointer.
unfoldable pub write_back : Fs → Text → Bool → Text → Run Fs
unfolding write_file make_backup commit_tmp
write_back fs filepath existed content = elim (write_file fs (tmp_path filepath) content) [
  | none ↦ fault null_pointer
  | some fs' ↦ ok (commit_tmp (make_backup fs' filepath existed) filepath)
]

abbrev pub or_empty : Option Text → Text
or_empty none = []
or_empty (some content) = content

abbrev pub is_some : Option Text → Bool
is_some none = false
is_some (some content) = true

-- The content is rewritten, and written back where it has the sentence.
unfoldable pub edit_content : Fs → Text → Option Text → ℤ → List WriteOp → Run Fs
unfolding write_back
edit_content fs filepath old sentence_num ops =
    and_then (rewrite (or_empty old) sentence_num ops) λ result. elim result [
      | none ↦ ok fs
      | some content ↦ write_back fs filepath (is_some old) content
    ]

-- From `fopen` on; `f_read` is NULL where there was no file, and the content then is empty. A directory
-- opens, and ftell gives the greatest long, for which there is no memory: the NUL is written astray.
unfoldable pub commit_at : Fs → Text → ℤ → List WriteOp → Run Fs
unfolding edit_content
commit_at fs filepath sentence_num ops = elim (node_at fs filepath) [
  | some directory ↦ fault wild_pointer
  | some (file content) ↦ edit_content fs filepath (some content) sentence_num ops
  | none ↦ edit_content fs filepath none sentence_num ops
]

unfoldable pub commit_changes : Fs → Text → ℤ → List WriteOp → Run Fs
unfolding commit_at
commit_changes fs filename sentence_num ops = elim (get_safe_path filename) [
  | [] ↦ ok fs
  | c ∷ path ↦ commit_at fs (c ∷ path) sentence_num ops
]

-- The loop of `ensure_directory_exists` over the rest of the path, `done` being what stands in
-- front of it: `mkdir` is called twice for each '/'.
unfoldable pub make_parents : Fs → Text → Text → Fs
unfolding mkdir
make_parents fs done [] = fs
make_parents fs done (c ∷ path) =
    make_parents (if c == b'/' then mkdir (mkdir fs done) done else fs) (done ++ (c ∷ [])) path

-- temp[len - 1] == '/'
unfoldable pub drop_slash : Text → Text
drop_slash [] = []
drop_slash (c ∷ []) = if c == b'/' then [] else c ∷ []
drop_slash (c ∷ d ∷ s) = c ∷ drop_slash (d ∷ s)

-- The loop begins behind the first byte. An empty path is read in front of its buffer.
unfoldable pub ensure_directory_exists : Fs → Text → Run Fs
unfolding make_parents drop_slash
ensure_directory_exists fs [] = fault buffer_overflow
ensure_directory_exists fs (c ∷ path) = elim (drop_slash (snprintf 256 (c ∷ path))) [
  | [] ↦ ok fs
  | c ∷ path ↦ ok (make_parents fs (c ∷ []) path)
]

-- Whether the function returns 0.
unfoldable pub copy_file : Fs → Text → Text → Run (Bool × Fs)
unfolding read_file ensure_directory_exists write_file
copy_file fs src_path dest_path = elim (read_file fs src_path) [
  | none ↦ ok (false, fs)
  | some content ↦ and_then (ensure_directory_exists fs dest_path) λ fs.
      elim (write_file fs dest_path content) [ none ↦ ok (false, fs) | some fs' ↦ ok (true, fs') ]
]
