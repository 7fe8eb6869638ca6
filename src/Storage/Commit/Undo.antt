-- ===== src/Storage/Commit/Undo.antt =====
-- A commit to a file that exists keeps the old content as the backup, and an undo brings it back.
use lang_os_distributed_file.Base.{
  none, some, false, List, [], ◌∷◌, ◌++◌, Text, ℤ, ok, ◌≡◌, ◌≢◌, refl, ◌∙◌, arith, lit, str_eq,
  str_eq_iff, str_eq_refl,
}
use lang_os_distributed_file.Storage.Fs.{file, Fs, node_at, rename}
use lang_os_distributed_file.Storage.Sentence.{WriteOp, get_safe_path, rewrite}
use lang_os_distributed_file.Storage.Commit.{backup_path, commit_at, commit_changes}
use lang_os_distributed_file.Storage.Commit.Names.{bak, tmp, backup_path-bak, names}
use lang_os_distributed_file.Storage.Commit.Steps.{
  IsCommittable, committed, undone, at_written, at_backed_up, at_committed, undone-step, at_undone,
  commit_at-committed,
}

pub commit_changes-safe :
    (fs : Fs) (filename path : Text) (n : ℤ) (ops : List WriteOp)
    → get_safe_path filename ≡ path
    → path ≢ []
    → commit_changes fs filename n ops ≡ commit_at fs path n ops
unfolding commit_changes
commit_changes-safe fs filename [] n ops safe ne = absurd (ne refl)
commit_changes-safe fs filename (c ∷ path) n ops safe ne = ground arith

-- A commit of a sentence that exists, to a file that can be committed to, succeeds: the file has
-- the new content, the backup has the old one, the temporary file is gone, and every other path is
-- as it was.
pub commit_total :
    (fs : Fs) (filename path old text : Text) (n : ℤ) (ops : List WriteOp)
    → get_safe_path filename ≡ path
    → path ≢ []
    → IsCommittable fs path old
    → rewrite old n ops ≡ ok (some text)
    → (fs' : Fs) × (commit_changes fs filename n ops ≡ ok fs')
      × (node_at fs' path ≡ some (file text))
      × (node_at fs' (path ++ lit ".bak") ≡ some (file old))
      × (node_at fs' (path ++ lit ".tmp") ≡ none)
      × ((q : Text)
          → str_eq path q ≡ false
          → str_eq (path ++ lit ".bak") q ≡ false
          → str_eq (path ++ lit ".tmp") q ≡ false
          → node_at fs' q ≡ node_at fs q)
commit_total fs filename path old text n ops safe some_path c edited = (
  committed fs path old text,
  commit_changes-safe fs filename path n ops safe some_path
      ∙ commit_at-committed fs path old text c n ops edited,
  ground (arith, at_committed fs path old text c path, str_eq_refl path),
  ground (
    arith,
    at_committed fs path old text c (bak path),
    at_backed_up fs path old text c (bak path),
    str_eq_refl (bak path),
    names path,
  ),
  ground (arith, at_committed fs path old text c (tmp path), str_eq_refl (tmp path), names path),
  λ q p b t. ground (
    arith,
    at_committed fs path old text c q,
    at_backed_up fs path old text c q,
    at_written fs path old text c q,
  ),
)

-- After such a commit, renaming the backup back gives the file its old content, and every path
-- but the temporary file's and the backup's is as it was before the commit.
pub undo_total :
    (fs : Fs) (path old text : Text)
    → IsCommittable fs path old
    → (fs' : Fs) × (rename (committed fs path old text) (backup_path path) path ≡ some fs')
      × (node_at fs' path ≡ some (file old))
      × (node_at fs' (path ++ lit ".bak") ≡ none)
      × ((q : Text)
          → str_eq (path ++ lit ".bak") q ≡ false
          → str_eq (path ++ lit ".tmp") q ≡ false
          → node_at fs' q ≡ node_at fs q)
undo_total fs path old text c = (
  undone fs path old text,
  rw (backup_path-bak path c.short) (undone-step fs path old text c),
  ground (arith, at_undone fs path old text c path, str_eq_refl path),
  ground (arith, at_undone fs path old text c (bak path), str_eq_refl (bak path), names path),
  λ q b t. ground (
    arith,
    str_eq_iff path q,
    c.content,
    at_undone fs path old text c q,
    at_committed fs path old text c q,
    at_backed_up fs path old text c q,
    at_written fs path old text c q,
  ),
)
