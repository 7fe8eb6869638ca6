-- ===== src/Storage/Commit/Steps.antt =====
-- The steps of a commit to a file that exists, and of the undo of it.
use lang_os_distributed_file.Base.{
  ◌<◌, none, some, true, false, List, ◌++◌, Text, ℤ, ok, ◌≡◌, refl, ◌∙◌, arith, lit, if◌then◌else◌,
  length, str_eq, str_eq_refl,
}
use lang_os_distributed_file.Storage.Fs.{
  file, Fs, node_at, put_node, parent, has_place, write_file, rename,
}
use lang_os_distributed_file.Storage.Fs.Laws.{
  is_directory, node_at-put_node, node_at-renamed, renamed, rename-renamed, write_file-put_node,
  has_place-append, has_place-put_node, has_place-renamed,
}
use lang_os_distributed_file.Storage.Sentence.{WriteOp, rewrite}
use lang_os_distributed_file.Storage.Commit.{
  make_backup, commit_tmp, write_back, commit_at, edit_content,
}
use lang_os_distributed_file.Storage.Commit.Names.{bak, tmp, backup_path-bak, tmp_path-tmp, names}

-- The file systems after the four steps.
abbrev pub written : Fs → Text → Text → Fs
written fs path text = put_node fs (tmp path) (file text)

abbrev pub backed_up : Fs → Text → Text → Text → Fs
backed_up fs path old text = renamed (written fs path text) path (bak path) old

abbrev pub committed : Fs → Text → Text → Text → Fs
committed fs path old text = renamed (backed_up fs path old text) (tmp path) path text

abbrev pub undone : Fs → Text → Text → Text → Fs
undone fs path old text = renamed (committed fs path old text) (bak path) path old

-- A file that can be committed to: its name is short enough for the names made from it, its
-- directory exists, and no directory has the name of the backup or of the temporary file.
pub record IsCommittable (fs : Fs) (path old : Text) : Type 0 where
  pub short : length path < 252
  pub content : node_at fs path ≡ some (file old)
  pub place : has_place fs path ≡ true
  pub no_tmp : is_directory (node_at fs (path ++ lit ".tmp")) ≡ false
  pub no_bak : is_directory (node_at fs (path ++ lit ".bak")) ≡ false

module _ (fs : Fs) (path old text : Text) (c : IsCommittable fs path old) where
  -- What the steps find at the three names.
  pub at_written :
      (q : Text)
      → node_at (written fs path text) q
        ≡ (if str_eq (tmp path) q then some (file text) else node_at fs q)
  at_written q = node_at-put_node fs (tmp path) q (file text)

  place-written : (q : Text) → has_place (written fs path text) q ≡ has_place fs q
  place-written q = has_place-put_node fs (tmp path) q text c.no_tmp

  written-step : write_file fs (tmp path) text ≡ some (written fs path text)
  written-step =
      write_file-put_node fs (tmp path) text c.no_tmp
        (has_place-append fs path (lit ".tmp") (unfold parent in refl) c.place)

  pub at_backed_up :
      (q : Text)
      → node_at (backed_up fs path old text) q ≡ (
          if str_eq (bak path) q
          then some (file old)
          else if str_eq path q
          then none
          else node_at (written fs path text) q)
  at_backed_up q = node_at-renamed (written fs path text) path (bak path) old q

  backed_up-step : rename (written fs path text) path (bak path) ≡ some (backed_up fs path old text)
  backed_up-step =
      rename-renamed (written fs path text) path (bak path) old
        (ground (arith, at_written path, names path, c.content))
        (ground (arith, at_written (bak path), names path, c.no_bak))
        (place-written (bak path)
          ∙ has_place-append fs path (lit ".bak") (unfold parent in refl) c.place)

  place-backed_up : (q : Text) → has_place (backed_up fs path old text) q ≡ has_place fs q
  place-backed_up q =
      has_place-renamed (written fs path text) path (bak path) old q
        (ground (arith, at_written path, names path, c.content))
        (ground (arith, at_written (bak path), names path, c.no_bak))
      ∙ place-written q

  committed-step :
      rename (backed_up fs path old text) (tmp path) path ≡ some (committed fs path old text)
  committed-step =
      rename-renamed (backed_up fs path old text) (tmp path) path text
        (ground (
          arith,
          at_backed_up (tmp path),
          at_written (tmp path),
          str_eq_refl (tmp path),
          names path,
        ))
        (ground (arith, at_backed_up path, str_eq_refl path, names path))
        (place-backed_up path ∙ c.place)

  place-committed : (q : Text) → has_place (committed fs path old text) q ≡ has_place fs q
  place-committed q =
      has_place-renamed (backed_up fs path old text) (tmp path) path text q
        (ground (
          arith,
          at_backed_up (tmp path),
          at_written (tmp path),
          str_eq_refl (tmp path),
          names path,
        ))
        (ground (arith, at_backed_up path, str_eq_refl path, names path))
      ∙ place-backed_up q

  pub at_committed :
      (q : Text)
      → node_at (committed fs path old text) q ≡ (
          if str_eq path q
          then some (file text)
          else if str_eq (tmp path) q
          then none
          else node_at (backed_up fs path old text) q)
  at_committed q = node_at-renamed (backed_up fs path old text) (tmp path) path text q

  pub undone-step :
      rename (committed fs path old text) (bak path) path ≡ some (undone fs path old text)
  undone-step =
      rename-renamed (committed fs path old text) (bak path) path old
        (ground (
          arith,
          at_committed (bak path),
          at_backed_up (bak path),
          str_eq_refl (bak path),
          names path,
        ))
        (ground (arith, at_committed path, str_eq_refl path)) (place-committed path ∙ c.place)

  pub at_undone :
      (q : Text)
      → node_at (undone fs path old text) q ≡ (
          if str_eq path q
          then some (file old)
          else if str_eq (bak path) q
          then none
          else node_at (committed fs path old text) q)
  at_undone q = node_at-renamed (committed fs path old text) (bak path) path old q

  write_back-committed : write_back fs path true text ≡ ok (committed fs path old text)
  unfolding write_back make_backup commit_tmp
  write_back-committed = ground (
    arith,
    backup_path-bak path c.short,
    tmp_path-tmp path c.short,
    written-step,
    backed_up-step,
    committed-step,
  )

  pub commit_at-committed :
      (n : ℤ) (ops : List WriteOp)
      → rewrite old n ops ≡ ok (some text)
      → commit_at fs path n ops ≡ ok (committed fs path old text)
  unfolding commit_at edit_content
  commit_at-committed n ops edited = ground (arith, c.content, write_back-committed, edited)
