-- ===== src/Storage/Serve/Revert.antt =====
-- A checkpoint and the revert to it, as the connections run them.
use lang_os_distributed_file.Base.{some, false, [], Text, ok, ◌≡◌, ◌≢◌, ap, ◌∙◌, arith, lit, str_eq}
use lang_os_distributed_file.Storage.Fs.{Node, file, node_at}
use lang_os_distributed_file.Storage.Sentence.{get_safe_path}
use lang_os_distributed_file.Storage.Commit.Copy.{copy_file_lem, copy_over}
use lang_os_distributed_file.Storage.Commit.Parents.{CanHold}
use lang_os_distributed_file.Storage.Serve.{Storage, ss_checkpoint, ss_revert, checkpoint_path}

module _ (name tag path : Text) (safe : get_safe_path name ≡ path) where
  -- A checkpoint of a file, whose path can hold a file once its directories are made, is
  -- acknowledged; the checkpoint has the content of the file, and what existed under other names is
  -- as it was.
  pub checkpoint_taken :
      (s : Storage) (old : Text)
      → node_at s.fs path ≡ some (file old)
      → CanHold s.fs (checkpoint_path name (some tag))
      → (s' : Storage) × (ss_checkpoint (some name) (some tag) s
          ≡ ok (lit "ACK_CHECKPOINT\n__SS_END__", s'))
        × (node_at s'.fs (checkpoint_path name (some tag)) ≡ some (file old))
        × ((q : Text) (node : Node)
            → str_eq (checkpoint_path name (some tag)) q ≡ false
            → node_at s.fs q ≡ some node
            → node_at s'.fs q ≡ some node)
  unfolding ss_checkpoint
  checkpoint_taken s old at_path can =
      let (fs', copied, at_dest, kept) =
        copy_file_lem s.fs path old (checkpoint_path name (some tag)) at_path can in
      (record s { fs = fs' }, ground (arith, safe, copied), at_dest, kept)

  pub revert_done :
      (u : Storage) (old text : Text)
      → node_at u.fs (checkpoint_path name (some tag)) ≡ some (file old)
      → path ≢ []
      → node_at u.fs path ≡ some (file text)
      → (t : Storage) × (ss_revert (some name) (some tag) u ≡ ok (lit "ACK_REVERT\n__SS_END__", t))
        × (node_at t.fs path ≡ some (file old))
        × ((q : Text) (node : Node)
            → str_eq path q ≡ false
            → node_at u.fs q ≡ some node
            → node_at t.fs q ≡ some node)
  unfolding ss_revert
  revert_done u old text at_dest given at_path =
      let (fs', copied, at_path', kept) =
        copy_over u.fs (checkpoint_path name (some tag)) path old text at_dest given at_path in
      (record u { fs = fs' }, ground (arith, safe, copied), at_path', kept)

-- A connection takes a checkpoint of a file whose name has no "..". If the path of the checkpoint has
-- at most 255 bytes and ends in no slash, no file stands where a directory on it has to be, and no
-- directory has its name, the checkpoint is acknowledged, whether its directories exist already or
-- are to be made. In any later state in which the checkpoint is as it was then, and the file is there
-- with whatever content, a revert by any connection is acknowledged, and gives the file the content
-- that it had at the checkpoint. The checkpoint and every other thing that exists
-- stay, so that a second revert would do the same.
pub checkpoint_then_revert :
    (s s₁ u : Storage) (name tag path old text reply : Text)
    → get_safe_path name ≡ path
    → path ≢ []
    → node_at s.fs path ≡ some (file old)
    → CanHold s.fs (checkpoint_path name (some tag))
    → ss_checkpoint (some name) (some tag) s ≡ ok (reply, s₁)
    → node_at u.fs (checkpoint_path name (some tag))
      ≡ node_at s₁.fs (checkpoint_path name (some tag))
    → node_at u.fs path ≡ some (file text)
    → (reply ≡ lit "ACK_CHECKPOINT\n__SS_END__")
      × ((t : Storage) × (ss_revert (some name) (some tag) u ≡ ok (lit "ACK_REVERT\n__SS_END__", t))
          × (node_at t.fs path ≡ some (file old))
          × ((q : Text) (node : Node)
              → str_eq path q ≡ false
              → node_at u.fs q ≡ some node
              → node_at t.fs q ≡ some node))
checkpoint_then_revert s s₁ u name tag path old text reply safe ne at_path can taken same at_path' =
    let (s', took, at_dest, _) = checkpoint_taken name tag path safe s old at_path can in
    let agree : (reply ≡ lit "ACK_CHECKPOINT\n__SS_END__") × (s₁ ≡ s') = (cc, cc) in
    let at_dest' : node_at u.fs (checkpoint_path name (some tag)) ≡ some (file old) =
      same
      ∙ (ap (λ (x : Storage). node_at x.fs (checkpoint_path name (some tag))) agree.1 ∙ at_dest) in
    (agree.0, revert_done name tag path safe u old text at_dest' ne at_path')
