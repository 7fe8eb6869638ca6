-- ===== src/System/Version/Revert.antt =====
-- A checkpoint and the revert to it, through the Name Server and the Storage Server.
use lang_os_distributed_file.Base.{
  ◌<◌, ◌+◌, some, true, [], ◌++◌, Text, ok, ◌≡◌, ◌≢◌, ◌∙◌, ap, Exec, refl, arith, lit, length,
  contains, before, starts_with, member, none_of,
}
use lang_os_distributed_file.Storage.Fs.{Fs, file, node_at}
use lang_os_distributed_file.Storage.Sentence.{get_safe_path}
use lang_os_distributed_file.Storage.Serve.{Storage, serve, connected, checkpoint_path}
use lang_os_distributed_file.Storage.Commit.Parents.{CanHold}
use lang_os_distributed_file.Storage.Serve.Revert.{checkpoint_taken, revert_done}
use lang_os_distributed_file.Server.{NameServer, StorageServer, World}
use lang_os_distributed_file.Server.Find.Frame.{with_cache}
use lang_os_distributed_file.Server.Reply.{reply, quoted}
use lang_os_distributed_file.Server.Version.{
  handle_checkpoint, handle_revert, checkpoint_result, revert_result,
}
use lang_os_distributed_file.Server.Exchange.{ss_end}
use lang_os_distributed_file.System.{IsStorage}
use lang_os_distributed_file.System.Delete.{IsName}
use lang_os_distributed_file.System.Version.{
  asked, serve-tagged, tagged_command-fits, IsKnown, run_command-checkpoint, run_command-revert,
  checkpoint_command, revert_command, handle_checkpoint-heard, handle_revert-heard,
}

-- The replies to the user.
abbrev pub checkpoint_created : Text → Text → Text
checkpoint_created filename tag =
    reply
      (lit "Checkpoint " ++ (quoted tag ++ (lit " created for " ++ (quoted filename ++ lit "."))))

abbrev pub file_reverted : Text → Text → Text
file_reverted filename tag = reply (
    lit "File " ++ (quoted filename ++ (lit " reverted to checkpoint " ++ (quoted tag ++ lit "."))))

checkpoint_result-ack :
    (filename tag : Text)
    → checkpoint_result filename tag (some (lit "ACK_CHECKPOINT\n"))
      ≡ checkpoint_created filename tag
unfolding checkpoint_result contains before starts_with
checkpoint_result-ack filename tag = refl

revert_result-ack :
    (filename tag : Text)
    → revert_result filename tag (some (lit "ACK_REVERT\n")) ≡ file_reverted filename tag
unfolding revert_result contains before starts_with
revert_result-ack filename tag = refl

-- The user checkpoints the file, and the Storage Server is heard.
checkpoint_through :
    (w : World) (s : NameServer) (filename tag username path old : Text) (ss : StorageServer)
    (fs : Fs) (k : IsKnown s filename username b'R' ss)
    → IsName filename
    → IsName tag
    → length filename + length tag < 1000
    → IsStorage fs (checkpoint_command filename tag) (w.peer ss (checkpoint_command filename tag))
    → get_safe_path filename ≡ path
    → node_at fs path ≡ some (file old)
    → CanHold fs (checkpoint_path filename (some tag))
    → (t : Storage) × (serve (checkpoint_command filename tag) (connected fs)
        ≡ ok (lit "ACK_CHECKPOINT\n__SS_END__", t))
      × (node_at t.fs (checkpoint_path filename (some tag)) ≡ some (file old))
      × (handle_checkpoint w filename tag username s
          ≡ ok (checkpoint_created filename tag, with_cache s k.cache))
unfolding connected
checkpoint_through w s filename tag username path old ss fs k n m fits peer safe at_path can =
    let (t, took, at_dest, _) =
      checkpoint_taken filename tag path safe (connected fs) old at_path can in
    let plain : none_of (lit ";\n") (lit "SS_CHECKPOINT") ≡ true = unfold none_of member in refl in
    let parsed =
      serve-tagged (lit "SS_CHECKPOINT") filename tag plain (λ e. cc) n m
      ∙ run_command-checkpoint (some filename) (some tag) in
    let served = ap (λ (e : Exec Storage Text). e (connected fs)) parsed ∙ took in
    let ends : before ss_end (lit "ACK_CHECKPOINT\n__SS_END__") ≡ some (lit "ACK_CHECKPOINT\n") =
      unfold before starts_with in refl in
    let heard =
      asked fs (checkpoint_command filename tag) _ _ t w ss peer served (omega arith) ends in
    (
      t,
      served,
      at_dest,
      handle_checkpoint-heard w s filename tag username _ ss k
            (tagged_command-fits (lit "SS_CHECKPOINT") filename tag (omega arith) fits) heard
          ∙ ap (λ answer. ok (answer, with_cache s k.cache)) (checkpoint_result-ack filename tag),
    )

-- The user takes the file back to a checkpoint.
revert_through :
    (w : World) (s : NameServer) (filename tag username path old text : Text) (ss : StorageServer)
    (fs : Fs) (k : IsKnown s filename username b'W' ss)
    → IsName filename
    → IsName tag
    → length filename + length tag < 1000
    → IsStorage fs (revert_command filename tag) (w.peer ss (revert_command filename tag))
    → get_safe_path filename ≡ path
    → path ≢ []
    → node_at fs (checkpoint_path filename (some tag)) ≡ some (file old)
    → node_at fs path ≡ some (file text)
    → (t : Storage) × (serve (revert_command filename tag) (connected fs)
        ≡ ok (lit "ACK_REVERT\n__SS_END__", t))
      × (node_at t.fs path ≡ some (file old))
      × (handle_revert w filename tag username s
          ≡ ok (file_reverted filename tag, with_cache s k.cache))
unfolding connected
revert_through w s filename tag username path old text ss fs k n m fits peer safe ne at_dest
      at_path =
    let (t, took, at_path', _) =
      revert_done filename tag path safe (connected fs) old text at_dest ne at_path in
    let plain : none_of (lit ";\n") (lit "SS_REVERT") ≡ true = unfold none_of member in refl in
    let parsed =
      serve-tagged (lit "SS_REVERT") filename tag plain (λ e. cc) n m
      ∙ run_command-revert (some filename) (some tag) in
    let served = ap (λ (e : Exec Storage Text). e (connected fs)) parsed ∙ took in
    let ends : before ss_end (lit "ACK_REVERT\n__SS_END__") ≡ some (lit "ACK_REVERT\n") =
      unfold before starts_with in refl in
    let heard = asked fs (revert_command filename tag) _ _ t w ss peer served (omega arith) ends in
    (
      t,
      served,
      at_path',
      handle_revert-heard w s filename tag username _ ss k
            (tagged_command-fits (lit "SS_REVERT") filename tag (omega arith) fits) heard
          ∙ ap (λ answer. ok (answer, with_cache s k.cache)) (revert_result-ack filename tag),
    )

-- A user who may read a file takes a checkpoint of it. The names pass through the commands whole and
-- have fewer than 1000 bytes together, and that of the file has no ".."; the path of the checkpoint
-- has at most 255 bytes and ends in no slash, no file stands where a directory on it has to be, and no
-- directory has its name, but its directories need not exist. Later, in whatever state the Name Server
-- and the Storage Server are then, as long as both have the file and the latter has the checkpoint as it
-- was, a user who may write reverts to it. The Storage Server's replies being the ones that its code
-- sends, in whatever portions, both users are told of the success, the Name Server changes its cache
-- only, and the file has the content again that it had at the checkpoint.
pub checkpoint_and_revert :
    (w w' : World) (s s' : NameServer) (filename tag username username' path old text : Text)
    (ss : StorageServer) (fs gs : Fs) (t : Storage) (ack : Text)
    (k : IsKnown s filename username b'R' ss) (k' : IsKnown s' filename username' b'W' ss)
    → IsName filename
    → IsName tag
    → length filename + length tag < 1000
    → get_safe_path filename ≡ path
    → path ≢ []
    → IsStorage fs (checkpoint_command filename tag) (w.peer ss (checkpoint_command filename tag))
    → node_at fs path ≡ some (file old)
    → CanHold fs (checkpoint_path filename (some tag))
    → serve (checkpoint_command filename tag) (connected fs) ≡ ok (ack, t)
    → IsStorage gs (revert_command filename tag) (w'.peer ss (revert_command filename tag))
    → node_at gs (checkpoint_path filename (some tag))
      ≡ node_at t.fs (checkpoint_path filename (some tag))
    → node_at gs path ≡ some (file text)
    → (handle_checkpoint w filename tag username s
        ≡ ok (checkpoint_created filename tag, with_cache s k.cache))
      × ((handle_revert w' filename tag username' s'
            ≡ ok (file_reverted filename tag, with_cache s' k'.cache))
          × ((u : Storage) × (serve (revert_command filename tag) (connected gs)
                ≡ ok (lit "ACK_REVERT\n__SS_END__", u))
              × (node_at u.fs path ≡ some (file old))))
checkpoint_and_revert w w' s s' filename tag username username' path old text ss fs gs t ack k k' n
      m fits safe ne peer at_path can served peer' same at_path' =
    let (t', served', at_dest, told) =
      checkpoint_through w s filename tag username path old ss fs k n m fits peer safe at_path
        can in
    let agree : t ≡ t' = cc in
    let at_dest' : node_at gs (checkpoint_path filename (some tag)) ≡ some (file old) =
      same
      ∙ (ap (λ (x : Storage). node_at x.fs (checkpoint_path filename (some tag))) agree
          ∙ at_dest) in
    let (u, reverted, back, told') =
      revert_through w' s' filename tag username' path old text ss gs k' n m fits peer' safe ne
        at_dest' at_path' in
    (told, (told', (u, reverted, back)))
