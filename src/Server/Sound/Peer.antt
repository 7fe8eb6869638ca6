-- ===== src/Server/Sound/Peer.antt =====
-- The exchange with a Storage Server reads no freed memory, and neither do the copies of strings.
use lang_os_distributed_file.Base.{
  ℕ, Option, some, none, List, [], ◌∷◌, ◌++◌, Text, arith, length, Exec, Run, ok, fault, blocked,
  Bool, ◌>>=◌, lift, strcpy, ltb, Bool-cases, inl, inr, take,
}
use lang_os_distributed_file.Server.{NameServer, Peer}
use lang_os_distributed_file.Server.Exchange.{connect_and_send_to_ss, recv_loop, cut_reply, room}
use lang_os_distributed_file.Server.Sound.{Upholds, Keeps}
use lang_os_distributed_file.Server.Sound.Rules.{Clean, Keeps-lift}

Clean-recv_loop :
    (closes : Bool) (chunks : List Text) (buffer : Text) → Clean (recv_loop closes chunks buffer)
unfolding recv_loop
Clean-recv_loop closes [] buffer = ground arith
Clean-recv_loop closes (chunk ∷ chunks) buffer =
    ground (arith, Clean-recv_loop closes chunks (buffer ++ take (room buffer) chunk))

Clean-cut_reply : (r : Run (Option Text)) → Clean r → Clean (cut_reply r)
Clean-cut_reply (ok (some buffer)) h bad = cc
Clean-cut_reply (ok none) h bad = cc
Clean-cut_reply (fault e) h bad = h (cc)
Clean-cut_reply blocked h bad = cc

Clean-connect : (peer : Peer) → Clean (connect_and_send_to_ss peer)
unfolding connect_and_send_to_ss
Clean-connect peer =
    let clean = Clean-cut_reply _ (Clean-recv_loop peer.closes peer.arriving []) in
    ground (arith, clean)

pub Keeps-connect : (peer : Peer) → Keeps (lift (connect_and_send_to_ss peer))
Keeps-connect peer = Keeps-lift (connect_and_send_to_ss peer) (Clean-connect peer)

-- What follows a copy runs with the text that was copied.
pub Upholds-strcpy :
    {A : Type 0} (size : ℕ) (text : Text) (k : Text → Exec NameServer A) (s : NameServer)
    → Upholds s (k text s)
    → Upholds s ((lift (strcpy size text) >>= k) s)
unfolding strcpy
Upholds-strcpy size text k s h = elim (Bool-cases (ltb (length text) size)) [
  | inl fits ↦ rw fits h
  | inr long ↦ rw long (λ bad. cc)
]
