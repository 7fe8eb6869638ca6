-- ===== src/System.antt =====
-- The Name Server and a Storage Server together: what a handler of the Name Server does when the
-- reply that it waits for is the one that the code of the Storage Server sends.
pub mod Delete
pub mod Read
pub mod Version
pub mod Register
pub mod Files
mod Witnesses
use lang_os_distributed_file.Base.{ℕ, List, Text, Bool, false, Run, ok, fault, blocked, [], ◌≡◌}
use lang_os_distributed_file.Storage.Fs.{Fs}
use lang_os_distributed_file.Storage.Serve
use lang_os_distributed_file.Storage.Serve.{Storage, connected}
use lang_os_distributed_file.Server.{Peer}
use lang_os_distributed_file.Server.Exchange.Laws.{AreNonempty, all_of, answering}

-- The bytes that a fresh connection to the Storage Server sends for one command.
unfoldable pub storage_reply : Fs → Text → Text
storage_reply fs command = elim (Serve.serve command (connected fs)) [
  | ok (reply, s) ↦ reply
  | fault e ↦ []
  | blocked ↦ []
]

-- The peer is that connection: its reply arrives in some portions, and it stays open, since
-- `handle_ss_connection` waits for the next command.
pub record IsStorage (fs : Fs) (command : Text) (peer : Peer) : Type 0 where
  pub chunks : List Text
  pub nonempty : AreNonempty chunks
  pub bytes : all_of chunks ≡ storage_reply fs command
  pub open_end : peer ≡ answering chunks false
