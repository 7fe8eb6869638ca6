-- ===== src/Storage/Serve/Undo.antt =====
-- A write session and its undo, as the connection runs them.
use lang_os_distributed_file.Base.{
  some, false, [], ◌++◌, Text, negsuc, ok, ◌≡◌, ◌≢◌, ◌∙◌, refl, arith, lit, ◌>>◌, str_eq,
}
use lang_os_distributed_file.Storage.Fs.{file, node_at}
use lang_os_distributed_file.Storage.Sentence.{get_safe_path, rewrite}
use lang_os_distributed_file.Storage.Commit.{commit_changes}
use lang_os_distributed_file.Storage.Commit.Undo.{commit_changes-safe, undo_total}
use lang_os_distributed_file.Storage.Commit.Steps.{IsCommittable, committed, commit_at-committed}
use lang_os_distributed_file.Storage.Serve.{Storage, commit_write, ss_undo}

-- Where the locked sentence exists in a file that can be committed to, COMMIT_WRITE followed by
-- SS_UNDO of that file succeeds: the file has its old content, the connection holds no operations
-- and no lock, and every path but the backup's and the temporary file's is as it was.
pub commit_then_undo :
    (s : Storage) (path old text : Text)
    → get_safe_path s.locked_filename ≡ path
    → path ≢ []
    → IsCommittable s.fs path old
    → rewrite old s.locked_sentence_num s.write_head ≡ ok (some text)
    → (s' : Storage) × ((do commit_write; ss_undo (some s.locked_filename)) s
        ≡ ok (lit "ACK_UNDO\n__SS_END__", s'))
      × (node_at s'.fs path ≡ some (file old))
      × (s'.write_head ≡ [])
      × (s'.locked_filename ≡ [])
      × ((q : Text)
          → str_eq (path ++ lit ".bak") q ≡ false
          → str_eq (path ++ lit ".tmp") q ≡ false
          → node_at s'.fs q ≡ node_at s.fs q)
unfolding commit_write ss_undo
commit_then_undo s path old text safe ne c edited =
    let done : commit_changes s.fs s.locked_filename s.locked_sentence_num s.write_head
        ≡ ok (committed s.fs path old text) =
      commit_changes-safe s.fs s.locked_filename path s.locked_sentence_num s.write_head safe ne
      ∙ commit_at-committed s.fs path old text c s.locked_sentence_num s.write_head edited in
    let (fs', back, at_path, gone, rest) = undo_total s.fs path old text c in
    (
      record { fs = fs'; write_head = []; locked_sentence_num = negsuc 0; locked_filename = [] },
      ground (arith, done, back, safe),
      at_path,
      refl,
      refl,
      rest,
    )
