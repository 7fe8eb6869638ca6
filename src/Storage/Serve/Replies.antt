-- ===== src/Storage/Serve/Replies.antt =====
-- Which replies of the Storage Server hold the end marker that the other side waits for.
use lang_os_distributed_file.Base.{
  Option, none, some, Bool, true, false, Text, ok, ◌≡◌, refl, arith, lit, contains, before,
  starts_with, contains-prepend, strtok, ap, ◌∙◌, Option-cases, inl, inr,
}
use lang_os_distributed_file.Storage.Fs.{Fs, read_file, remove, rename}
use lang_os_distributed_file.Storage.Sentence.{get_safe_path}
use lang_os_distributed_file.Storage.Commit.{backup_path}
use lang_os_distributed_file.Storage.Serve.{
  Storage, delimiters, serve, first_token, second_token, run_command, ss_read, ss_delete, ss_undo,
}

abbrev pub marker : Text
marker = lit "__SS_END__"

abbrev pub is_some : Option Fs → Bool
is_some none = false
is_some (some fs) = true

-- The reply to SS_DELETE holds the end marker exactly if the file was removed.
pub ss_delete-marker :
    (filename : Text) (s s' : Storage) (reply : Text)
    → ss_delete (some filename) s ≡ ok (reply, s')
    → contains reply marker ≡ is_some (remove s.fs (get_safe_path filename))
unfolding ss_delete contains before starts_with
ss_delete-marker filename s s' reply h = ground arith

-- The reply to SS_UNDO holds the end marker exactly if the backup was put back.
pub ss_undo-marker :
    (filename : Text) (s s' : Storage) (reply : Text)
    → ss_undo (some filename) s ≡ ok (reply, s')
    → contains reply marker
      ≡ is_some (rename s.fs (backup_path (get_safe_path filename)) (get_safe_path filename))
unfolding ss_undo contains before starts_with
ss_undo-marker filename s s' reply h = ground arith

-- The reply to SS_READ holds the end marker if the file could be opened, and not otherwise.
pub ss_read-marker :
    (filename : Text) (s s' : Storage) (reply : Text)
    → ss_read (some filename) s ≡ ok (reply, s')
    → contains reply marker
      ≡ (elim (read_file s.fs (get_safe_path filename)) [ none ↦ false | some content ↦ true ])
unfolding ss_read
ss_read-marker filename s s' reply h =
    elim (Option-cases (read_file s.fs (get_safe_path filename))) [
      | inl absent ↦ unfold contains before starts_with in ground arith
      | inr (content, found) ↦ ground (
        arith,
        contains-prepend content (lit "\n__SS_END__\n") marker
            (unfold contains before starts_with in refl),
      )
    ]

-- How a command is taken apart.
pub serve-tokens :
    (buffer command : Text) (a b : Option Text) (s₁ s₂ s₃ : Text)
    → strtok delimiters buffer ≡ (some command, s₁)
    → strtok delimiters s₁ ≡ (a, s₂)
    → strtok delimiters s₂ ≡ (b, s₃)
    → serve buffer ≡ run_command command a b
unfolding serve
serve-tokens buffer command a b s₁ s₂ s₃ first second third =
    ap first_token first
    ∙ ap (second_token command) second
    ∙ ap (λ (t : Option Text × Text). run_command command a t.0) third
