-- ===== src/Server/Sound/Asks.antt =====
-- The handlers of src/name_server/CRWD.c that change nothing but the cache: redirects, requests to
-- the Storage Server, and what is told of one file.
use lang_os_distributed_file.Base.{
  Option, ◌++◌, Text, ℤ, length, lit, Exec, Bool, if◌then◌else◌, ◌>>=◌, pure, lift, not, ◌==◌,
  snprintf,
}
use lang_os_distributed_file.Server.{NameServer, FileMetadata, World, target_ss}
use lang_os_distributed_file.Server.Find.{check_permission, with_file}
use lang_os_distributed_file.Server.Reply.{file_not_found, no_such_file, max_buffer_size}
use lang_os_distributed_file.Server.Redirect.{
  redirect_to, handle_read, handle_write, handle_stream, denied, write_denied,
}
use lang_os_distributed_file.Server.Version.{
  ask_ss, handle_undo, handle_checkpoint, handle_revert, handle_view_checkpoint, undo_denied,
  undo_result, permission_denied, tagged_command, checkpoint_result, revert_result,
  view_checkpoint_result,
}
use lang_os_distributed_file.Server.Script.{handle_exec, exec_not_found, read_denied, exec_result}
use lang_os_distributed_file.Server.Exchange.{connect_and_send_to_ss}
use lang_os_distributed_file.Server.Meta.{read_command}
use lang_os_distributed_file.Server.Annotate.{
  handle_show_annotation, no_annotations, annotation_for,
}
use lang_os_distributed_file.Server.Sound.{
  Extends-refl, Keeps, Keeps-bind, Keeps-pure, Upholds-test,
}
use lang_os_distributed_file.Server.Sound.Rules.{Keeps-with_file, Keeps-target_ss}
use lang_os_distributed_file.Server.Sound.Peer.{Keeps-connect}

-- A lookup, a test, and then code that needs no file.
pub Keeps-guarded :
    (name : Text) (missing : Exec NameServer Text) (test : FileMetadata → Bool)
    (refusal : FileMetadata → Text) (m : FileMetadata → Exec NameServer Text)
    → Keeps missing
    → ((file : FileMetadata) → Keeps (m file))
    → Keeps (with_file name missing (λ p file. if test file then pure (refusal file) else m file))
Keeps-guarded name missing test refusal m none_there keeps =
    Keeps-with_file name missing _ none_there λ p file s sound at_p.
      Upholds-test s (test file) _ _ (sound, Extends-refl s) (keeps file s sound)

Keeps-redirect_to :
    (kind : Text) (file : FileMetadata) (name : Text) → Keeps (redirect_to kind file name)
unfolding redirect_to
Keeps-redirect_to kind file name =
    Keeps-bind (target_ss file) _ (Keeps-target_ss file) λ ss s sound. (sound, Extends-refl s)

pub Keeps-read : (name user : Text) → Keeps (handle_read name user)
unfolding handle_read
Keeps-read name user =
    Keeps-guarded name (pure (file_not_found name)) (λ file. not (check_permission file user b'R'))
      (λ file. denied name) _ (Keeps-pure (file_not_found name))
      (λ file. Keeps-redirect_to (lit "REDIRECT_READ") file name)

pub Keeps-stream : (name user : Text) → Keeps (handle_stream name user)
unfolding handle_stream
Keeps-stream name user =
    Keeps-guarded name (pure (file_not_found name)) (λ file. not (check_permission file user b'R'))
      (λ file. denied name) _ (Keeps-pure (file_not_found name))
      (λ file. Keeps-redirect_to (lit "REDIRECT_STREAM") file name)

pub Keeps-write : (name : Text) (n : ℤ) (user : Text) → Keeps (handle_write name n user)
unfolding handle_write
Keeps-write name n user =
    Keeps-guarded name (pure (file_not_found name)) (λ file. not (check_permission file user b'W'))
      (λ file. write_denied name) _ (Keeps-pure (file_not_found name))
      (λ file.
        Keeps-bind (target_ss file) _ (Keeps-target_ss file) λ ss s sound. (sound, Extends-refl s))

module _ (w : World) where
  Keeps-ask_ss : (file : FileMetadata) (command : Text) → Keeps (ask_ss w file command)
  unfolding ask_ss
  Keeps-ask_ss file command =
      Keeps-bind (target_ss file) _ (Keeps-target_ss file)
        λ ss. Keeps-connect (w.peer ss (snprintf max_buffer_size command))

  -- A request to the Storage Server, and a reply by its answer.
  Keeps-asked :
      (file : FileMetadata) (command : Text) (result : Option Text → Text)
      → Keeps (ask_ss w file command >>= λ answer. pure (result answer))
  Keeps-asked file command result =
      Keeps-bind (ask_ss w file command) _ (Keeps-ask_ss file command)
        λ answer. Keeps-pure (result answer)

  pub Keeps-undo : (name user : Text) → Keeps (handle_undo w name user)
  unfolding handle_undo
  Keeps-undo name user =
      Keeps-guarded name (pure (file_not_found name))
        (λ file. not (check_permission file user b'W')) (λ file. undo_denied name) _
        (Keeps-pure (file_not_found name))
        (λ file. Keeps-asked file (lit "SS_UNDO;" ++ (name ++ lit "\n")) (undo_result name))

  pub Keeps-checkpoint : (name tag user : Text) → Keeps (handle_checkpoint w name tag user)
  unfolding handle_checkpoint
  Keeps-checkpoint name tag user =
      Keeps-guarded name (pure no_such_file) (λ file. not (check_permission file user b'R'))
        (λ file. permission_denied) _ (Keeps-pure no_such_file)
        (λ file.
          Keeps-asked file (tagged_command (lit "SS_CHECKPOINT") name tag)
            (checkpoint_result name tag))

  pub Keeps-revert : (name tag user : Text) → Keeps (handle_revert w name tag user)
  unfolding handle_revert
  Keeps-revert name tag user =
      Keeps-guarded name (pure no_such_file) (λ file. not (check_permission file user b'W'))
        (λ file. permission_denied) _ (Keeps-pure no_such_file)
        (λ file.
          Keeps-asked file (tagged_command (lit "SS_REVERT") name tag) (revert_result name tag))

  pub Keeps-view_checkpoint :
      (name tag user : Text) → Keeps (handle_view_checkpoint w name tag user)
  unfolding handle_view_checkpoint
  Keeps-view_checkpoint name tag user =
      Keeps-guarded name (pure no_such_file) (λ file. not (check_permission file user b'R'))
        (λ file. permission_denied) _ (Keeps-pure no_such_file)
        (λ file.
          Keeps-asked file (tagged_command (lit "SS_READ_CHECKPOINT") name tag)
            view_checkpoint_result)

  pub Keeps-exec : (name user : Text) → Keeps (handle_exec w name user)
  unfolding handle_exec
  Keeps-exec name user =
      Keeps-guarded name (pure (exec_not_found name))
        (λ file. not (check_permission file user b'R')) (λ file. read_denied name) _
        (Keeps-pure (exec_not_found name))
        (λ file. Keeps-bind (target_ss file) _ (Keeps-target_ss file) λ ss.
          Keeps-bind (lift (connect_and_send_to_ss (w.peer ss (read_command name)))) _
            (Keeps-connect (w.peer ss (read_command name)))
            λ answer. Keeps-pure (exec_result w answer))

pub Keeps-show_annotation : (name : Text) → Keeps (handle_show_annotation name)
unfolding handle_show_annotation
Keeps-show_annotation name =
    Keeps-guarded name (pure no_such_file) (λ file. length file.annotation == 0)
      (λ file. no_annotations name) _ (Keeps-pure no_such_file)
      (λ file. Keeps-pure (annotation_for name file.annotation))
