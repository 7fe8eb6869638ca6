-- ===== src/Server/Annotate.antt =====
-- src/name_server/CRWD.c: `handle_annotate`, `handle_show_annotation`.
use lang_os_distributed_file.Base.{
  ◌++◌, Text, Exec, pure, lit, not, ◌>>◌, ◌==◌, if◌then◌else◌, strncpy, length,
}
use lang_os_distributed_file.Server.{NameServer, store}
use lang_os_distributed_file.Server.Find.{with_file, check_permission}
use lang_os_distributed_file.Server.Save.{save_metadata}
use lang_os_distributed_file.Server.Reply.{
  error_reply, reply, quoted, no_such_file, err_permission_denied,
}

unfoldable pub needs_write : Text
needs_write = error_reply err_permission_denied (lit "Permission denied (Need Write Access).")

unfoldable pub annotation_added : Text → Text
annotation_added filename = reply (lit "Annotation added to " ++ (quoted filename ++ lit "."))

-- strncpy of 255 bytes and a NUL behind them
unfoldable pub handle_annotate : Text → Text → Text → Exec NameServer Text
unfolding with_file store save_metadata
handle_annotate filename note username = with_file filename (pure no_such_file) λ p file.
    if not (check_permission file username b'W') then pure needs_write else (do
      store p (record file { annotation = strncpy 255 note })
      save_metadata
      pure (annotation_added filename))

unfoldable pub no_annotations : Text → Text
no_annotations filename = reply (lit "File " ++ (quoted filename ++ lit " has no annotations."))

unfoldable pub annotation_for : Text → Text → Text
annotation_for filename note =
    reply (lit "Annotation for " ++ (quoted filename ++ (lit ":\n" ++ note)))

unfoldable pub handle_show_annotation : Text → Exec NameServer Text
unfolding with_file no_annotations annotation_for
handle_show_annotation filename = with_file filename (pure no_such_file) λ p file.
    if length file.annotation == 0
    then pure (no_annotations filename)
    else pure (annotation_for filename file.annotation)
