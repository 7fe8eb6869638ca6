-- ===== src/Session/Keeps.antt =====
-- `handle_connection` of src/name_server/name_server.c in a sound state of the Name Server: the
-- first message and every request but DELETE.
use lang_os_distributed_file.Base.{
  fgets, ℕ, zero, suc, ◌≡◌, refl, Option, some, none, List, [], ◌∷◌, Text, lit, Exec, Bool, true,
  false, pure, modify, str_eq, strtok, atoi, length, ◌==◌,
}
use lang_os_distributed_file.Server.{NameServer, World, User}
use lang_os_distributed_file.Server.Register.{update_user, register_user, register_storage_server}
use lang_os_distributed_file.Server.Restore.{load_user, for_lines, line_length}
use lang_os_distributed_file.Server.Sound.{
  Extends-refl, Keeps, Keeps-bind, Keeps-pure, Upholds-test, Upholds-case, Upholds-case_run,
}
use lang_os_distributed_file.Server.Sound.Rules.{IsSound-outer}
use lang_os_distributed_file.Server.Sound.Peer.{Upholds-strcpy}
use lang_os_distributed_file.Server.Sound.Creates.{
  Keeps-create, Keeps-create_folder, Keeps-register_storage_server,
}
use lang_os_distributed_file.Server.Sound.Asks.{
  Keeps-read, Keeps-write, Keeps-stream, Keeps-undo, Keeps-checkpoint, Keeps-revert,
  Keeps-view_checkpoint, Keeps-exec, Keeps-show_annotation,
}
use lang_os_distributed_file.Server.Sound.Tells.{
  Keeps-info, Keeps-view, Keeps-view_folder, Keeps-view_reqs, Keeps-list_users,
}
use lang_os_distributed_file.Server.Sound.Changes.{
  Keeps-add_access, Keeps-rem_access, Keeps-annotate, Keeps-approve, Keeps-reject,
}
use lang_os_distributed_file.Server.Sound.Threads.{Keeps-req_access, Keeps-update_meta}
use lang_os_distributed_file.Session.{
  Command, list_users, unknown, incomplete, view, info, create, read, delete, stream, undo,
  update_meta, exec, create_folder, view_folder, request_access, view_requests, show_annotation,
  write, rem_access, checkpoint, revert, view_checkpoint, approve, reject, annotate, add_access,
  parse_command, execute, serve, Session, closed, session, register_client, register_ss, or_empty,
  open_session, delimiters, received,
}

-- The request asks to delete a file.
abbrev pub is_delete : Command → Bool
is_delete (delete f) = true
is_delete _ = false

abbrev pub asks_delete : Option Command → Bool
asks_delete none = false
asks_delete (some c) = is_delete c

module _ (w : World) (quiet : Keeps w.others) (user : Text) where
  pub Keeps-execute : (c : Command) → is_delete c ≡ false → Keeps (execute w user c)
  unfolding execute
  Keeps-execute list_users h = Keeps-list_users
  Keeps-execute unknown h = Keeps-pure (lit "ERROR: Unknown command.\n__END__\n")
  Keeps-execute incomplete h = let silence : Text = [] in Keeps-pure silence
  Keeps-execute (view flags) h = Keeps-view flags user
  Keeps-execute (info f) h = Keeps-info w f user
  Keeps-execute (create f) h = Keeps-create w f user
  Keeps-execute (read f) h = Keeps-read f user
  Keeps-execute (delete f) h = cc
  Keeps-execute (stream f) h = Keeps-stream f user
  Keeps-execute (undo f) h = Keeps-undo w f user
  Keeps-execute (update_meta f) h = Keeps-update_meta w quiet f
  Keeps-execute (exec f) h = Keeps-exec w f user
  Keeps-execute (create_folder f) h = Keeps-create_folder w f user
  Keeps-execute (view_folder f) h = Keeps-view_folder f
  Keeps-execute (request_access f) h = Keeps-req_access w quiet f user
  Keeps-execute (view_requests f) h = Keeps-view_reqs f user
  Keeps-execute (show_annotation f) h = Keeps-show_annotation f
  Keeps-execute (write f n) h = Keeps-write f n user
  Keeps-execute (rem_access f u) h = Keeps-rem_access f u user
  Keeps-execute (checkpoint f tag) h = Keeps-checkpoint w f tag user
  Keeps-execute (revert f tag) h = Keeps-revert w f tag user
  Keeps-execute (view_checkpoint f tag) h = Keeps-view_checkpoint w f tag user
  Keeps-execute (approve f u) h = Keeps-approve f u user
  Keeps-execute (reject f u) h = Keeps-reject f u user
  Keeps-execute (annotate f note) h = Keeps-annotate f note user
  Keeps-execute (add_access f u p) h = Keeps-add_access w f u p user

  pub Keeps-serve :
      (buffer : Text) → asks_delete (parse_command buffer) ≡ false → Keeps (serve w user buffer)
  unfolding serve
  Keeps-serve buffer h = after (parse_command buffer) h
    where
      after :
          (c : Option Command)
          → asks_delete c ≡ false
          → Keeps
              (elim c as (λ _. Exec NameServer Text) [ none ↦ pure [] | some c ↦ execute w user c ])
      after none h s sound = (sound, Extends-refl s)
      after (some c) h s sound = Keeps-execute c h s sound

Keeps-users :
    (f : List User → List User) → Keeps (modify (λ s. record s { user_list = f s.user_list }))
Keeps-users f s sound =
    (IsSound-outer s s.disk (f s.user_list) s.ss_list sound, λ p f at_p. (f, at_p, refl))

Keeps-register_user : (name ip : Text) → Keeps (register_user name ip)
unfolding register_user
Keeps-register_user name ip s sound =
    Upholds-case_run s (update_user s.user_list name ip) _ _
      (Upholds-strcpy 50 name _ s (
        Upholds-strcpy 20 ip _ s
          (Keeps-users (λ users. record { username = name; ip_addr = ip } ∷ users) s sound)))
      (λ users. Upholds-strcpy 20 ip _ s (Keeps-users (λ _. users) s sound))

abbrev ack : Session → Session × Text
ack s = (s, lit "ACK_CLIENT_REG\n__END__\n")

Keeps-register_client : (ip : Text) (name : Option Text) → Keeps (register_client ip name)
unfolding register_client
Keeps-register_client ip none = Keeps-pure (ack (session (lit "anonymous")))
Keeps-register_client ip (some name) =
    Keeps-bind (register_user name ip) _ (Keeps-register_user name ip)
      λ u s sound. Upholds-strcpy 50 name _ s (Keeps-pure (ack (session name)) s sound)

module _ (w : World) where
  Keeps-register_ss : (text : Text) → Keeps (register_ss w text)
  unfolding register_ss
  Keeps-register_ss text s sound =
      let (ip, rest) = strtok delimiters text in
      let (port, rest) = strtok delimiters rest in
      let done : Session × Text = (closed, lit "ACK_SS_REG\n__END__\n") in
      Upholds-case s ip (pure done) _ (sound, Extends-refl s)
        λ address.
          Upholds-case s port (pure done) _ (sound, Extends-refl s)
            λ number.
              let files = or_empty (strtok (lit "\n") rest).0 in
              Keeps-bind (register_storage_server w address (atoi number) files) (λ u. pure done)
                (Keeps-register_storage_server w address (atoi number) files) (λ u. Keeps-pure done)
                s sound

  pub Keeps-open_session : (ip buffer : Text) → Keeps (open_session w ip buffer)
  unfolding open_session
  Keeps-open_session ip buffer s sound =
      let (command, rest) = strtok delimiters (received buffer) in
      let nothing : Session × Text = (closed, []) in
      Upholds-case s command (pure nothing) _ (sound, Extends-refl s)
        λ name.
          Upholds-test s (str_eq name (lit "REGISTER_CLIENT")) _ _
            (Keeps-register_client ip (strtok delimiters rest).0 s sound)
            (Upholds-test s (str_eq name (lit "REGISTER_SS")) _ _ (Keeps-register_ss rest s sound)
              (sound, Extends-refl s))

Keeps-load_user : (line : Text) → Keeps (load_user line)
unfolding load_user
Keeps-load_user line s sound =
    Upholds-test s (length line == 0) _ _ (sound, Extends-refl s)
      (Upholds-strcpy 50 line _ s (
        Keeps-users (λ users. record { username = line; ip_addr = lit "0.0.0.0" } ∷ users) s sound))

pub Keeps-load_users : (fuel : ℕ) (text : Text) → Keeps (for_lines fuel load_user text)
unfolding for_lines
Keeps-load_users zero text = Keeps-pure tt
Keeps-load_users (suc fuel) [] = Keeps-pure tt
Keeps-load_users (suc fuel) (c ∷ text) =
    let (line, rest) = fgets line_length (c ∷ text) in
    Keeps-bind (load_user line) (λ u. for_lines fuel load_user rest) (Keeps-load_user line)
      λ u. Keeps-load_users fuel rest
