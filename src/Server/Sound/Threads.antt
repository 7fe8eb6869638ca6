-- ===== src/Server/Sound/Threads.antt =====
-- The handlers of src/name_server/CRWD.c between whose critical sections other threads run, in a sound
-- state: `handle_req_access`, `handle_update_meta`.
use lang_os_distributed_file.Base.{
  not, ℕ, ◌≡◌, refl, sym, Option, some, none, List, [], ◌∷◌, Text, length, Exec, ◌>>=◌, ◌>>◌, pure,
  lift, raise, null_pointer,
}
use lang_os_distributed_file.Server.{
  NameServer, FileMetadata, World, RequestNode, StorageServer, load, store,
}
use lang_os_distributed_file.Server.Find.{check_permission}
use lang_os_distributed_file.Server.Reply.{no_such_file}
use lang_os_distributed_file.Server.Exchange.{connect_and_send_to_ss}
use lang_os_distributed_file.Server.Requests.{
  pending, has_request, add_request, request_sent, handle_req_access,
}
use lang_os_distributed_file.Server.Meta.{
  touch_file, update_counts, meta_result, read_command, handle_update_meta, ack_meta_update,
  count_words,
}
use lang_os_distributed_file.Server.Sound.{
  IsSound, Extends-refl, Upholds, Keeps, Upholds-bind, Keeps-bind, Keeps-pure, Upholds-test,
  Upholds-case,
}
use lang_os_distributed_file.Server.Sound.Rules.{
  Keeps-with_file, Upholds-lookup, Upholds-load, store_lem,
}
use lang_os_distributed_file.Server.Sound.Peer.{Keeps-connect, Upholds-strcpy}
use lang_os_distributed_file.Server.Sound.Tells.{Keeps-pending}

-- While the mutex is released, other threads keep the state sound and every file alive.
module _ (w : World) (quiet : Keeps w.others) where
  add_request_lem :
      (user : Text) (p : ℕ) (file g : FileMetadata) (nodes : List RequestNode) (s : NameServer)
      → IsSound s
      → s.files p ≡ some g
      → file.filename ≡ g.filename
      → Upholds s (add_request w user p file nodes s)
  unfolding add_request
  add_request_lem user p file g nodes s sound at_p named =
      let answer : Exec NameServer Text = load p >>= λ file. pure (request_sent file.owner) in
      let asked : FileMetadata = record file {
        pending_requests = some (record { username = user } ∷ nodes);
      } in
      Upholds-strcpy 50 user _ s (
        Upholds-bind s (store p asked) (λ u. w.others >> answer)
          (store_lem s p g asked sound at_p named)
          λ u t _ sound' ext.
            let (f, at_f, _) = ext p g at_p in
            Upholds-bind t w.others (λ u. answer) (quiet t sound')
              λ u t' _ sound'' ext'.
                let (f', at_f', _) = ext' p f at_f in
                Upholds-load t' p f' (λ file. pure (request_sent file.owner)) at_f'
                  (Keeps-pure (request_sent f'.owner) t' sound''))

  pub Keeps-req_access : (name user : Text) → Keeps (handle_req_access w name user)
  unfolding handle_req_access
  Keeps-req_access name user =
      Keeps-with_file name (pure no_such_file) _ (Keeps-pure no_such_file) λ p file s sound at_p.
        Upholds-test s (check_permission file user b'R') _ _ (sound, Extends-refl s)
          (Upholds-bind s (pending file) _ (Keeps-pending file s sound) λ nodes t _ sound' ext.
            Upholds-test t (has_request nodes user) _ _ (sound', Extends-refl t)
              (let (g, at_g, named) = ext p file at_p in
                add_request_lem user p file g nodes t sound' at_g (sym named)))

  touch_file_lem : (name : Text) → Keeps (touch_file w name)
  unfolding touch_file
  touch_file_lem name s sound =
      Upholds-lookup name _ s sound (λ t sound' _. (sound', Extends-refl t))
        (λ t p file sound' at_p. Upholds-load t p file _ at_p (
          Upholds-bind t (store p (record file { last_access = w.now })) (λ u. pure (some file.ss))
            (store_lem t p file (record file { last_access = w.now }) sound' at_p refl)
            λ u t' _ sound'' _. Keeps-pure (some file.ss) t' sound''))

  update_counts_lem : (name : Text) (words chars : ℕ) → Keeps (update_counts name words chars)
  unfolding update_counts
  update_counts_lem name words chars s sound =
      Upholds-lookup name _ s sound (λ t sound' _. (sound', Extends-refl t))
        (λ t p file sound' at_p.
          Upholds-load t p file _ at_p (store_lem t p file _ sound' at_p refl))

  meta_result_lem : (name : Text) (answer : Option Text) → Keeps (meta_result w name answer)
  unfolding meta_result
  meta_result_lem name none s sound = (sound, Extends-refl s)
  meta_result_lem name (some content) s sound =
      Upholds-test s (not w.memory) _ _ (sound, Extends-refl s)
        (Keeps-bind w.others _ quiet
          (λ u.
            Keeps-bind (update_counts name (count_words content) (length content)) _
              (update_counts_lem name (count_words content) (length content))
              λ u. Keeps-pure ack_meta_update)
          s sound)

  pub Keeps-update_meta : (name : Text) → Keeps (handle_update_meta w name)
  unfolding handle_update_meta
  Keeps-update_meta name = Keeps-bind (touch_file w name) _ (touch_file_lem name) λ touched s sound.
      let silence : Text = [] in
      Upholds-case s touched (pure silence) _ (sound, Extends-refl s)
        λ server.
          Keeps-bind _
            (λ ss. lift (connect_and_send_to_ss (w.peer ss (read_command name))) >>= λ answer.
              meta_result w name answer)
            (server_lem server)
            (λ ss.
              Keeps-bind (lift (connect_and_send_to_ss (w.peer ss (read_command name)))) _
                (Keeps-connect (w.peer ss (read_command name)))
                λ answer. meta_result_lem name answer)
            s sound
    where
      server_lem :
          (server : Option StorageServer)
          → Keeps (elim server as (λ _. Exec NameServer StorageServer) [
            | none ↦ raise null_pointer
            | some ss ↦ pure ss
          ])
      server_lem none s sound = λ bad. cc
      server_lem (some ss) s sound = (sound, Extends-refl s)
