-- ===== src/Server/Sound/Creates.antt =====
-- `handle_create`, `handle_create_folder` of src/name_server/CRWD.c and the registration of a
-- Storage Server in src/name_server/name_server.c in a sound state.
use lang_os_distributed_file.Base.{
  ℕ, zero, suc, ◌≡◌, refl, none, List, [], ◌∷◌, Text, ℤ, length, lit, Run, ok, pure, lift, modify,
  strtok,
}
use lang_os_distributed_file.Table.{ht_search}
use lang_os_distributed_file.Server.{NameServer, World, StorageServer}
use lang_os_distributed_file.Server.Save.{save_metadata}
use lang_os_distributed_file.Server.Exchange.{connect_and_send_to_ss}
use lang_os_distributed_file.Server.Folder.{add_folder, handle_create_folder}
use lang_os_distributed_file.Server.Create.{
  add_file, create_at, create_command, create_result, handle_create, no_servers,
}
use lang_os_distributed_file.Server.Register.{
  add_found_file, register_file, register_files, find_ss, add_ss, register_storage_server,
}
use lang_os_distributed_file.Server.Sound.{
  IsSound, Extends-refl, Upholds, Keeps, Upholds-bind, Keeps-bind, Keeps-pure, Upholds-case,
  Upholds-case_run,
}
use lang_os_distributed_file.Server.Sound.Rules.{Upholds-lookup, IsSound-outer}
use lang_os_distributed_file.Server.Sound.Link.{link_lem}
use lang_os_distributed_file.Server.Sound.Peer.{Keeps-connect, Upholds-strcpy}
use lang_os_distributed_file.Server.Sound.Save.{Keeps-save_metadata}

module _ (w : World) where
  add_folder_lem :
      (name user : Text) (s : NameServer)
      → IsSound s
      → ht_search s.file_hash_table name ≡ none
      → Upholds s (add_folder w name user s)
  unfolding add_folder
  add_folder_lem name user s sound free =
      Upholds-strcpy 100 name _ s (Upholds-strcpy 50 user _ s (link_lem s _ sound free))

  pub Keeps-create_folder : (name user : Text) → Keeps (handle_create_folder w name user)
  unfolding handle_create_folder
  Keeps-create_folder name user s sound =
      Upholds-lookup name _ s sound
        (λ t sound' free.
          Upholds-bind t (add_folder w name user) _ (add_folder_lem name user t sound' free)
            λ u t' _ sound'' _.
              Keeps-bind save_metadata _ Keeps-save_metadata (λ u t sound. (sound, Extends-refl t))
                t' sound'')
        (λ t p file sound' _. (sound', Extends-refl t))

  add_file_lem :
      (name user : Text) (ss : StorageServer) (s : NameServer)
      → IsSound s
      → ht_search s.file_hash_table name ≡ none
      → Upholds s (add_file w name user ss s)
  unfolding add_file
  add_file_lem name user ss s sound free =
      Upholds-strcpy 100 name _ s (Upholds-strcpy 50 user _ s (link_lem s _ sound free))

  create_at_lem :
      (name user : Text) (ss : StorageServer) (s : NameServer)
      → IsSound s
      → ht_search s.file_hash_table name ≡ none
      → Upholds s (create_at w name user ss s)
  unfolding create_at
  create_at_lem name user ss s sound free =
      Upholds-bind s (add_file w name user ss) _ (add_file_lem name user ss s sound free)
        λ u t _ sound' _.
          Keeps-bind save_metadata _ Keeps-save_metadata
            (λ u.
              Keeps-bind (lift (connect_and_send_to_ss (w.peer ss (create_command name)))) _
                (Keeps-connect (w.peer ss (create_command name)))
                λ answer. Keeps-pure (create_result name answer))
            t sound'

  place_lem :
      (name user : Text) (servers : List StorageServer) (s : NameServer)
      → IsSound s
      → ht_search s.file_hash_table name ≡ none
      → Upholds s (elim servers as (λ _. Run (Text × NameServer)) [
        | [] ↦ ok (no_servers, s)
        | ss ∷ servers ↦ create_at w name user ss s
      ])
  place_lem name user [] s sound free = (sound, Extends-refl s)
  place_lem name user (ss ∷ servers) s sound free = create_at_lem name user ss s sound free

  pub Keeps-create : (name user : Text) → Keeps (handle_create w name user)
  unfolding handle_create
  Keeps-create name user s sound =
      Upholds-lookup name _ s sound (λ t sound' free. place_lem name user t.ss_list t sound' free)
        (λ t p file sound' _. (sound', Extends-refl t))

  add_found_file_lem :
      (ss : StorageServer) (name : Text) (s : NameServer)
      → IsSound s
      → ht_search s.file_hash_table name ≡ none
      → Upholds s (add_found_file w ss name s)
  unfolding add_found_file
  add_found_file_lem ss name s sound free = Upholds-strcpy 100 name _ s (link_lem s _ sound free)

  Keeps-register_file : (ss : StorageServer) (name : Text) → Keeps (register_file w ss name)
  unfolding register_file
  Keeps-register_file ss name s sound =
      Upholds-lookup name _ s sound (λ t sound' free. add_found_file_lem ss name t sound' free)
        (λ t p file sound' _. (sound', Extends-refl t))

  Keeps-register_files :
      (fuel : ℕ) (ss : StorageServer) (text : Text) → Keeps (register_files fuel w ss text)
  unfolding register_files
  Keeps-register_files zero ss text s sound = (sound, Extends-refl s)
  Keeps-register_files (suc fuel) ss text s sound =
      let rest = (strtok (lit ",") text).1 in
      Upholds-case s (strtok (lit ",") text).0 (pure tt) _ (sound, Extends-refl s)
        λ name.
          Keeps-bind (register_file w ss name) (λ u. register_files fuel w ss rest)
            (Keeps-register_file ss name) (λ u. Keeps-register_files fuel ss rest) s sound

  Keeps-add_ss : (ip : Text) (port : ℤ) (files : Text) → Keeps (add_ss w ip port files)
  unfolding add_ss
  Keeps-add_ss ip port files s sound = Upholds-strcpy 20 ip _ s (
      let ss : StorageServer = record { ip_addr = ip; port = port } in
      Upholds-bind s (modify (λ s. record s { ss_list = ss ∷ s.ss_list })) _
        (IsSound-outer s s.disk s.user_list (ss ∷ s.ss_list) sound, λ p f at_p. (f, at_p, refl))
        λ u t _ sound' _. Keeps-register_files (suc (length files)) ss files t sound')

  pub Keeps-register_storage_server :
      (ip : Text) (port : ℤ) (files : Text) → Keeps (register_storage_server w ip port files)
  unfolding register_storage_server
  Keeps-register_storage_server ip port files s sound =
      Upholds-case_run s (find_ss s.ss_list ip port) _ _ (Keeps-add_ss ip port files s sound)
        (λ ss. (sound, Extends-refl s))
