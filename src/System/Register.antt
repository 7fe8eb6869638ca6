-- ===== src/System/Register.antt =====
-- The registration of a Storage Server, as the Name Server reads it.
use lang_os_distributed_file.Base.{
  ◌≤◌, Option, none, some, true, [], ◌∷◌, ◌++◌, List, Text, pos, lit, Exec, ◌>>◌, pure, ◌≡◌, ◌≢◌,
  ◌∙◌, refl, ap, arith, length, length-append, length-take, take, take_of_length-le, str_eq, ◌-◌,
  none_of, member, strtok, strtok-token, atoi, signed, digits, skip_space, if◌then◌else◌,
  Bool-cases, inl, inr, ◌==◌, ◌||◌,
}
use lang_os_distributed_file.Storage.Register.{append_name, add_name, file_list, register_message}
use lang_os_distributed_file.Server.{NameServer, World}
use lang_os_distributed_file.Server.Register.{register_storage_server}
use lang_os_distributed_file.Session.{
  Session, closed, delimiters, register_client, or_empty, register_ss, open_session, received,
}

length-append_name : (list s : Text) → length list ≤ 4095 → length (append_name list s) ≤ 4095
unfolding append_name
length-append_name list s h = omega (
  arith,
  length-append list (take (4096 - length list - 1) s),
  length-take (4096 - length list - 1) s,
)

-- The list stays within its buffer.
length-add_name : (list name : Text) → length list ≤ 4095 → length (add_name list name) ≤ 4095
unfolding add_name
length-add_name list name h = elim (Bool-cases (str_eq name (lit ".") || str_eq name (lit ".."))) [
  | inl dots ↦ rw (add_name, dots) h
  | inr e ↦ elim (Bool-cases (length list == 0)) [
    | inl z ↦ rw (add_name, e, z) (omega (arith, length-take 4095 name))
    | inr z ↦
        rw (add_name, e, z)
          (length-append_name (append_name list (lit ",")) name
            (length-append_name list (lit ",") h))
  ]
]

length-file_list :
    (names : List Text) (list : Text) → length list ≤ 4095 → length (file_list names list) ≤ 4095
unfolding file_list
length-file_list [] list h = h
length-file_list (name ∷ names) list h =
    length-file_list names (add_name list name) (length-add_name list name h)

register_message-whole :
    (names : List Text)
    → register_message names ≡ lit "REGISTER_SS;127.0.0.1;9001;" ++ (file_list names [] ++ lit "\n")
unfolding register_message
register_message-whole names =
    take_of_length-le 6143 (lit "REGISTER_SS;127.0.0.1;9001;" ++ (file_list names [] ++ lit "\n")) (
      omega (
        arith,
        length-file_list names [] (omega arith),
        length-append (file_list names []) (lit "\n"),
      ))

-- What the Name Server does with a registration that it receives whole, once it is taken apart.
register_ss-tokens :
    (w : World) (s s₁ s₂ s₃ ip port files : Text)
    → strtok delimiters s ≡ (some ip, s₁)
    → strtok delimiters s₁ ≡ (some port, s₂)
    → strtok (lit "\n") s₂ ≡ (some files, s₃)
    → register_ss w s ≡ (do
      register_storage_server w ip (atoi port) files
      pure (closed, lit "ACK_SS_REG\n__END__\n"))
unfolding register_ss
register_ss-tokens w s s₁ s₂ s₃ ip port files first second third =
    let ack : Session × Text = (closed, lit "ACK_SS_REG\n__END__\n") in
    let ends : Option Text → Option Text → Option Text → Exec NameServer (Session × Text) =
      λ ip port files. elim ip as (λ x. Exec NameServer (Session × Text)) [
        | none ↦ pure ack
        | some ip ↦ elim port as (λ x. Exec NameServer (Session × Text)) [
          | none ↦ pure ack
          | some port ↦ (do register_storage_server w ip (atoi port) (or_empty files); pure ack)
        ]
      ] in
    ap
      (λ (t : Option Text × Text).
        ends t.0 (strtok delimiters t.1).0 (strtok (lit "\n") (strtok delimiters t.1).1).0)
      first
    ∙ ap (λ (t : Option Text × Text). ends (some ip) t.0 (strtok (lit "\n") t.1).0) second
    ∙ ap (λ (t : Option Text × Text). ends (some ip) (some port) t.0) third

open_session-ss :
    (w : World) (client_ip s : Text)
    → length s ≤ 1011
    → open_session w client_ip (lit "REGISTER_SS;" ++ s) ≡ register_ss w s
unfolding open_session str_eq
open_session-ss w client_ip s fits =
    let first : strtok delimiters (lit "REGISTER_SS;" ++ s) ≡ (some (lit "REGISTER_SS"), s) =
      unfold none_of member in
      strtok-token delimiters (lit "REGISTER_SS") b';' s refl (λ e. cc) refl in
    let whole : received (lit "REGISTER_SS;" ++ s) ≡ lit "REGISTER_SS;" ++ s =
      take_of_length-le 1023 (lit "REGISTER_SS;" ++ s) (omega arith) in
    ap
      (λ (t : Option Text × Text). elim t.0 as (λ x. Exec NameServer (Session × Text)) [
        | none ↦ pure (closed, [])
        | some name ↦
            if str_eq name (lit "REGISTER_CLIENT")
            then register_client client_ip (strtok delimiters t.1).0
            else if str_eq name (lit "REGISTER_SS")
            then register_ss w t.1
            else pure (closed, [])
      ])
      (ap (strtok delimiters) whole ∙ first)

-- A Storage Server whose directory has a name in it, and no name with a newline, sends a message that
-- the Name Server, whose buffer it fits, takes for a registration of its address and port with the list
-- of its files; the connection is then closed.
pub registration_arrives :
    (w : World) (client_ip : Text) (names : List Text)
    → none_of (lit "\n") (file_list names []) ≡ true
    → file_list names [] ≢ []
    → length (file_list names []) ≤ 995
    → open_session w client_ip (register_message names) ≡ (do
      register_storage_server w (lit "127.0.0.1") (pos 9001) (file_list names [])
      pure (closed, lit "ACK_SS_REG\n__END__\n"))
registration_arrives w client_ip names plain given short =
    let files = file_list names [] in
    let first : strtok delimiters (lit "127.0.0.1;9001;" ++ (files ++ lit "\n"))
        ≡ (some (lit "127.0.0.1"), lit "9001;" ++ (files ++ lit "\n")) =
      unfold none_of member in
      strtok-token delimiters (lit "127.0.0.1") b';' _ refl (λ e. cc) refl in
    let second : strtok delimiters (lit "9001;" ++ (files ++ lit "\n"))
        ≡ (some (lit "9001"), files ++ lit "\n") =
      unfold none_of member in strtok-token delimiters (lit "9001") b';' _ refl (λ e. cc) refl in
    let third : strtok (lit "\n") (files ++ lit "\n") ≡ (some files, []) =
      strtok-token (lit "\n") files 10 [] plain given (unfold member in refl) in
    let port : atoi (lit "9001") ≡ pos 9001 = unfold atoi signed skip_space digits in refl in
    ap (open_session w client_ip) (register_message-whole names)
    ∙ open_session-ss w client_ip (lit "127.0.0.1;9001;" ++ (files ++ lit "\n"))
        (omega (arith, length-append files (lit "\n")))
    ∙ register_ss-tokens w _ _ _ _ _ _ _ first second third
    ∙ ap
        (λ n. (do
          register_storage_server w (lit "127.0.0.1") n files
          pure (closed, lit "ACK_SS_REG\n__END__\n")))
        port
