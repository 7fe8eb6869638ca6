-- ===== src/Client/Commands.antt =====
-- The commands that the client sends, and what the Name Server takes them for.
use lang_os_distributed_file.Base.{
  ◌≤◌, Option, none, some, [], ◌∷◌, ◌++◌, Text, lit, ◌≡◌, ◌∙◌, refl, ap, arith, length,
  length-append, take_of_length-le, strtok, member, strtok-token, strtok-last,
}
use lang_os_distributed_file.Client.{send, one_arg, read_one, read_words, read_input}
use lang_os_distributed_file.Session.{
  Command, delimiters, with_token, one, parse_args, parse_command, incomplete,
}
use lang_os_distributed_file.Client.Verbs.{
  IsWord, Verb, typed, sent, meant, message_of, IsTyped, IsKnown, usage_of, verb-IsTyped, taken_for,
  verb-IsKnown, taken_for-meant,
}

read_one-word :
    (usage name a : Text)
    → IsWord a
    → length name ≤ 20
    → read_one usage name a ≡ send (message_of name a)
unfolding read_one one_arg
read_one-word usage name a w short = rw (strtok-last (lit " ") a w.no_space w.given) (
    ap send (
      take_of_length-le 8191 (message_of name a) (
        omega (
          arith,
          w.short,
          short,
          length-append name (lit ";" ++ (a ++ lit "\n")),
          length-append a (lit "\n"),
        ))))

read_input-word :
    (word usage name a : Text)
    → IsTyped word usage name
    → IsWord a
    → read_input (word ++ 32 ∷ a) ≡ send (message_of name a)
unfolding read_input read_words
read_input-word word usage name a t w =
    rw (t.not_exit a, strtok-token (lit " ") word 32 a t.one_word t.given (unfold member in refl))
      (t.chosen a ∙ read_one-word usage name a w t.short)

parse_command-known :
    (name a : Text) (k : Text → Command)
    → IsKnown name k
    → IsWord a
    → length (message_of name a) ≤ 1023
    → parse_command (message_of name a) ≡ some (k a)
unfolding parse_command one with_token
parse_command-known name a k n w fits =
    let first : strtok delimiters (message_of name a) ≡ (some name, a ++ lit "\n") =
      strtok-token delimiters name b';' (a ++ lit "\n") n.plain n.given (unfold member in refl) in
    let second : strtok delimiters (a ++ lit "\n") ≡ (some a, []) =
      strtok-token delimiters a 10 [] w.plain w.given (unfold member in refl) in
    let named : parse_command (message_of name a) ≡ some (parse_args name (a ++ lit "\n")) =
      ap
        (λ (t : Option Text × Text). elim t.0 as (λ x. Option Command) [
          | none ↦ none
          | some c ↦ some (parse_args c t.1)
        ])
        (ap (strtok delimiters) (take_of_length-le 1023 (message_of name a) fits) ∙ first) in
    let argument : one (a ++ lit "\n") k ≡ k a =
      ap
        (λ (t : Option Text × Text). elim t.0 as (λ x. Command) [
          | none ↦ incomplete
          | some x ↦ k x
        ])
        second in
    named ∙ ap (λ c. some c) (n.chosen (a ++ lit "\n") ∙ argument)

-- Whatever command with one argument the user types, with an argument of at most 99 bytes without
-- spaces, semicolons or newlines, the client sends one message, and the Name Server parses it as that
-- command with that argument.
pub command_arrives :
    (v : Verb) (a : Text)
    → IsWord a
    → (message : Text) × ((read_input (typed v ++ 32 ∷ a) ≡ send message)
        × (parse_command message ≡ some (meant v a)))
command_arrives v a w = (
  message_of (sent v) a,
  (
    read_input-word (typed v) (usage_of v) (sent v) a (verb-IsTyped v) w,
    parse_command-known (sent v) a (taken_for v) (verb-IsKnown v) w (
          omega (
            arith,
            w.short,
            (verb-IsTyped v).short,
            length-append (sent v) (lit ";" ++ (a ++ lit "\n")),
            length-append a (lit "\n"),
          ))
        ∙ ap (λ c. some c) (taken_for-meant v a w.short),
  ),
)
