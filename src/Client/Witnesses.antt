-- ===== src/Client/Witnesses.antt =====
-- The theorems on the client at work.
use lang_os_distributed_file.Base.{
  ℤ, pos, print_int, ◌≡◌, refl, arith, [], ◌∷◌, ◌++◌, Text, lit, blocked, some, false, none_of,
  member, before, starts_with,
}
use lang_os_distributed_file.Client.{read_input, send}
use lang_os_distributed_file.Client.Commands.{command_arrives}
use lang_os_distributed_file.Client.Verbs.{IsWord, to_read}
use lang_os_distributed_file.Client.Direct.{read_from_ss}
use lang_os_distributed_file.Client.Marker.{IsSilent, read_waits}
use lang_os_distributed_file.Client.Follow.{IsAddress, redirect_followed}
use lang_os_distributed_file.Client.Reply.{react, ss_read, ss_stream, ss_write}
use lang_os_distributed_file.Server.Redirect
use lang_os_distributed_file.Server.Example.{ss}
use lang_os_distributed_file.Session.{parse_command, read}

word : IsWord (lit "a.txt")
unfolding none_of member
word = record { given = λ e. cc; no_space = refl; plain = refl; short = omega arith }

command_arrives_example :
    (message : Text) × ((read_input (lit "READ" ++ 32 ∷ lit "a.txt") ≡ send message)
      × (parse_command message ≡ some (read (lit "a.txt"))))
command_arrives_example = command_arrives to_read (lit "a.txt") word

silent : IsSilent (lit "Hi ")
unfolding before starts_with
silent = record { nonempty = omega arith; no_marker = refl }

abbrev last : Text
last = lit "all.\n__SS_END__\n"

marked : before (lit "__SS_END__") last ≡ some (lit "all.\n")
unfolding before starts_with
marked = refl

-- The marker in two pieces.
first_half : IsSilent (lit "Hi\n__SS_")
unfolding before starts_with
first_half = record { nonempty = omega arith; no_marker = refl }

second_half : IsSilent (lit "END__\n")
unfolding before starts_with
second_half = record { nonempty = omega arith; no_marker = refl }

read_waits_example : read_from_ss false (lit "Hi\n__SS_" ∷ lit "END__\n" ∷ []) ≡ blocked
read_waits_example =
    read_waits (lit "Hi\n__SS_" ∷ lit "END__\n" ∷ []) (first_half, (second_half, tt))

address : IsAddress ss (lit "a.txt")
unfolding none_of member
address = record { ip_given = λ e. cc; ip_plain = refl; given = λ e. cc; plain = refl }

redirect_followed_example :
    (react (Redirect.redirect (lit "REDIRECT_READ") ss (lit "a.txt") ++ lit "\n")
      ≡ ss_read (lit "10.0.0.2") (pos 9001) (lit "a.txt"))
    × ((react (Redirect.redirect (lit "REDIRECT_STREAM") ss (lit "a.txt") ++ lit "\n")
          ≡ ss_stream (lit "10.0.0.2") (pos 9001) (lit "a.txt"))
        × ((n : ℤ)
            → react (
                (Redirect.redirect (lit "REDIRECT_WRITE") ss (lit "a.txt")
                  ++ (lit ";" ++ print_int n))
                ++ lit "\n")
              ≡ ss_write (lit "10.0.0.2") (pos 9001) (lit "a.txt") n))
redirect_followed_example = redirect_followed ss (lit "a.txt") address
