-- ===== src/Client/Whole.antt =====
-- A reply of the Name Server that arrives in one portion.
use mathlib.Core.List.{append_assoc}
use lang_os_distributed_file.Base.{
  ◌<◌, some, Bool, true, false, [], ◌∷◌, ◌++◌, Text, lit, ok, ◌≡◌, ◌∙◌, refl, sym, ap, arith,
  length, length-append, take_of_length-le, contains, before, starts_with, contains-prepend,
  before-first,
}
use lang_os_distributed_file.Server.Reply.{reply}
use lang_os_distributed_file.Client.Reply.{receive, react, cut_end, handle_ns_command}

-- The reply's text is short, and the end marker does not begin in it.
pub record IsUnmarked (text : Text) : Type 0 where
  pub short : length text < 1000
  pub no_marker : contains ((text ++ lit "\n") ++ lit "__END_") (lit "__END__") ≡ false

reply-whole : (text : Text) → length text < 1000 → reply text ≡ text ++ lit "\n__END__\n"
unfolding reply
reply-whole text h =
    take_of_length-le 1023 (text ++ lit "\n__END__\n")
      (omega (arith, length-append text (lit "\n__END__\n")))

receive-chunk :
    (closes : Bool) (chunk : Text)
    → 0 < length chunk
    → length chunk < 8191
    → contains chunk (lit "__END__\n") ≡ true
    → receive closes (chunk ∷ []) [] ≡ ok (some chunk)
unfolding receive
receive-chunk closes chunk ne fits found =
    rw (take_of_length-le 8191 chunk (omega arith), found) (ground (arith, ne))

receive-whole :
    (closes : Bool) (text : Text)
    → length text < 1000
    → receive closes ((text ++ lit "\n__END__\n") ∷ []) [] ≡ ok (some (text ++ lit "\n__END__\n"))
receive-whole closes text h =
    let long = length-append text (lit "\n__END__\n") in
    receive-chunk closes (text ++ lit "\n__END__\n") (omega (arith, long)) (omega (arith, long)) (
      contains-prepend text (lit "\n__END__\n") (lit "__END__\n")
        (unfold contains before starts_with in refl))

cut_end-whole :
    (text : Text) → IsUnmarked text → cut_end (text ++ lit "\n__END__\n") ≡ text ++ lit "\n"
cut_end-whole text u =
    let found : before (lit "__END__") (text ++ lit "\n__END__\n") ≡ some (text ++ lit "\n") =
      ap (λ t. before (lit "__END__") t) (sym (append_assoc text (lit "\n") (lit "__END__\n")))
      ∙ before-first (text ++ lit "\n") (lit "__END_") (lit "\n") b'_' u.no_marker in
    ground (arith, found)

-- The client takes a reply of the Name Server for its text and the newline behind it.
pub handle_ns_command-reply :
    (closes : Bool) (text : Text)
    → IsUnmarked text
    → handle_ns_command closes (reply text ∷ []) ≡ ok (react (text ++ lit "\n"))
unfolding handle_ns_command
handle_ns_command-reply closes text u =
    rw (reply-whole text u.short)
      (ground (arith, receive-whole closes text u.short, cut_end-whole text u))
