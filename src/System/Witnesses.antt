-- ===== src/System/Witnesses.antt =====
-- The owner deletes a file that the Storage Server has lost.
use lang_os_distributed_file.System.Files.{listed_length}
use lang_os_distributed_file.Base.{
  ◌≤◌, none_of, member, pos, print_int, decimal, false, true, some, ok, ◌≡◌, refl, arith, none, [],
  ◌∷◌, List, Text, lit, blocked, str_eq, contains, before, starts_with, strtok,
}
use lang_os_distributed_file.Storage.Fs.{Fs, directory, remove, node_at}
use lang_os_distributed_file.Storage.Sentence.{get_safe_path}
use lang_os_distributed_file.Storage.Serve
use lang_os_distributed_file.Storage.Serve.{run_command, connected}
use lang_os_distributed_file.Server.{World}
use lang_os_distributed_file.Server.Delete.{handle_delete, delete_command}
use lang_os_distributed_file.Server.Exchange.Laws.{answering}
use lang_os_distributed_file.Server.Find.Frame.{with_cache}
use lang_os_distributed_file.Server.Example.{s, w, ss, file, cache, found}
use lang_os_distributed_file.Storage.Fs.{Node, read_file}
use lang_os_distributed_file.Server.Find.{check_permission}
use lang_os_distributed_file.Server.Redirect
use lang_os_distributed_file.Server.Redirect.{handle_read}
use lang_os_distributed_file.Client.Reply
use lang_os_distributed_file.Client.Reply.{handle_ns_command}
use lang_os_distributed_file.Client.Direct.{handle_ss_read, ss_read_command}
use lang_os_distributed_file.Client.Follow.{IsAddress}
use lang_os_distributed_file.Client.Marker.{joined}
use lang_os_distributed_file.Client.Whole.{IsUnmarked}
use lang_os_distributed_file.System.Read.{IsArriving, sending, read_end_to_end}
use lang_os_distributed_file.Storage.Register.{append_name, add_name, file_list}
use lang_os_distributed_file.System.{IsStorage, storage_reply}
use lang_os_distributed_file.System.Delete.{IsName, delete-blocks}

abbrev fs : Fs
fs = (lit "ss_files", directory) ∷ []

-- The reply arrives in two portions.
abbrev chunks : List Text
chunks = lit "ERROR: Could not del" ∷ lit "ete\n__SS_E" ∷ []

abbrev losing : World
losing = record w { peer = λ ss command. answering chunks false }

name : IsName (lit "a")
unfolding none_of member
name = record { some_byte = λ e. cc; plain = refl; fits = omega arith }

storage : IsStorage fs (delete_command (lit "a")) (losing.peer ss (delete_command (lit "a")))
unfolding storage_reply delete_command connected run_command strtok str_eq remove node_at
    get_safe_path contains before starts_with Serve.serve
storage = record {
  chunks = chunks;
  nonempty = (omega arith, (omega arith, tt));
  bytes = refl;
  open_end = refl;
}

absent : remove fs (get_safe_path (lit "a")) ≡ none
unfolding remove node_at str_eq get_safe_path contains before starts_with
absent = refl

delete-blocks_example : handle_delete losing (lit "a") (lit "al") s ≡ blocked
delete-blocks_example =
    delete-blocks losing (lit "a") (lit "al") s (with_cache s cache) 0 file ss fs name found refl
      refl refl storage absent

-- The owner reads the file.
abbrev full : Fs
full = (lit "ss_files", directory) ∷ (lit "ss_files/a", Node.file (lit "Hi.")) ∷ []

allowed : check_permission file (lit "al") b'R' ≡ true
unfolding check_permission str_eq
allowed = refl

address : IsAddress ss (lit "a")
unfolding none_of member
address = record { ip_given = λ e. cc; ip_plain = refl; given = λ e. cc; plain = refl }

unmarked : IsUnmarked (Redirect.redirect (lit "REDIRECT_READ") ss (lit "a"))
unfolding Redirect.redirect print_int decimal contains before starts_with
unmarked = record { short = omega arith; no_marker = refl }

on_disk : read_file full (get_safe_path (lit "a")) ≡ some (lit "Hi.")
unfolding read_file node_at str_eq get_safe_path contains before starts_with
on_disk = refl

-- The content arrives in two pieces.
arriving : IsArriving (lit "Hi.") (lit "H" ∷ []) (lit "i.")
unfolding contains before starts_with none_of member
arriving = record {
  pieces = refl;
  silent = (record { nonempty = omega arith; no_marker = refl }, tt);
  short = (omega arith, tt);
  last_short = omega arith;
  unmarked = refl;
  no_nul = refl;
}

read_end_to_end_example :
    (answer : Text) × ((bytes : Text) × ((handle_read (lit "a") (lit "al") s
          ≡ ok (answer, with_cache s cache))
        × ((handle_ns_command false (answer ∷ [])
              ≡ ok (Reply.ss_read (lit "10.0.0.2") (pos 9001) (lit "a")))
            × ((Serve.serve (ss_read_command (lit "a")) (connected full)
                  ≡ ok (bytes, connected full))
                × ((joined (lit "H" ∷ lit "i.\n__SS_END__\n" ∷ []) ≡ bytes)
                    × (handle_ss_read (sending (lit "H" ∷ lit "i.\n__SS_END__\n" ∷ [])) (lit "a")
                        ≡ ok (some (ss_read_command (lit "a")), lit "Hi.\n")))))))
read_end_to_end_example =
    read_end_to_end s (lit "a") (lit "al") (lit "Hi.") cache 0 file ss full (lit "H" ∷ [])
      (lit "i.") found refl refl allowed name address unmarked on_disk arriving

-- A directory with two files.
abbrev names : List Text
names = lit "." ∷ lit "a.txt" ∷ lit ".." ∷ lit "b" ∷ []

listed : file_list names [] ≡ lit "a.txt,b"
unfolding file_list add_name append_name str_eq
listed = refl

abbrev plain_names : List Text
plain_names = lit "a" ∷ lit "b.txt" ∷ []

fits : listed_length plain_names ≤ 995
unfolding listed_length
fits = omega arith
