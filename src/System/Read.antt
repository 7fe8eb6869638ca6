-- ===== src/System/Read.antt =====
-- A read from the client's side: the Name Server redirects, and the Storage Server answers.
use mathlib.Core.List.{List, append_assoc, append-nil}
use lang_os_distributed_file.Base.{
  ℕ, ◌+◌, ◌<◌, and_then, Option, none, some, true, false, [], ◌∷◌, ◌++◌, Text, lit, ok, Exec, ◌≡◌,
  ◌∙◌, refl, sym, ap, arith, length, length-append, take_of_length-le, contains, before,
  before-first, none_of, member, strtok, strtok-token, str_eq,
}
use lang_os_distributed_file.Cache.{LruCache}
use lang_os_distributed_file.Storage.Fs.{Fs, read_file}
use lang_os_distributed_file.Storage.Sentence.{get_safe_path}
use lang_os_distributed_file.Storage.Serve.{
  Storage, serve, connected, run_command, ss_read, need, send_file,
}
use lang_os_distributed_file.Storage.Serve.Replies.{serve-tokens}
use lang_os_distributed_file.Server.{NameServer, FileMetadata, StorageServer}
use lang_os_distributed_file.Server.Find.{check_permission}
use lang_os_distributed_file.Server.Find.Frame.{Finds, with_cache}
use lang_os_distributed_file.Server.Redirect
use lang_os_distributed_file.Server.Redirect.{handle_read}
use lang_os_distributed_file.Server.Redirect.Guard.{redirects}
use lang_os_distributed_file.Server.Reply.{reply}
use lang_os_distributed_file.Client.Reply
use lang_os_distributed_file.Client.Reply.{handle_ns_command}
use lang_os_distributed_file.Client.Direct.{
  SsConnection, connect_to_ss, handle_ss_read, read_from_ss, ss_read_command, ss_end,
}
use lang_os_distributed_file.Client.Follow.{IsAddress, redirect_followed}
use lang_os_distributed_file.Client.Marker.{AreSilent, joined, read_prints}
use lang_os_distributed_file.Client.Whole.{IsUnmarked, handle_ns_command-reply}
use lang_os_distributed_file.System.Delete.{IsName}

ss_read_command-whole :
    (filename : Text)
    → length filename < 1000
    → ss_read_command filename ≡ lit "SS_READ;" ++ (filename ++ lit "\n")
unfolding ss_read_command
ss_read_command-whole filename h =
    take_of_length-le 1023 (lit "SS_READ;" ++ (filename ++ lit "\n"))
      (omega (arith, length-append filename (lit "\n")))

strtok-nothing : strtok (lit ";\n") [] ≡ (none, [])
unfolding strtok
strtok-nothing = refl

run_command-read : (a b : Option Text) → run_command (lit "SS_READ") a b ≡ ss_read a
unfolding run_command str_eq
run_command-read a b = refl

serve-read :
    (fs : Fs) (filename : Text)
    → IsName filename
    → serve (ss_read_command filename) (connected fs) ≡ ss_read (some filename) (connected fs)
serve-read fs filename n =
    let first : strtok (lit ";\n") (lit "SS_READ;" ++ (filename ++ lit "\n"))
        ≡ (some (lit "SS_READ"), filename ++ lit "\n") =
      unfold none_of member in
      strtok-token (lit ";\n") (lit "SS_READ") b';' (filename ++ lit "\n") refl (λ e. cc) refl in
    let second : strtok (lit ";\n") (filename ++ lit "\n") ≡ (some filename, []) =
      strtok-token (lit ";\n") filename 10 [] n.plain n.some_byte (unfold member in refl) in
    let parsed : serve (lit "SS_READ;" ++ (filename ++ lit "\n"))
        ≡ run_command (lit "SS_READ") (some filename) none =
      serve-tokens _ _ _ _ _ _ _ first second strtok-nothing in
    rw (ss_read_command-whole filename n.fits) (
      ap (λ (m : Exec Storage Text). m (connected fs))
        (parsed ∙ run_command-read (some filename) none))

ss_read-content :
    (fs : Fs) (filename content : Text)
    → read_file fs (get_safe_path filename) ≡ some content
    → ss_read (some filename) (connected fs) ≡ ok (content ++ lit "\n__SS_END__\n", connected fs)
unfolding ss_read need send_file connected
ss_read-content fs filename content h = ground (arith, h)

abbrev AreShort : List Text → Type 0
AreShort [] = Unit
AreShort (chunk ∷ chunks) = (length chunk < 8192) × AreShort chunks

-- How the content arrives: in portions that the client's buffer takes, of which the last one has the
-- marker whole, behind the end of the content, and no other one has it; it has no NUL in it, at which
-- the client would stop.
pub record IsArriving (content : Text) (chunks : List Text) (tail : Text) : Type 0 where
  pub pieces : joined chunks ++ tail ≡ content
  pub silent : AreSilent chunks
  pub short : AreShort chunks
  pub last_short : length tail + 12 < 8192
  pub unmarked : contains ((tail ++ lit "\n") ++ lit "__SS_END_") ss_end ≡ false
  pub no_nul : none_of (0 ∷ []) content ≡ true

-- The Storage Server can be reached and keeps the connection open.
abbrev pub sending : List Text → SsConnection
sending chunks = record { made = true; connected = true; closes = false; arriving = chunks }

abbrev pub portions : List Text → Text → List Text
portions chunks tail = chunks ++ (tail ++ lit "\n__SS_END__\n") ∷ []

shown :
    (content : Text) (chunks : List Text) (tail : Text)
    → IsArriving content chunks tail
    → read_from_ss false (portions chunks tail) ≡ ok (content ++ lit "\n")
shown content chunks tail a =
    read_prints false chunks [] (tail ++ lit "\n__SS_END__\n") (tail ++ lit "\n") a.silent
      (omega (arith, length-append tail (lit "\n__SS_END__\n")))
      (ap (λ t. before ss_end t) (sym (append_assoc tail (lit "\n") (lit "__SS_END__\n")))
        ∙ before-first (tail ++ lit "\n") (lit "__SS_END_") (lit "\n") b'_' a.unmarked)
    ∙ ap (λ t. ok t)
        (sym (append_assoc (joined chunks) tail (lit "\n")) ∙ ap (λ t. t ++ lit "\n") a.pieces)

printed :
    (filename content : Text) (chunks : List Text) (tail : Text)
    → IsArriving content chunks tail
    → handle_ss_read (sending (portions chunks tail)) filename
      ≡ ok (some (ss_read_command filename), content ++ lit "\n")
unfolding handle_ss_read connect_to_ss
printed filename content chunks tail a =
    ap (λ r. and_then r λ text. ok (some (ss_read_command filename), text))
      (shown content chunks tail a)

all_sent :
    (content : Text) (chunks : List Text) (tail : Text)
    → IsArriving content chunks tail
    → joined (portions chunks tail) ≡ content ++ lit "\n__SS_END__\n"
all_sent content chunks tail a =
    joined-append chunks (tail ++ lit "\n__SS_END__\n")
    ∙ (sym (append_assoc (joined chunks) tail (lit "\n__SS_END__\n"))
        ∙ ap (λ t. t ++ lit "\n__SS_END__\n") a.pieces)
  where
    joined-append :
        (chunks : List Text) (last : Text) → joined (chunks ++ last ∷ []) ≡ joined chunks ++ last
    joined-append [] last = append-nil last
    joined-append (c ∷ chunks) last =
        ap (λ t. c ++ t) (joined-append chunks last) ∙ sym (append_assoc c (joined chunks) last)

-- A user with the permission reads a file that the Name Server knows and the Storage Server has. The
-- Name Server's answer, arriving in one portion, makes the client read the file of that name at the
-- address and port of its Storage Server; that server answers the client's command with a reply that
-- makes the client print the content of the file and a newline, and nothing else, if it arrives in
-- portions of at most 8191 bytes of which the last has the end marker whole. The name and the address
-- pass as tokens, no end marker begins in the texts, and the content has no NUL.
pub read_end_to_end :
    (s : NameServer) (filename username content : Text) (cache : LruCache) (p : ℕ)
    (f : FileMetadata) (ss : StorageServer) (fs : Fs) (chunks : List Text) (tail : Text)
    → Finds filename s p cache
    → s.files p ≡ some f
    → f.ss ≡ some ss
    → check_permission f username b'R' ≡ true
    → IsName filename
    → IsAddress ss filename
    → IsUnmarked (Redirect.redirect (lit "REDIRECT_READ") ss filename)
    → read_file fs (get_safe_path filename) ≡ some content
    → IsArriving content chunks tail
    → (answer : Text) × ((bytes : Text) × ((handle_read filename username s
            ≡ ok (answer, with_cache s cache))
          × ((handle_ns_command false (answer ∷ [])
                ≡ ok (Reply.ss_read ss.ip_addr ss.port filename))
              × ((serve (ss_read_command filename) (connected fs) ≡ ok (bytes, connected fs))
                  × ((joined (portions chunks tail) ≡ bytes)
                      × (handle_ss_read (sending (portions chunks tail)) filename
                          ≡ ok (some (ss_read_command filename), content ++ lit "\n")))))))
read_end_to_end s filename username content cache p f ss fs chunks tail found at_p server allowed
      name address unmarked stored plain =
    let text = Redirect.redirect (lit "REDIRECT_READ") ss filename in
    (
      reply text,
      (
        content ++ lit "\n__SS_END__\n",
        (
          ground (
            arith,
            (redirects s filename username cache p f ss found at_p server).reads,
            allowed,
          ),
          (
            handle_ns_command-reply false text unmarked
                ∙ ap (λ r. ok r) (redirect_followed ss filename address).0,
            (
              serve-read fs filename name ∙ ss_read-content fs filename content stored,
              (all_sent content chunks tail plain, printed filename content chunks tail plain),
            ),
          ),
        ),
      ),
    )
