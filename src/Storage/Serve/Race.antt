-- ===== src/Storage/Serve/Race.antt =====
-- src/storage_server/storage_server.c: two threads of `handle_ss_connection`. `strtok` keeps one
-- position for the whole process, and a thread may come between two of its calls in another.
use lang_os_distributed_file.Base.{
  ℕ, ◌≡◌, ◌≢◌, ◌∙◌, refl, ap, arith, Option, none, some, Bool, true, false, List, [], ◌∷◌, ◌++◌,
  Text, Run, ok, fault, and_then, null_pointer, lit, ◌==◌, ◌||◌, if◌then◌else◌, str_eq, str_eq_refl,
  strtok, strtok-token, none_of, member,
}
use lang_os_distributed_file.Storage.Fs.{Fs, node_at, remove}
use lang_os_distributed_file.Storage.Fs.Laws.{node_at-without}
use lang_os_distributed_file.Storage.Sentence.{get_safe_path}
use lang_os_distributed_file.Storage.Serve.{
  connected, delimiters, run_command, ss_delete, ss_read, need,
}

-- Where a thread stands in its round: its buffer has been received, the name of the command has been
-- taken, or the first argument too; or the round has ended with what was sent.
pub data Thread : Type 0 where
  arrived : Text → Thread
  named : Text → Thread
  argued : Text → Option Text → Thread
  replied : Text → Thread

-- How many arguments the branch of the command takes.
unfoldable pub arity : Text → ℕ
unfolding str_eq
arity command =
    if str_eq command (lit "SS_LOCK_SENTENCE")
      || (str_eq command (lit "WRITE_DATA")
          || (str_eq command (lit "SS_CHECKPOINT")
              || (str_eq command (lit "SS_REVERT") || str_eq command (lit "SS_READ_CHECKPOINT"))))
    then 2
    else if str_eq command (lit "SS_CREATE")
        || (str_eq command (lit "SS_READ")
            || (str_eq command (lit "SS_STREAM")
                || (str_eq command (lit "SS_DELETE") || str_eq command (lit "SS_UNDO"))))
    then 1
    else 0

-- The file system, the position of `strtok`, and two threads that have just begun.
pub record Shared : Type 0 where
  pub fs : Fs
  pub position : Text
  pub one : Thread
  pub two : Thread

-- The branch of a command on fresh variables of its connection.
unfoldable pub finish : Fs → Text → Text → Option Text → Option Text → Run (Fs × (Text × Thread))
unfolding run_command connected
finish fs position command a b =
    and_then (run_command command a b (connected fs))
      λ (reply, s). ok (s.fs, (position, replied reply))

-- What follows a call of `strtok`, until the next one: on what it returned and the position it left.
unfoldable pub name_taken : Fs → Option Text × Text → Run (Fs × (Text × Thread))
name_taken fs (none, rest) = ok (fs, (rest, replied []))
name_taken fs (some command, rest) = ok (fs, (rest, named command))

unfoldable pub first_taken : Fs → Text → Option Text × Text → Run (Fs × (Text × Thread))
unfolding finish arity
first_taken fs command (a, rest) =
    if arity command == 1 then finish fs rest command a none else ok (fs, (rest, argued command a))

unfoldable pub second_taken :
    Fs → Text → Option Text → Option Text × Text → Run (Fs × (Text × Thread))
unfolding finish
second_taken fs command a (b, rest) = finish fs rest command a b

unfoldable pub advance : Fs → Text → Thread → Run (Fs × (Text × Thread))
unfolding name_taken first_taken second_taken
advance fs position (arrived buffer) = name_taken fs (strtok delimiters buffer)
advance fs position (named command) =
    if arity command == 0
    then finish fs position command none none
    else first_taken fs command (strtok delimiters position)
advance fs position (argued command a) = second_taken fs command a (strtok delimiters position)
advance fs position (replied reply) = ok (fs, (position, replied reply))

-- A step of the first thread (`true`) or of the second.
unfoldable pub step : Bool → Shared → Run Shared
unfolding advance
step true s =
    and_then (advance s.fs s.position s.one)
      λ (fs, (position, thread)). ok (record s { fs = fs; position = position; one = thread })
step false s =
    and_then (advance s.fs s.position s.two)
      λ (fs, (position, thread)). ok (record s { fs = fs; position = position; two = thread })

unfoldable pub steps : List Bool → Shared → Run Shared
unfolding step
steps [] s = ok s
steps (who ∷ order) s = and_then (step who s) (steps order)

-- The first thread has received SS_DELETE of a file, the second one SS_READ of another.
abbrev pub both_arrived : Fs → Text → Text → Text → Shared
both_arrived fs position a b = record {
  fs = fs;
  position = position;
  one = arrived (lit "SS_DELETE;" ++ (a ++ lit "\n"));
  two = arrived (lit "SS_READ;" ++ (b ++ lit "\n"));
}

abbrev put_one : Shared → Run (Fs × (Text × Thread)) → Run Shared
put_one s r =
    and_then r
      λ (fs, (position, thread)). ok (record s { fs = fs; position = position; one = thread })

abbrev put_two : Shared → Run (Fs × (Text × Thread)) → Run Shared
put_two s r =
    and_then r
      λ (fs, (position, thread)). ok (record s { fs = fs; position = position; two = thread })

module _ (fs : Fs) (a b : Text) where
  one_named : Text → Shared
  one_named position = record (both_arrived fs position a b) {
    position = a ++ lit "\n";
    one = named (lit "SS_DELETE");
  }

  both_named : Text → Shared
  both_named position = record (one_named position) {
    position = b ++ lit "\n";
    two = named (lit "SS_READ");
  }

  one_takes : (position : Text) → step true (both_arrived fs position a b) ≡ ok (one_named position)
  unfolding step advance one_named
  one_takes position =
      let token : strtok delimiters (lit "SS_DELETE;" ++ (a ++ lit "\n"))
          ≡ (some (lit "SS_DELETE"), a ++ lit "\n") =
        unfold none_of member in
        strtok-token delimiters (lit "SS_DELETE") b';' (a ++ lit "\n") refl (λ e. cc) refl in
      ap (λ x. put_one (both_arrived fs position a b) (name_taken fs x)) token

  two_takes : (position : Text) → step false (one_named position) ≡ ok (both_named position)
  unfolding step advance one_named both_named
  two_takes position =
      let token : strtok delimiters (lit "SS_READ;" ++ (b ++ lit "\n"))
          ≡ (some (lit "SS_READ"), b ++ lit "\n") =
        unfold none_of member in
        strtok-token delimiters (lit "SS_READ") b';' (b ++ lit "\n") refl (λ e. cc) refl in
      ap (λ x. put_two (one_named position) (name_taken fs x)) token

  after_delete : Text → Fs → Shared
  after_delete position gs = record (both_named position) {
    fs = gs;
    position = [];
    one = replied (lit "ACK_DELETE\n__SS_END__");
  }

  deletes_other :
      (position : Text) (gs : Fs)
      → none_of delimiters b ≡ true
      → b ≢ []
      → remove fs (get_safe_path b) ≡ some gs
      → step true (both_named position) ≡ ok (after_delete position gs)
  unfolding step advance one_named both_named after_delete
  deletes_other position gs plain given gone =
      let token : strtok delimiters (b ++ lit "\n") ≡ (some b, []) =
        strtok-token delimiters b 10 [] plain given (unfold member in refl) in
      let deleted : finish fs [] (lit "SS_DELETE") (some b) none
          ≡ ok (gs, ([], replied (lit "ACK_DELETE\n__SS_END__"))) =
        unfold finish run_command str_eq ss_delete need connected in ground (arith, gone) in
      ap (λ x. put_one (both_named position) (first_taken fs (lit "SS_DELETE") x)) token
      ∙ ap (put_one (both_named position)) deleted

  reads_null :
      (position : Text) (gs : Fs) → step false (after_delete position gs) ≡ fault null_pointer
  unfolding step advance finish arity run_command str_eq ss_read need strtok after_delete one_named
      both_named connected
  reads_null position gs = refl

remove-node_at :
    (fs gs : Fs) (p q : Text)
    → remove fs p ≡ some gs
    → node_at gs q ≡ (if str_eq p q then none else node_at fs q)
unfolding remove
remove-node_at fs gs p q h = ground (arith, h, node_at-without fs p q)

-- Two connections have received SS_DELETE;a and SS_READ;b. If the first thread takes the name of its
-- command, then the second the name of its own, and then the first its argument, it takes b for it: b
-- is deleted, though it was only to be read, and the deletion is acknowledged; the file a is as it was;
-- and when the second thread takes its argument, it follows a NULL pointer.
pub wrong_file_deleted :
    (fs gs : Fs) (position a b : Text)
    → none_of (lit ";\n") b ≡ true
    → b ≢ []
    → str_eq (get_safe_path b) (get_safe_path a) ≡ false
    → remove fs (get_safe_path b) ≡ some gs
    → (t : Shared) × (steps (true ∷ false ∷ true ∷ []) (both_arrived fs position a b) ≡ ok t)
      × (t.one ≡ replied (lit "ACK_DELETE\n__SS_END__"))
      × (node_at t.fs (get_safe_path b) ≡ none)
      × (node_at t.fs (get_safe_path a) ≡ node_at fs (get_safe_path a))
      × (step false t ≡ fault null_pointer)
unfolding steps after_delete
wrong_file_deleted fs gs position a b plain given other gone = (
  after_delete fs a b position gs,
  ap (λ r. and_then r (steps (false ∷ true ∷ []))) (one_takes fs a b position)
      ∙ ap (λ r. and_then r (steps (true ∷ []))) (two_takes fs a b position)
      ∙ ap (λ r. and_then r (steps [])) (deletes_other fs a b position gs plain given gone),
  refl,
  ground (
    arith,
    remove-node_at fs gs (get_safe_path b) (get_safe_path b) gone,
    str_eq_refl (get_safe_path b),
  ),
  ground (arith, remove-node_at fs gs (get_safe_path b) (get_safe_path a) gone, other),
  reads_null fs a b position gs,
)
