-- ===== src/Client/Main.antt =====
-- src/client/user_client.c: the beginning of `main`, and one round of its loop up to the command.
use lang_os_distributed_file.Base.{
  ℕ, ◌≡◌, ◌-◌, ◌<◌, ◌≤◌, refl, ap, arith, Bool, true, false, not, [], ◌∷◌, ◌++◌, Text, lit, length,
  fgets, zero, suc, replicate, if◌then◌else◌,
}
use lang_os_distributed_file.Client.{Input, max_response_len, read_input, register_message}

-- Whether there is a socket, and whether it connects to the Name Server.
pub record Connection : Type 0 where
  pub made : Bool
  pub connected : Bool

-- The client gives up with a text for `perror`, or it sends its first message; what it has read of
-- its input is the name, and the rest is still to be read.
pub data Start : Type 0 where
  failed : Text → Start
  registering : Text → Text → Start

-- The name has a buffer of 50 bytes, which is empty where the input has ended.
unfoldable pub start : Connection → Text → Start
unfolding register_message
start connection typed =
    let (username, rest) = fgets 49 typed in
    if not connection.made
    then failed (lit "Could not create socket")
    else if not connection.connected
    then failed (lit "Connect to NS failed")
    else registering (register_message username) rest

-- A round ends the loop with a text that is printed, or takes a line.
pub data Round : Type 0 where
  over : Text → Round
  takes : Input → Text → Round

-- One round, by whether the connection to the Name Server is still there.
unfoldable pub round : Bool → Text → Round
unfolding read_input
round false typed = over (lit "Connection to Name Server lost. Exiting.\n")
round true [] = over []
round true (c ∷ typed) =
    let (line, rest) = fgets (max_response_len - 1) (c ∷ typed) in takes (read_input line) rest

fgets-shorter : (n : ℕ) (s : Text) → length (fgets n s).1 ≤ length s
unfolding fgets
fgets-shorter zero s = omega arith
fgets-shorter (suc n) [] = omega arith
fgets-shorter (suc n) (c ∷ s) = ground (arith, fgets-shorter n s)

fgets-takes : (n c : ℕ) (s : Text) → length (fgets (suc n) (c ∷ s)).1 ≤ length s
unfolding fgets
fgets-takes n c s = ground (arith, fgets-shorter n s)

abbrev left_of : Round → Text
left_of (over text) = []
left_of (takes input rest) = rest

-- Every round that takes a line makes the input shorter, so that the loop ends with the input.
round-shorter :
    (alive : Bool) (typed rest : Text) (input : Input)
    → round alive typed ≡ takes input rest
    → length rest < length typed
unfolding round
round-shorter false typed rest input h = cc
round-shorter true [] rest input h = cc
round-shorter true (c ∷ typed) rest input h =
    let shorter = fgets-takes 8190 c typed in
    let same : length (fgets 8191 (c ∷ typed)).1 ≡ length rest = ap (λ r. length (left_of r)) h in
    omega (arith, shorter, same)

-- What a name has too much is taken for the first command.
long_name :
    start (record { made = true; connected = true }) (replicate 49 b'a' ++ lit "LIST\n")
    ≡ registering (register_message (replicate 49 b'a')) (lit "LIST\n")
unfolding start fgets
long_name = refl
