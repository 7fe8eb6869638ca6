-- ===== src/Server/Exchange/Laws.antt =====
-- What `connect_and_send_to_ss` returns, however the reply is cut into portions.
use mathlib.Core.List.{append_assoc, append-nil}
use lang_os_distributed_file.Base.{
  ◌+◌, ◌<◌, none, some, Bool, true, false, List, [], ◌∷◌, ◌++◌, Text, ok, blocked, ◌≡◌, refl, arith,
  length, take_of_length-le, length-append, before, contains, before-prefix, contains-append, ◌∙◌,
  Bool-cases, inl, inr, if◌then◌else◌,
}
use lang_os_distributed_file.Server.{Peer}
use lang_os_distributed_file.Server.Exchange.{
  ss_end, room, recv_loop, cut_marker, connect_and_send_to_ss,
}

-- No portion is empty: `recv` returns more than 0 while the connection is open.
abbrev pub AreNonempty : List Text → Type 0
AreNonempty [] = Unit
AreNonempty (chunk ∷ chunks) = (0 < length chunk) × AreNonempty chunks

-- All the bytes that arrive.
abbrev pub all_of : List Text → Text
all_of [] = []
all_of (chunk ∷ chunks) = chunk ++ all_of chunks

contains-before : (s p b : Text) → before p s ≡ some b → contains s p ≡ true
unfolding contains
contains-before s p b h = ground arith

not-contains-before : (s p : Text) → contains s p ≡ false → before p s ≡ none
unfolding contains
not-contains-before s p h = ground arith

-- One `recv` whose portion fits.
recv_loop-step :
    (closes : Bool) (chunk : Text) (chunks : List Text) (buffer : Text)
    → 0 < length chunk
    → length buffer + length chunk < 4096
    → recv_loop closes (chunk ∷ chunks) buffer ≡ (
        if contains (buffer ++ chunk) ss_end
        then ok (some (buffer ++ chunk))
        else recv_loop closes chunks (buffer ++ chunk))
unfolding recv_loop
recv_loop-step closes chunk chunks buffer ne fits =
    rw (take_of_length-le (room buffer) chunk (omega arith)) (ground arith)

recv_loop-marker :
    (closes : Bool) (chunks : List Text) (buffer body : Text)
    → AreNonempty chunks
    → length buffer + length (all_of chunks) < 4096
    → contains buffer ss_end ≡ false
    → before ss_end (buffer ++ all_of chunks) ≡ some body
    → (full : Text) × (recv_loop closes chunks buffer ≡ ok (some full))
      × (before ss_end full ≡ some body)
recv_loop-marker closes [] buffer body ne fits absent found =
    absurd (cc (append-nil buffer, not-contains-before buffer ss_end absent))
recv_loop-marker closes (chunk ∷ chunks) buffer body (n, ne) fits absent found =
    let step =
      recv_loop-step closes chunk chunks buffer n
        (omega (arith, length-append chunk (all_of chunks))) in
    let whole : before ss_end ((buffer ++ chunk) ++ all_of chunks) ≡ some body =
      rw append_assoc found in
    elim (Bool-cases (contains (buffer ++ chunk) ss_end)) [
      | inl here ↦ (
        buffer ++ chunk,
        rw (step, here),
        before-prefix (buffer ++ chunk) (all_of chunks) ss_end body here whole,
      )
      | inr later ↦
          let (full, returned, found') =
            recv_loop-marker closes chunks (buffer ++ chunk) body ne
              (omega (arith, length-append chunk (all_of chunks), length-append buffer chunk)) later
              whole in
          (full, rw (step, later) returned, found')
    ]

recv_loop-silent :
    (chunks : List Text) (buffer : Text)
    → AreNonempty chunks
    → length buffer + length (all_of chunks) < 4095
    → contains (buffer ++ all_of chunks) ss_end ≡ false
    → recv_loop false chunks buffer ≡ blocked
unfolding recv_loop
recv_loop-silent [] buffer ne fits absent = ground arith
recv_loop-silent (chunk ∷ chunks) buffer (n, ne) fits absent =
    let step =
      recv_loop-step false chunk chunks buffer n
        (omega (arith, length-append chunk (all_of chunks))) in
    let whole : contains ((buffer ++ chunk) ++ all_of chunks) ss_end ≡ false =
      rw append_assoc absent in
    let rest =
      recv_loop-silent chunks (buffer ++ chunk) ne
        (omega (arith, length-append chunk (all_of chunks), length-append buffer chunk)) whole in
    step ∙ ground (arith, contains-append (buffer ++ chunk) (all_of chunks) ss_end, rest)

-- A peer that can be reached and sends `chunks`; `closes` tells whether it then closes.
abbrev pub answering : List Text → Bool → Peer
answering chunks closes = record {
  socket_ok = true;
  connect_ok = true;
  send_ok = true;
  arriving = chunks;
  closes = closes;
}

abbrev no_marker_yet : contains [] ss_end ≡ false
unfolding contains before
no_marker_yet = refl

-- A reply that fits into the buffer and holds the end marker is returned up to the marker,
-- however the bytes are cut into portions, and whatever follows the marker.
pub exchange_complete :
    (chunks : List Text) (closes : Bool) (body : Text)
    → AreNonempty chunks
    → length (all_of chunks) < 4096
    → before ss_end (all_of chunks) ≡ some body
    → connect_and_send_to_ss (answering chunks closes) ≡ ok (some body)
unfolding connect_and_send_to_ss cut_marker
exchange_complete chunks closes body ne fits found =
    let (full, returned, found') =
      recv_loop-marker closes chunks [] body ne (omega arith) no_marker_yet found in
    rw returned (ground arith)

-- A reply without the marker and of less than 4095 bytes, from a peer that keeps the connection open,
-- blocks the Name Server for ever.
pub exchange_blocks :
    (chunks : List Text)
    → AreNonempty chunks
    → length (all_of chunks) < 4095
    → contains (all_of chunks) ss_end ≡ false
    → connect_and_send_to_ss (answering chunks false) ≡ blocked
unfolding connect_and_send_to_ss
exchange_blocks chunks ne fits absent = rw (recv_loop-silent chunks [] ne (omega arith) absent)
