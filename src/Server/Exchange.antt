-- ===== src/Server/Exchange.antt =====
-- src/name_server/CRWD.c: `connect_and_send_to_ss`. Every `recv` takes what has arrived, as far as
-- it fits into the rest of the buffer.
pub mod Laws
use lang_os_distributed_file.Base.{
  ℕ, ◌-◌, Option, none, some, Bool, true, false, List, [], ◌∷◌, ◌++◌, Text, Run, ok, fault, blocked,
  lit, not, ◌||◌, ◌==◌, if◌then◌else◌, length, take, leb, before, contains,
}
use lang_os_distributed_file.Server.{Peer}
use lang_os_distributed_file.Server.Reply.{ss_response_len}

abbrev pub ss_end : Text
ss_end = lit "__SS_END__"

-- recv(sock, buffer + total_read, room, 0): no bytes are asked for where no room is left.
abbrev pub room : Text → ℕ
room buffer = ss_response_len - length buffer - 1

-- The read loop: the buffer with the marker, or nothing if `recv` returned 0 or less.
unfoldable pub recv_loop : Bool → List Text → Text → Run (Option Text)
recv_loop closes [] buffer = if closes || room buffer == 0 then ok none else blocked
recv_loop closes (chunk ∷ chunks) buffer =
    let buffer' = buffer ++ take (room buffer) chunk in
    let rest = recv_loop closes chunks buffer' in
    if room buffer == 0 || length chunk == 0
    then ok none
    else if contains buffer' ss_end
    then ok (some buffer')
    else if leb (length chunk) (room buffer)
    then rest
    else ok none

-- *strstr(response_buffer, "__SS_END__") = 0
unfoldable pub cut_marker : Text → Text
cut_marker buffer = elim (before ss_end buffer) [ none ↦ buffer | some body ↦ body ]

abbrev pub cut_reply : Run (Option Text) → Run (Option Text)
cut_reply (ok (some buffer)) = ok (some (cut_marker buffer))
cut_reply (ok none) = ok none
cut_reply (fault e) = fault e
cut_reply blocked = blocked

-- The response, or `none` where the function returns 0.
unfoldable pub connect_and_send_to_ss : Peer → Run (Option Text)
unfolding recv_loop cut_marker
connect_and_send_to_ss peer =
    if not peer.socket_ok
    then ok none
    else if not peer.connect_ok
    then ok none
    else if not peer.send_ok
    then ok none
    else cut_reply (recv_loop peer.closes peer.arriving [])
