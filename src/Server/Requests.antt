-- ===== src/Server/Requests.antt =====
-- src/name_server/CRWD.c: `handle_req_access`, `handle_view_reqs`, `remove_request`,
-- `handle_approve_req`, `handle_reject_req`.
pub mod Approve
pub mod Fresh
pub mod Nodes
use lang_os_distributed_file.Base.{
  ℕ, ◌-◌, ◌*◌, Option, none, some, Bool, true, false, List, [], ◌∷◌, ◌++◌, Text, Exec, Run, ok,
  fault, blocked, pure, lift, raise, lit, not, ◌>>=◌, ◌>>◌, if◌then◌else◌, str_eq, strcpy,
  snprintf_at, and_then, ◌||◌, wild_pointer,
}
use lang_os_distributed_file.Server.{
  NameServer, FileMetadata, AccessNode, RequestNode, World, load, store,
}
use lang_os_distributed_file.Server.Find.{with_file, check_permission}
use lang_os_distributed_file.Server.Save.{save_metadata}
use lang_os_distributed_file.Server.Reply.{
  error_reply, reply, quoted, no_such_file, err_permission_denied, max_buffer_size,
}

-- file->pending_requests where the list is walked.
abbrev pub pending : FileMetadata → Exec NameServer (List RequestNode)
pending file = elim file.pending_requests [ none ↦ raise wild_pointer | some nodes ↦ pure nodes ]

-- The loop that looks for a user's request.
unfoldable pub has_request : List RequestNode → Text → Bool
has_request [] username = false
has_request (node ∷ nodes) username = str_eq node.username username || has_request nodes username

unfoldable pub already_allowed : Text
already_allowed = reply (lit "You already have access to this file.")

unfoldable pub already_pending : Text
already_pending = reply (lit "Request already pending.")

unfoldable pub request_sent : Text → Text
request_sent owner = reply (lit "Access request sent to owner " ++ (quoted owner ++ lit "."))

-- The reply reads `file->owner` after the mutex is released.
unfoldable pub add_request :
    World → Text → ℕ → FileMetadata → List RequestNode → Exec NameServer Text
unfolding load store request_sent
add_request w username p file nodes = do
  name ← lift (strcpy 50 username)
  store p (record file { pending_requests = some (record { username = name } ∷ nodes) })
  w.others
  file ← load p
  pure (request_sent file.owner)

unfoldable pub handle_req_access : World → Text → Text → Exec NameServer Text
unfolding with_file add_request has_request
handle_req_access w filename username = with_file filename (pure no_such_file) λ p file.
    if check_permission file username b'R' then pure already_allowed else (do
      nodes ← pending file
      if has_request nodes username
          then pure already_pending
          else add_request w username p file nodes)

abbrev pub requests_size : ℕ
requests_size = max_buffer_size * 2

unfoldable pub owner_views_only : Text
owner_views_only = error_reply err_permission_denied (lit "Only owner can view requests.")

-- "- %s\n" for each request, with the response and `offset`
unfoldable pub request_lines : List RequestNode → Text × ℕ → Run (Text × ℕ)
request_lines [] out = ok out
request_lines (node ∷ nodes) out =
    and_then (snprintf_at requests_size out (lit "- " ++ (node.username ++ lit "\n")))
      (request_lines nodes)

-- The line where the count is 0.
unfoldable pub none_line : List RequestNode → Text × ℕ → Run (Text × ℕ)
none_line [] out = snprintf_at requests_size out (lit "(None)\n")
none_line (node ∷ nodes) out = ok out

unfoldable pub request_list : Text → List RequestNode → Run Text
unfolding request_lines none_line snprintf_at
request_list filename nodes =
    and_then
      (snprintf_at requests_size ([], 0)
        (lit "Pending requests for " ++ (quoted filename ++ lit ":\n")))
      λ out. and_then (request_lines nodes out) λ out.
        and_then (none_line nodes out)
          λ out. and_then (snprintf_at requests_size out (lit "__END__\n")) λ out. ok out.0

unfoldable pub handle_view_reqs : Text → Text → Exec NameServer Text
unfolding with_file request_list
handle_view_reqs filename username = with_file filename (pure no_such_file) λ p file.
    if not (str_eq file.owner username)
    then pure owner_views_only
    else (do nodes ← pending file; lift (request_list filename nodes))

-- The loop of `remove_request` unlinks the first request of the user.
unfoldable pub unlink_request : List RequestNode → Text → List RequestNode
unlink_request [] target = []
unlink_request (node ∷ nodes) target =
    if str_eq node.username target then nodes else node ∷ unlink_request nodes target

unfoldable pub remove_request : ℕ → Text → Exec NameServer Unit
unfolding load store unlink_request
remove_request p target = do
  file ← load p
  nodes ← pending file
  store p (record file { pending_requests = some (unlink_request nodes target) })

-- The loop that looks for the user's node in the access list.
unfoldable pub has_access : List AccessNode → Text → Bool
has_access [] username = false
has_access (node ∷ nodes) username = str_eq node.username username || has_access nodes username

unfoldable pub grant_read : ℕ → FileMetadata → Text → Exec NameServer Unit
unfolding store has_access
grant_read p file target = if has_access file.access_list target then pure tt else (do
  name ← lift (strcpy 50 target)
  store p (record file {
    access_list = record { username = name; permission = b'R' } ∷ file.access_list;
  }))

unfoldable pub owner_approves_only : Text
owner_approves_only = error_reply err_permission_denied (lit "Only owner can approve requests.")

unfoldable pub access_granted : Text → Text
access_granted target = reply (lit "Access GRANTED to " ++ (quoted target ++ lit "."))

unfoldable pub handle_approve_req : Text → Text → Text → Exec NameServer Text
unfolding with_file grant_read remove_request save_metadata
handle_approve_req filename target_user current_user =
    with_file filename (pure no_such_file) λ p file.
      if not (str_eq file.owner current_user) then pure owner_approves_only else (do
        grant_read p file target_user
        remove_request p target_user
        save_metadata
        pure (access_granted target_user))

unfoldable pub owner_rejects_only : Text
owner_rejects_only = error_reply err_permission_denied (lit "Only owner can reject requests.")

unfoldable pub request_rejected : Text → Text
request_rejected target = reply (lit "Request from " ++ (quoted target ++ lit " REJECTED."))

unfoldable pub handle_reject_req : Text → Text → Text → Exec NameServer Text
unfolding with_file remove_request
handle_reject_req filename target_user current_user =
    with_file filename (pure no_such_file) λ p file.
      if not (str_eq file.owner current_user)
      then pure owner_rejects_only
      else (do remove_request p target_user; pure (request_rejected target_user))
