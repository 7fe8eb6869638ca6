-- ===== src/Server/Requests/Nodes.antt =====
-- The lists that an approval changes: the requests and the access list.
use lang_os_distributed_file.Base.{
  ℕ, Bool, true, false, List, [], ◌∷◌, Text, ◌≡◌, inl, inr, refl, arith, str_eq, str_eq_iff,
  str_eq_refl, ◌==◌, ◌||◌, ◌&&◌, if◌then◌else◌, not, Bool-cases,
}
use lang_os_distributed_file.Server.{AccessNode, RequestNode}
use lang_os_distributed_file.Server.Find.{grants}
use lang_os_distributed_file.Server.Requests.{has_request, has_access, unlink_request}

-- No user has two requests.
unfoldable pub are_single : List RequestNode → Bool
are_single [] = true
are_single (node ∷ nodes) = not (has_request nodes node.username) && are_single nodes

-- Each node gives 'R' or 'W'.
unfoldable pub are_letters : List AccessNode → Bool
are_letters [] = true
are_letters (node ∷ nodes) =
    (node.permission == b'R' || node.permission == b'W') && are_letters nodes

module _ (target : Text) where
  pub has_request-unlink_self :
      (nodes : List RequestNode)
      → are_single nodes ≡ true
      → has_request (unlink_request nodes target) target ≡ false
  unfolding has_request unlink_request are_single
  has_request-unlink_self [] h = refl
  has_request-unlink_self (node ∷ nodes) h =
      ground (arith, h, str_eq_iff node.username target, has_request-unlink_self nodes)

  pub has_request-unlink_other :
      (nodes : List RequestNode) (user : Text)
      → str_eq target user ≡ false
      → has_request (unlink_request nodes target) user ≡ has_request nodes user
  unfolding has_request unlink_request
  has_request-unlink_other [] user ne = refl
  has_request-unlink_other (node ∷ nodes) user ne =
      ground (arith, ne, str_eq_iff node.username target, has_request-unlink_other nodes user ne)

  pub are_single-unlink :
      (nodes : List RequestNode)
      → are_single nodes ≡ true
      → are_single (unlink_request nodes target) ≡ true
  unfolding are_single has_request unlink_request
  are_single-unlink [] h = refl
  are_single-unlink (node ∷ nodes) h = elim (Bool-cases (str_eq target node.username)) [
    | inl e ↦ ground (arith, h, e, str_eq_iff target node.username, str_eq_refl target)
    | inr e ↦ ground (
      arith,
      h,
      e,
      str_eq_iff node.username target,
      str_eq_iff target node.username,
      has_request-unlink_other nodes node.username e,
      are_single-unlink nodes,
    )
  ]

  -- The access list after an approval.
  abbrev pub approved : List AccessNode → List AccessNode
  approved nodes =
      if has_access nodes target
      then nodes
      else record { username = target; permission = b'R' } ∷ nodes

  pub grants-approved_other :
      (nodes : List AccessNode) (user : Text) (perm : ℕ)
      → str_eq target user ≡ false
      → grants (approved nodes) user perm ≡ grants nodes user perm
  unfolding grants
  grants-approved_other nodes user perm ne = ground (arith, ne)

  pub grants-has_access :
      (nodes : List AccessNode)
      → are_letters nodes ≡ true
      → has_access nodes target ≡ true
      → grants nodes target b'R' ≡ true
  unfolding grants has_access are_letters
  grants-has_access [] h a = cc
  grants-has_access (node ∷ nodes) h a = ground (arith, h, a, grants-has_access nodes)

  pub grants-approved_self :
      (nodes : List AccessNode)
      → are_letters nodes ≡ true
      → grants (approved nodes) target b'R' ≡ true
  unfolding grants
  grants-approved_self nodes h = elim (Bool-cases (has_access nodes target)) [
    | inl e ↦ ground (arith, e, grants-has_access nodes h e)
    | inr e ↦ ground (arith, e, str_eq_refl target)
  ]
