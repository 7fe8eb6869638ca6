-- ===== src/Server/Access/Nodes.antt =====
-- The access list as a map from users to permissions.
use lang_os_distributed_file.Base.{
  ℕ, none, some, Bool, true, false, List, [], ◌∷◌, Text, ◌≡◌, refl, arith, str_eq, str_eq_iff,
  str_eq_refl, ◌==◌, ◌||◌, ◌&&◌, not, Option-cases, inl, inr,
}
use lang_os_distributed_file.Server.{AccessNode}
use lang_os_distributed_file.Server.Find.{grants}
use lang_os_distributed_file.Server.Access.{update_access}

-- The permissions of a user's nodes.
unfoldable pub mentions : List AccessNode → Text → Bool
mentions [] username = false
mentions (node ∷ nodes) username = str_eq node.username username || mentions nodes username

-- No user has two nodes.
unfoldable pub are_distinct : List AccessNode → Bool
unfolding mentions
are_distinct [] = true
are_distinct (node ∷ nodes) = not (mentions nodes node.username) && are_distinct nodes

module _ (target : Text) where
  -- An update of one user's node leaves what the others may do.
  pub grants-update_other :
      (nodes nodes' : List AccessNode) (perm : ℕ) (user : Text) (q : ℕ)
      → update_access nodes target perm ≡ some nodes'
      → str_eq target user ≡ false
      → grants nodes' user q ≡ grants nodes user q
  unfolding update_access grants
  grants-update_other [] nodes' perm user q h ne = cc
  grants-update_other (node ∷ nodes) nodes' perm user q h ne =
      elim (Option-cases (update_access nodes target perm)) [
        | inl absent ↦ ground (arith, h, absent, str_eq_iff node.username target)
        | inr (rest, e) ↦ ground (
          arith,
          h,
          e,
          str_eq_iff node.username target,
          grants-update_other nodes rest perm user q e ne,
        )
      ]

  -- The user of the updated node has the new permission.
  pub grants-update_self :
      (nodes nodes' : List AccessNode) (perm : ℕ)
      → update_access nodes target perm ≡ some nodes'
      → grants nodes' target perm ≡ true
  unfolding update_access grants
  grants-update_self [] nodes' perm h = cc
  grants-update_self (node ∷ nodes) nodes' perm h =
      elim (Option-cases (update_access nodes target perm)) [
        | inl absent ↦ ground (arith, h, absent)
        | inr (rest, e) ↦ ground (arith, h, e, grants-update_self nodes rest perm e)
      ]

  pub mentions-update :
      (nodes nodes' : List AccessNode) (perm : ℕ) (user : Text)
      → update_access nodes target perm ≡ some nodes'
      → mentions nodes' user ≡ mentions nodes user
  unfolding update_access mentions
  mentions-update [] nodes' perm user h = cc
  mentions-update (node ∷ nodes) nodes' perm user h =
      elim (Option-cases (update_access nodes target perm)) [
        | inl absent ↦ ground (arith, h, absent)
        | inr (rest, e) ↦ ground (arith, h, e, mentions-update nodes rest perm user e)
      ]

  pub are_distinct-update :
      (nodes nodes' : List AccessNode) (perm : ℕ)
      → update_access nodes target perm ≡ some nodes'
      → are_distinct nodes' ≡ are_distinct nodes
  unfolding update_access are_distinct
  are_distinct-update [] nodes' perm h = cc
  are_distinct-update (node ∷ nodes) nodes' perm h =
      elim (Option-cases (update_access nodes target perm)) [
        | inl absent ↦ ground (arith, h, absent)
        | inr (rest, e) ↦ ground (
          arith,
          h,
          e,
          are_distinct-update nodes rest perm e,
          mentions-update nodes rest perm node.username e,
        )
      ]

  pub update-none :
      (nodes : List AccessNode) (perm : ℕ)
      → update_access nodes target perm ≡ none
      → mentions nodes target ≡ false
  unfolding update_access mentions
  update-none [] perm h = refl
  update-none (node ∷ nodes) perm h = ground (arith, h, update-none nodes perm)

  pub grants-unmentioned :
      (nodes : List AccessNode) (q : ℕ)
      → mentions nodes target ≡ false
      → grants nodes target q ≡ false
  unfolding mentions grants
  grants-unmentioned [] q h = refl
  grants-unmentioned (node ∷ nodes) q h = ground (arith, h, grants-unmentioned nodes q)

  -- The list after a grant: the user's node is updated, or a new one stands in front.
  abbrev pub granted : List AccessNode → ℕ → List AccessNode
  granted nodes perm = elim (update_access nodes target perm) [
    | some nodes' ↦ nodes'
    | none ↦ record { username = target; permission = perm } ∷ nodes
  ]

  pub grants-granted_other :
      (nodes : List AccessNode) (perm : ℕ) (user : Text) (q : ℕ)
      → str_eq target user ≡ false
      → grants (granted nodes perm) user q ≡ grants nodes user q
  unfolding grants
  grants-granted_other nodes perm user q ne =
      elim (Option-cases (update_access nodes target perm)) [
        | inl absent ↦ ground (arith, absent)
        | inr (rest, e) ↦ ground (arith, e, grants-update_other nodes rest perm user q e ne)
      ]

  grants-update_exact :
      (nodes nodes' : List AccessNode) (perm q : ℕ)
      → are_distinct nodes ≡ true
      → update_access nodes target perm ≡ some nodes'
      → grants nodes' target q ≡ (perm == b'W' || perm == q)
  unfolding update_access grants are_distinct
  grants-update_exact [] nodes' perm q d h = cc
  grants-update_exact (node ∷ nodes) nodes' perm q d h =
      elim (Option-cases (update_access nodes target perm)) [
        | inl absent ↦
            ground
              (arith, h, absent, d, str_eq_iff node.username target, grants-unmentioned nodes q)
        | inr (rest, e) ↦ ground (
          arith,
          h,
          e,
          d,
          str_eq_iff node.username target,
          grants-unmentioned nodes q,
          grants-update_exact nodes rest perm q,
        )
      ]

  -- Where no user has two nodes, the grant fixes what the user may do.
  pub grants-granted_self :
      (nodes : List AccessNode) (perm q : ℕ)
      → are_distinct nodes ≡ true
      → grants (granted nodes perm) target q ≡ (perm == b'W' || perm == q)
  unfolding grants
  grants-granted_self nodes perm q d = elim (Option-cases (update_access nodes target perm)) [
    | inl absent ↦ ground (
      arith,
      absent,
      str_eq_refl target,
      grants-unmentioned nodes q (update-none nodes perm absent),
    )
    | inr (rest, e) ↦ ground (arith, e, grants-update_exact nodes rest perm q d e)
  ]

  pub are_distinct-granted :
      (nodes : List AccessNode) (perm : ℕ)
      → are_distinct nodes ≡ true
      → are_distinct (granted nodes perm) ≡ true
  unfolding are_distinct
  are_distinct-granted nodes perm d = elim (Option-cases (update_access nodes target perm)) [
    | inl absent ↦ ground (arith, absent, d, update-none nodes perm absent)
    | inr (rest, e) ↦ ground (arith, e, d, are_distinct-update nodes rest perm e)
  ]
