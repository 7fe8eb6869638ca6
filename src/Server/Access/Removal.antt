-- ===== src/Server/Access/Removal.antt =====
-- The removal of a user from an access list.
use lang_os_distributed_file.Base.{
  ℕ, none, some, true, false, List, [], ◌∷◌, Text, ◌≡◌, refl, arith, str_eq, str_eq_iff,
  Option-cases, inl, inr,
}
use lang_os_distributed_file.Server.{AccessNode}
use lang_os_distributed_file.Server.Find.{grants}
use lang_os_distributed_file.Server.Access.{remove_access}
use lang_os_distributed_file.Server.Access.Nodes.{mentions, are_distinct}

module _ (target : Text) where
  pub remove-none :
      (nodes : List AccessNode) → remove_access nodes target ≡ none → mentions nodes target ≡ false
  unfolding remove_access mentions
  remove-none [] h = refl
  remove-none (node ∷ nodes) h = ground (arith, h, remove-none nodes)

  pub remove-some :
      (nodes nodes' : List AccessNode)
      → remove_access nodes target ≡ some nodes'
      → mentions nodes target ≡ true
  unfolding remove_access mentions
  remove-some [] nodes' h = cc
  remove-some (node ∷ nodes) nodes' h = elim (Option-cases (remove_access nodes target)) [
    | inl absent ↦ ground (arith, h, absent)
    | inr (rest, e) ↦ ground (arith, h, e, remove-some nodes rest e)
  ]

  -- A removal takes nothing from the other users.
  pub grants-remove_other :
      (nodes nodes' : List AccessNode) (user : Text) (q : ℕ)
      → remove_access nodes target ≡ some nodes'
      → str_eq target user ≡ false
      → grants nodes' user q ≡ grants nodes user q
  unfolding remove_access grants
  grants-remove_other [] nodes' user q h ne = cc
  grants-remove_other (node ∷ nodes) nodes' user q h ne =
      elim (Option-cases (remove_access nodes target)) [
        | inl absent ↦ ground (arith, h, absent, str_eq_iff node.username target)
        | inr (rest, e) ↦ ground (
          arith,
          h,
          e,
          str_eq_iff node.username target,
          grants-remove_other nodes rest user q e ne,
        )
      ]

  -- Where no user has two nodes, the removal of a user's node leaves none of that user.
  pub mentions-remove :
      (nodes nodes' : List AccessNode)
      → remove_access nodes target ≡ some nodes'
      → are_distinct nodes ≡ true
      → mentions nodes' target ≡ false
  unfolding remove_access mentions are_distinct
  mentions-remove [] nodes' h d = cc
  mentions-remove (node ∷ nodes) nodes' h d = elim (Option-cases (remove_access nodes target)) [
    | inl absent ↦ ground (arith, h, absent, d, str_eq_iff node.username target)
    | inr (rest, e) ↦
        ground (arith, h, e, d, str_eq_iff node.username target, mentions-remove nodes rest e)
  ]

  mentions-remove_le :
      (nodes nodes' : List AccessNode) (user : Text)
      → remove_access nodes target ≡ some nodes'
      → mentions nodes user ≡ false
      → mentions nodes' user ≡ false
  unfolding remove_access mentions
  mentions-remove_le [] nodes' user h m = cc
  mentions-remove_le (node ∷ nodes) nodes' user h m =
      elim (Option-cases (remove_access nodes target)) [
        | inl absent ↦ ground (arith, h, absent, m)
        | inr (rest, e) ↦ ground (arith, h, e, m, mentions-remove_le nodes rest user e)
      ]

  pub are_distinct-remove :
      (nodes nodes' : List AccessNode)
      → remove_access nodes target ≡ some nodes'
      → are_distinct nodes ≡ true
      → are_distinct nodes' ≡ true
  unfolding remove_access are_distinct
  are_distinct-remove [] nodes' h d = cc
  are_distinct-remove (node ∷ nodes) nodes' h d = elim (Option-cases (remove_access nodes target)) [
    | inl absent ↦ ground (arith, h, absent, d)
    | inr (rest, e) ↦ ground (
      arith,
      h,
      e,
      d,
      are_distinct-remove nodes rest e,
      mentions-remove_le nodes rest node.username e,
    )
  ]
