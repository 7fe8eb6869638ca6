-- ===== src/Server/Register/Users.antt =====
-- The users that `register_user` leaves, and a second registration of a server.
use lang_os_distributed_file.Base.{
  ◌<◌, none, some, Bool, true, false, List, [], ◌∷◌, Text, ok, ◌≡◌, refl, arith, length, str_eq,
  str_eq_iff, str_eq_refl, strcpy, ◌&&◌, ◌||◌, not, Option-cases, inl, inr,
}
use lang_os_distributed_file.Server.{NameServer, User}
use lang_os_distributed_file.Server.Find.{find_user}
use lang_os_distributed_file.Server.Register.{update_user, register_user}

-- A user of the name is in the list.
is_user : List User → Text → Bool
is_user [] username = false
is_user (user ∷ users) username = str_eq user.username username || is_user users username

-- No name is registered twice.
unfoldable pub are_unique : List User → Bool
unfolding is_user
are_unique [] = true
are_unique (user ∷ users) = not (is_user users user.username) && are_unique users

module _ (username ip : Text) where
  update-none :
      (users : List User) → update_user users username ip ≡ none → is_user users username ≡ false
  unfolding update_user is_user
  update-none [] h = refl
  update-none (user ∷ users) h = ground (arith, h, update-none users)

  update-is_user :
      (users users' : List User) (other : Text)
      → update_user users username ip ≡ some users'
      → is_user users' other ≡ is_user users other
  unfolding update_user is_user
  update-is_user [] users' other h = cc
  update-is_user (user ∷ users) users' other h =
      elim (Option-cases (update_user users username ip)) [
        | inl absent ↦ ground (arith, h, absent)
        | inr (rest, e) ↦ ground (arith, h, e, update-is_user users rest other e)
      ]

  update-are_unique :
      (users users' : List User)
      → update_user users username ip ≡ some users'
      → are_unique users' ≡ are_unique users
  unfolding update_user are_unique
  update-are_unique [] users' h = cc
  update-are_unique (user ∷ users) users' h = elim (Option-cases (update_user users username ip)) [
    | inl absent ↦ ground (arith, h, absent)
    | inr (rest, e) ↦
        ground
          (arith, h, e, update-are_unique users rest e, update-is_user users rest user.username e)
  ]

  update-find_self :
      (users users' : List User)
      → update_user users username ip ≡ some users'
      → find_user users' username ≡ some (record { username = username; ip_addr = ip })
  unfolding update_user find_user
  update-find_self [] users' h = cc
  update-find_self (user ∷ users) users' h = elim (Option-cases (update_user users username ip)) [
    | inl absent ↦ ground (arith, h, absent, str_eq_iff user.username username)
    | inr (rest, e) ↦
        ground (arith, h, e, str_eq_iff user.username username, update-find_self users rest e)
  ]

  update-find_other :
      (users users' : List User) (other : Text)
      → update_user users username ip ≡ some users'
      → str_eq username other ≡ false
      → find_user users' other ≡ find_user users other
  unfolding update_user find_user
  update-find_other [] users' other h ne = cc
  update-find_other (user ∷ users) users' other h ne =
      elim (Option-cases (update_user users username ip)) [
        | inl absent ↦ ground (arith, h, absent, ne, str_eq_iff user.username username)
        | inr (rest, e) ↦ ground (
          arith,
          h,
          e,
          ne,
          str_eq_iff user.username username,
          update-find_other users rest other e,
        )
      ]

-- What a registration does to the users: the name is known under the new address, the others as
-- before, and nothing but the list of users has changed.
pub record IsRegistered (s t : NameServer) (username ip : Text) : Type 0 where
  pub self : find_user t.user_list username ≡ some (record { username = username; ip_addr = ip })
  pub others :
      (other : Text)
      → str_eq username other ≡ false
      → find_user t.user_list other ≡ find_user s.user_list other
  pub unique : are_unique t.user_list ≡ are_unique s.user_list
  pub frame : t ≡ record s { user_list = t.user_list }

-- A user whose name and address fit into their buffers is registered: afterwards the name has the
-- new address, whether it was known before or not; every other name has the address that it had; no
-- name is listed twice unless one was before; and nothing else has changed.
pub register_user-registers :
    (username ip : Text) (s : NameServer)
    → length username < 50
    → length ip < 20
    → (t : NameServer) × ((register_user username ip s ≡ ok (tt, t)) × IsRegistered s t username ip)
unfolding register_user strcpy
register_user-registers username ip s short short_ip =
    elim (Option-cases (update_user s.user_list username ip)) [
      | inl absent ↦ (
        record s { user_list = record { username = username; ip_addr = ip } ∷ s.user_list },
        (
          ground (arith, absent, short, short_ip),
          record {
            self = unfold find_user in ground (arith, str_eq_refl username);
            others = λ other ne. unfold find_user in ground (arith, ne);
            unique =
                unfold are_unique in ground (arith, update-none username ip s.user_list absent);
            frame = refl;
          },
        ),
      )
      | inr (users, e) ↦ (
        record s { user_list = users },
        (
          ground (arith, e, short_ip),
          record {
            self = update-find_self username ip s.user_list users e;
            others = λ other ne. update-find_other username ip s.user_list users other e ne;
            unique = update-are_unique username ip s.user_list users e;
            frame = refl;
          },
        ),
      )
    ]
