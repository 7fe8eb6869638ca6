-- ===== src/Server/Restore/Users.antt =====
-- The users, from `save_metadata` to the next start of the Name Server.
use lang_os_distributed_file.Base.{
  ℕ, zero, suc, ◌≡◌, ◌≢◌, ◌<◌, ◌≤◌, ◌∙◌, ◌>>◌, sym, ap, refl, arith, true, List, [], ◌∷◌, ◌++◌, map,
  Text, ok, lit, length, length-append, none_of, member, fgets, strcpy,
}
use mathlib.Core.List.{reverse, reverse-cons, append_assoc, append-nil}
use lang_os_distributed_file.Server.{NameServer, User, World, boot}
use lang_os_distributed_file.Server.Save.{save_metadata, user_lines}
use lang_os_distributed_file.Server.Save.Total.{AreStored, save_metadata-total, disk_after}
use lang_os_distributed_file.Server.Restore.{load_metadata, load_user, for_lines}
use lang_os_distributed_file.Server.Restore.Boot.{HasNoFiles, boot-HasNoFiles, restores_users_only}

-- A name that stands on a line of its own and fits its buffer.
pub record IsUserName (name : Text) : Type 0 where
  pub given : name ≢ []
  pub one_line : none_of (lit "\n") name ≡ true
  pub short : length name < 50

abbrev pub AreUserNames : List User → Type 0
AreUserNames [] = Unit
AreUserNames (user ∷ users) = IsUserName user.username × AreUserNames users

-- The users as they are read back, in front of those that are there.
abbrev restored : List User → List User → List User
restored [] known = known
restored (user ∷ users) known =
    restored users (record { username = user.username; ip_addr = lit "0.0.0.0" } ∷ known)

fgets-line :
    (n : ℕ) (line rest : Text)
    → none_of (lit "\n") line ≡ true
    → length line < n
    → fgets n (line ++ 10 ∷ rest) ≡ (line, rest)
unfolding fgets none_of member
fgets-line zero line rest plain fits = absurd (omega arith)
fgets-line (suc n) [] rest plain fits = refl
fgets-line (suc n) (c ∷ line) rest plain fits = ground (arith, plain, fgets-line n line rest)

load_user-name :
    (c : ℕ) (name : Text) (s : NameServer)
    → length (c ∷ name) < 50
    → load_user (c ∷ name) s
      ≡ ok (
        tt,
        record s {
          user_list = record { username = c ∷ name; ip_addr = lit "0.0.0.0" } ∷ s.user_list;
        },
      )
unfolding load_user strcpy
load_user-name c name s short = ground (arith, short)

-- One round of the loop.
after_name : NameServer → Text → NameServer
after_name s name = record s {
  user_list = record { username = name; ip_addr = lit "0.0.0.0" } ∷ s.user_list;
}

for_lines-user :
    (name rest : Text) (fuel : ℕ) (s : NameServer)
    → IsUserName name
    → length (name ++ 10 ∷ rest) ≤ fuel
    → (fuel' : ℕ) × (length rest ≤ fuel')
      × (for_lines fuel load_user (name ++ 10 ∷ rest) s
          ≡ for_lines fuel' load_user rest (after_name s name))
unfolding for_lines after_name
for_lines-user [] rest fuel s n fits = absurd (n.given refl)
for_lines-user (c ∷ name) rest zero s n fits = absurd (omega arith)
for_lines-user (c ∷ name) rest (suc fuel) s n fits =
    let line = fgets-line 2047 (c ∷ name) rest n.one_line (omega (arith, n.short)) in
    let read : (load_user (c ∷ name) >> for_lines fuel load_user rest) s
        ≡ for_lines fuel load_user rest (after_name s (c ∷ name)) =
      ground (arith, load_user-name c name s n.short) in
    (
      fuel,
      omega (arith, fits, length-append name (10 ∷ rest)),
      ap (λ (x : Text × Text). (load_user x.0 >> for_lines fuel load_user x.1) s) line ∙ read,
    )

for_lines-users :
    (users : List User) (fuel : ℕ) (s : NameServer)
    → AreUserNames users
    → length (user_lines users) ≤ fuel
    → for_lines fuel load_user (user_lines users) s
      ≡ ok (tt, record s { user_list = restored users s.user_list })
unfolding user_lines after_name for_lines
for_lines-users [] zero s names fits = refl
for_lines-users [] (suc fuel) s names fits = refl
for_lines-users (user ∷ users) fuel s (n, names) fits =
    let (fuel', fits', step) = for_lines-user user.username (user_lines users) fuel s n fits in
    step ∙ for_lines-users users fuel' (after_name s user.username) names fits'

names_of : List User → List Text
names_of users = map (λ user. user.username) users

restored-names :
    (users known : List User)
    → names_of (restored users known) ≡ reverse (names_of users) ++ names_of known
unfolding names_of
restored-names [] known = refl
restored-names (user ∷ users) known =
    let next = record { username = user.username; ip_addr = lit "0.0.0.0" } ∷ known in
    restored-names users next
    ∙ (sym (append_assoc (reverse (names_of users)) (user.username ∷ []) (names_of known))
        ∙ ap (λ (l : List Text). l ++ names_of known)
            (sym (reverse-cons user.username (names_of users))))

-- Where every listed file has a Storage Server, every user's name has a line to itself and fits its
-- buffer, and the users' file opens, a save returns; and when the Name Server starts again from what is
-- then on the disk, loading returns, and it knows the users of the same names, in reverse order, and
-- no file.
pub save_then_boot :
    (w : World) (s : NameServer)
    → AreStored s.files s.file_list
    → AreUserNames s.user_list
    → s.disk.user_data_opens ≡ true
    → (t u : NameServer) × (save_metadata s ≡ ok (tt, t))
      × (load_metadata w (boot t.disk) ≡ ok (tt, u))
      × (map (λ (user : User). user.username) u.user_list
          ≡ reverse (map (λ (user : User). user.username) s.user_list))
      × HasNoFiles u
unfolding names_of boot
save_then_boot w s stored names opens =
    let disk = disk_after s in
    let written : disk.user_data ≡ user_lines s.user_list = ground (arith, opens) in
    let start = boot disk in
    let end = record start { user_list = restored s.user_list [] } in
    let (same, no_files) = restores_users_only w start (boot-HasNoFiles disk) in
    let users : for_lines (length disk.user_data) load_user disk.user_data start ≡ ok (tt, end) =
      ap (λ d. for_lines (length d) load_user d start) written
      ∙ (for_lines-users s.user_list (length (user_lines s.user_list)) start names (omega arith)) in
    let loaded : load_metadata w start ≡ ok (tt, end) = (same) ∙ users in
    (
      record s { disk = disk },
      end,
      save_metadata-total s stored,
      loaded,
      restored-names s.user_list [] ∙ append-nil (reverse (names_of s.user_list)),
      no_files end loaded,
    )
