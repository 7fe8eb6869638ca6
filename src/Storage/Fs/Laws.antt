-- ===== src/Storage/Fs/Laws.antt =====
-- The calls of the file system as a map from paths to nodes.
use lang_os_distributed_file.Base.{
  Option, none, some, Bool, true, false, [], ◌∷◌, ◌++◌, Text, ◌≡◌, refl, ◌∙◌, arith, if◌then◌else◌,
  str_eq, str_eq_iff, Option-cases, inl, inr,
}
use lang_os_distributed_file.Storage.Fs.{
  Node, directory, file, Fs, node_at, without, put_node, parent, has_place, write_file, rename,
}

abbrev pub is_directory : Option Node → Bool
is_directory none = false
is_directory (some directory) = true
is_directory (some (file content)) = false

pub node_at-without :
    (fs : Fs) (p q : Text) → node_at (without fs p) q ≡ (if str_eq p q then none else node_at fs q)
unfolding node_at without
node_at-without [] p q = ground arith
node_at-without ((name, node) ∷ fs) p q =
    ground (arith, node_at-without fs p q, str_eq_iff name p, str_eq_iff name q, str_eq_iff p q)

pub node_at-put_node :
    (fs : Fs) (p q : Text) (node : Node)
    → node_at (put_node fs p node) q ≡ (if str_eq p q then some node else node_at fs q)
unfolding put_node node_at
node_at-put_node fs p q node = ground (arith, node_at-without fs p q)

-- A file where there was no directory changes no place where a name can be made.
pub has_place-put_node :
    (fs : Fs) (p q content : Text)
    → is_directory (node_at fs p) ≡ false
    → has_place (put_node fs p (file content)) q ≡ has_place fs q
unfolding has_place
has_place-put_node fs p [] content h = refl
has_place-put_node fs p (c ∷ q) content h = elim (Option-cases (parent (c ∷ q))) [
  | inl e ↦ ground arith
  | inr (up, e) ↦ ground (arith, node_at-put_node fs p up (file content), str_eq_iff p up)
]

pub has_place-without :
    (fs : Fs) (p q : Text)
    → is_directory (node_at fs p) ≡ false
    → has_place (without fs p) q ≡ has_place fs q
unfolding has_place
has_place-without fs p [] h = refl
has_place-without fs p (c ∷ q) h = elim (Option-cases (parent (c ∷ q))) [
  | inl e ↦ ground arith
  | inr (up, e) ↦ ground (arith, node_at-without fs p up, str_eq_iff p up)
]

-- What `rename` leaves where it moves a file to a name that is no directory.
abbrev pub renamed : Fs → Text → Text → Text → Fs
renamed fs old new content = put_node (without fs old) new (file content)

module _ (fs : Fs) (old new content : Text) (at_old : node_at fs old ≡ some (file content))
    (at_new : is_directory (node_at fs new) ≡ false) (place : has_place fs new ≡ true) where
  pub rename-renamed : rename fs old new ≡ some (renamed fs old new content)
  unfolding rename
  rename-renamed = ground arith

pub node_at-renamed :
    (fs : Fs) (old new content q : Text)
    → node_at (renamed fs old new content) q
      ≡ (if str_eq new q then some (file content) else if str_eq old q then none else node_at fs q)
node_at-renamed fs old new content q =
    ground (arith, node_at-put_node (without fs old) new q (file content), node_at-without fs old q)

pub write_file-put_node :
    (fs : Fs) (path content : Text)
    → is_directory (node_at fs path) ≡ false
    → has_place fs path ≡ true
    → write_file fs path content ≡ some (put_node fs path (file content))
unfolding write_file
write_file-put_node fs path content h place = ground arith

-- A suffix with no '/' stays in the same directory.
pub parent-append : (p s : Text) → parent s ≡ none → parent (p ++ s) ≡ parent p
unfolding parent
parent-append [] s h = h
parent-append (c ∷ p) s h = ground (arith, parent-append p s h)

pub has_place-append :
    (fs : Fs) (p s : Text) → parent s ≡ none → has_place fs p ≡ true → has_place fs (p ++ s) ≡ true
unfolding has_place
has_place-append fs [] s h place = ground arith
has_place-append fs (c ∷ p) s h place = ground (arith, parent-append (c ∷ p) s h)

pub has_place-renamed :
    (fs : Fs) (old new content q : Text)
    → is_directory (node_at fs old) ≡ false
    → is_directory (node_at fs new) ≡ false
    → has_place (renamed fs old new content) q ≡ has_place fs q
has_place-renamed fs old new content q at_old at_new =
    has_place-put_node (without fs old) new q content (ground (arith, node_at-without fs old new))
    ∙ has_place-without fs old q at_old
