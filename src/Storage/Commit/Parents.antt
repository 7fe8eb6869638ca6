-- ===== src/Storage/Commit/Parents.antt =====
-- The directories that `ensure_directory_exists` of src/storage_server/storage_server.c makes.
use mathlib.Core.Path.{subst, sym}
use mathlib.Core.List.{append-nil, append_assoc}
use lang_os_distributed_file.Base.{
  take_of_length-le, ℕ, Bool, Option, none, not, ◌&&◌, lit, ◌≤◌, ◌<◌, ◌+◌, some, true, false, [],
  ◌∷◌, ◌++◌, Text, ok, ◌≡◌, ◌≢◌, refl, ◌∙◌, ap, arith, ◌==◌, Run, if◌then◌else◌, length,
  length-append, length-take, str_eq, str_eq_iff, str_eq_refl, snprintf, Bool-cases, Option-cases,
  inl, inr,
}
use lang_os_distributed_file.Storage.Fs.{
  Node, directory, file, Fs, node_at, parent, has_place, mkdir,
}
use lang_os_distributed_file.Storage.Fs.Laws.{has_place-append, is_directory, node_at-put_node}
use lang_os_distributed_file.Storage.Commit.{make_parents, drop_slash, ensure_directory_exists}

-- What exists stays.
abbrev pub Keeps : Fs → Fs → Type 0
Keeps fs fs' = (q : Text) (node : Node) → node_at fs q ≡ some node → node_at fs' q ≡ some node

mkdir-Keeps : (fs : Fs) (path : Text) → Keeps fs (mkdir fs path)
unfolding mkdir
mkdir-Keeps fs path q node at_q =
    ground (arith, at_q, node_at-put_node fs path q directory, str_eq_iff path q)

mkdir-elsewhere :
    (fs : Fs) (path q : Text) → str_eq path q ≡ false → node_at (mkdir fs path) q ≡ node_at fs q
unfolding mkdir
mkdir-elsewhere fs path q other = ground (arith, other, node_at-put_node fs path q directory)

shorter-ne : (s t : Text) → length s < length t → str_eq s t ≡ false
shorter-ne s t h = elim (Bool-cases (str_eq s t)) [
  | inl same ↦ let e = ap length ((str_eq_iff s t).0 same) in absurd (omega arith)
  | inr other ↦ other
]

-- The directories of the loop are shorter than the path.
pub make_parents-elsewhere :
    (path done q : Text) (fs : Fs)
    → length done + length path ≤ length q
    → node_at (make_parents fs done path) q ≡ node_at fs q
unfolding make_parents
make_parents-elsewhere [] done q fs fits = refl
make_parents-elsewhere (c ∷ path) done q fs fits =
    let other = shorter-ne done q (omega arith) in
    let made = if c == b'/' then mkdir (mkdir fs done) done else fs in
    let rest =
      make_parents-elsewhere path (done ++ (c ∷ [])) q made
        (omega (arith, length-append done (c ∷ []))) in
    let twice = mkdir-elsewhere (mkdir fs done) done q other ∙ mkdir-elsewhere fs done q other in
    let step : node_at made q ≡ node_at fs q = ground (arith, twice) in rest ∙ step

pub make_parents-Keeps : (path done : Text) (fs : Fs) → Keeps fs (make_parents fs done path)
unfolding make_parents
make_parents-Keeps [] done fs q node at_q = at_q
make_parents-Keeps (c ∷ path) done fs q node at_q =
    let made = if c == b'/' then mkdir (mkdir fs done) done else fs in
    let twice = mkdir-Keeps (mkdir fs done) done q node (mkdir-Keeps fs done q node at_q) in
    let step : node_at made q ≡ some node = ground (arith, twice, at_q) in
    make_parents-Keeps path (done ++ (c ∷ [])) made q node step

length-drop_slash : (s : Text) → length (drop_slash s) ≤ length s
unfolding drop_slash
length-drop_slash [] = omega arith
length-drop_slash (c ∷ []) = ground arith
length-drop_slash (c ∷ d ∷ s) = omega (arith, length-drop_slash (d ∷ s))

-- Making the directories of a path changes nothing at the path, and nothing that exists.
pub ensure_lem :
    (fs : Fs) (path : Text)
    → path ≢ []
    → (fs' : Fs) × (ensure_directory_exists fs path ≡ ok fs')
      × (node_at fs' path ≡ node_at fs path)
      × Keeps fs fs'
unfolding ensure_directory_exists
ensure_lem fs [] given = absurd (given refl)
ensure_lem fs (c ∷ path) given =
    after (drop_slash (snprintf 256 (c ∷ path)))
      (omega (arith, length-drop_slash (snprintf 256 (c ∷ path)), length-take 255 (c ∷ path)))
  where
    after :
        (cut : Text)
        → length cut ≤ length (c ∷ path)
        → (fs' : Fs) × (elim cut as (λ _. Run Fs) [
          | [] ↦ ok fs
          | d ∷ rest ↦ ok (make_parents fs (d ∷ []) rest)
        ]
            ≡ ok fs')
          × (node_at fs' (c ∷ path) ≡ node_at fs (c ∷ path))
          × Keeps fs fs'
    after [] h = (fs, refl, refl, λ q node at_q. at_q)
    after (d ∷ rest) h = (
      make_parents fs (d ∷ []) rest,
      refl,
      make_parents-elsewhere rest (d ∷ []) (c ∷ path) fs (omega arith),
      make_parents-Keeps rest (d ∷ []) fs,
    )

abbrev is_file : Option Node → Bool
is_file (some (file content)) = true
is_file _ = false

-- No file stands where a directory of the path has to be; `done` is what stands in front.
unfoldable pub is_clear : Fs → Text → Text → Bool
is_clear fs done [] = true
is_clear fs done (c ∷ path) =
    let rest = is_clear fs (done ++ (c ∷ [])) path in
    (if c == b'/' then not (is_file (node_at fs done)) else true) && rest

-- The same of a whole path, which is relative to the working directory.
unfoldable pub is_free : Fs → Text → Bool
unfolding is_clear
is_free fs [] = false
is_free fs (c ∷ path) = not (c == b'/') && is_clear fs (c ∷ []) path

-- A file can be made at the path once its directories have been made, those that exist already
-- included.
pub record CanHold (fs : Fs) (path : Text) : Type 0 where
  pub short : length path < 256
  pub ends : drop_slash path ≡ path
  pub free : is_free fs path ≡ true
  pub no_directory : is_directory (node_at fs path) ≡ false

mkdir-there :
    (fs : Fs) (p : Text)
    → has_place fs p ≡ true
    → is_file (node_at fs p) ≡ false
    → node_at (mkdir fs p) p ≡ some directory
unfolding mkdir
mkdir-there fs p place free = elim (Option-cases (node_at fs p)) [
  | inl absent ↦ ground (arith, absent, place, node_at-put_node fs p p directory, str_eq_refl p)
  | inr (directory, e) ↦ ground (arith, e)
  | inr (file content, e) ↦ ground (arith, e, free)
]

mkdir-is_file :
    (fs : Fs) (p q : Text)
    → is_file (node_at fs q) ≡ false
    → is_file (node_at (mkdir fs p) q) ≡ false
unfolding mkdir
mkdir-is_file fs p q free = ground (arith, free, node_at-put_node fs p q directory)

mkdir-is_clear :
    (fs : Fs) (p done path : Text)
    → is_clear fs done path ≡ true
    → is_clear (mkdir fs p) done path ≡ true
unfolding is_clear
mkdir-is_clear fs p done [] h = refl
mkdir-is_clear fs p done (c ∷ path) h = elim (Bool-cases (c == b'/')) [
  | inr e ↦ ground (arith, e, h, mkdir-is_clear fs p (done ++ (c ∷ [])) path)
  | inl e ↦
      ground (arith, e, h, mkdir-is_file fs p done, mkdir-is_clear fs p (done ++ (c ∷ [])) path)
]

parent-slash : (p : Text) → parent (p ++ lit "/") ≡ some p
unfolding parent
parent-slash [] = refl
parent-slash (c ∷ p) = ground (arith, parent-slash p)

Keeps-has_place :
    (fs fs' : Fs) (path : Text)
    → Keeps fs fs'
    → has_place fs path ≡ true
    → has_place fs' path ≡ true
unfolding has_place
Keeps-has_place fs fs' [] keeps place = cc
Keeps-has_place fs fs' (c ∷ path) keeps place = elim (Option-cases (parent (c ∷ path))) [
  | inl top ↦ ground (arith, top)
  | inr (up, e) ↦ elim (Option-cases (node_at fs up)) [
    | inl absent ↦ ground (arith, e, absent, place)
    | inr (node, at_up) ↦ ground (arith, e, at_up, place, keeps up node at_up)
  ]
]

-- After the round for one byte.
abbrev after_byte : Fs → Text → ℕ → Fs
after_byte fs done c = if c == b'/' then mkdir (mkdir fs done) done else fs

mkdir-has_place : (fs : Fs) (p q : Text) → has_place fs q ≡ true → has_place (mkdir fs p) q ≡ true
mkdir-has_place fs p q place = Keeps-has_place fs (mkdir fs p) q (mkdir-Keeps fs p) place

below-directory :
    (fs : Fs) (d : ℕ) (done : Text)
    → node_at fs (d ∷ done) ≡ some directory
    → has_place fs ((d ∷ done) ++ lit "/") ≡ true
unfolding has_place
below-directory fs d done there = ground (arith, there, parent-slash (d ∷ done))

pub no_parent : (c : ℕ) → (c == b'/') ≡ false → parent (c ∷ []) ≡ none
unfolding parent
no_parent c e = ground (arith, e)

after_byte-place :
    (fs : Fs) (d : ℕ) (done : Text) (c : ℕ)
    → has_place fs (d ∷ done) ≡ true
    → ((c == b'/') ≡ true → is_file (node_at fs (d ∷ done)) ≡ false)
    → has_place (after_byte fs (d ∷ done) c) ((d ∷ done) ++ (c ∷ [])) ≡ true
after_byte-place fs d done c place free = elim (Bool-cases (c == b'/')) [
  | inr e ↦ rw e (has_place-append fs (d ∷ done) (c ∷ []) (no_parent c e) place)
  | inl e ↦
      let once = mkdir fs (d ∷ done) in
      let there =
        mkdir-there once (d ∷ done) (mkdir-has_place fs (d ∷ done) (d ∷ done) place)
          (mkdir-is_file fs (d ∷ done) (d ∷ done) (free e)) in
      let slash : c ≡ b'/' = ground (arith, e) in
      rw slash (below-directory (mkdir once (d ∷ done)) d done there)
]

after_byte-is_clear :
    (fs : Fs) (done : Text) (c : ℕ) (path : Text)
    → is_clear fs done (c ∷ path) ≡ true
    → ((c == b'/') ≡ true → is_file (node_at fs done) ≡ false)
      × (is_clear (after_byte fs done c) (done ++ (c ∷ [])) path ≡ true)
unfolding is_clear
after_byte-is_clear fs done c path h = elim (Bool-cases (c == b'/')) [
  | inr e ↦ (λ e'. ground (arith, e, e'), ground (arith, e, h))
  | inl e ↦ (
    λ e'. ground (arith, e, h),
    ground (
      arith,
      e,
      h,
      mkdir-is_clear (mkdir fs done) done (done ++ (c ∷ [])) path,
      mkdir-is_clear fs done (done ++ (c ∷ [])) path,
    ),
  )
]

-- Once the directories of a path have been made, a name can be made there.
pub make_parents-place :
    (path : Text) (d : ℕ) (done : Text) (fs : Fs)
    → has_place fs (d ∷ done) ≡ true
    → is_clear fs (d ∷ done) path ≡ true
    → has_place (make_parents fs (d ∷ done) path) ((d ∷ done) ++ path) ≡ true
unfolding make_parents
make_parents-place [] d done fs place clear =
    subst (λ q. has_place fs q ≡ true) (sym (append-nil (d ∷ done))) place
make_parents-place (c ∷ path) d done fs place clear =
    let (free, clear') = after_byte-is_clear fs (d ∷ done) c path clear in
    let next = after_byte-place fs d done c place free in
    subst (λ q. has_place (make_parents fs (d ∷ done) (c ∷ path)) q ≡ true)
      (append_assoc (d ∷ done) (c ∷ []) path)
      (make_parents-place path d (done ++ (c ∷ [])) (after_byte fs (d ∷ done) c) next clear')

pub ensure-makes :
    (fs : Fs) (c : ℕ) (path : Text)
    → length path < 255
    → drop_slash (c ∷ path) ≡ c ∷ path
    → ensure_directory_exists fs (c ∷ path) ≡ ok (make_parents fs (c ∷ []) path)
unfolding ensure_directory_exists
ensure-makes fs c path short ends =
    ap
      (λ cut. elim cut as (λ _. Run Fs) [
        | [] ↦ ok fs
        | d ∷ rest ↦ ok (make_parents fs (d ∷ []) rest)
      ])
      (ap drop_slash (take_of_length-le 255 (c ∷ path) (omega arith)) ∙ ends)
