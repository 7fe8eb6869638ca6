-- ===== src/Storage/Commit/Names.antt =====
-- The names of the backup and of the temporary file.
use mathlib.Core.List.{append-nil}
use lang_os_distributed_file.Base.{
  ◌<◌, false, [], ◌++◌, Text, ◌≡◌, refl, ◌∙◌, arith, lit, length, length-append, take_of_length-le,
  str_eq, str_eq_symm, str_eq-append,
}
use lang_os_distributed_file.Storage.Commit.{backup_path, tmp_path}

abbrev pub bak : Text → Text
bak path = path ++ lit ".bak"

abbrev pub tmp : Text → Text
tmp path = path ++ lit ".tmp"

pub backup_path-bak : (path : Text) → length path < 252 → backup_path path ≡ bak path
unfolding backup_path
backup_path-bak path h =
    take_of_length-le 255 (bak path) (omega (arith, length-append path (lit ".bak")))

pub tmp_path-tmp : (path : Text) → length path < 252 → tmp_path path ≡ tmp path
unfolding tmp_path
tmp_path-tmp path h =
    take_of_length-le 259 (tmp path) (omega (arith, length-append path (lit ".tmp")))

-- The three names differ.
longer-ne : (path s : Text) → str_eq [] s ≡ false → str_eq path (path ++ s) ≡ false
longer-ne path s h = rw append-nil at (str_eq-append path [] s) ∙ h

path-ne-bak : (path : Text) → str_eq path (bak path) ≡ false
path-ne-bak path = longer-ne path (lit ".bak") (unfold str_eq in refl)

path-ne-tmp : (path : Text) → str_eq path (tmp path) ≡ false
path-ne-tmp path = longer-ne path (lit ".tmp") (unfold str_eq in refl)

bak-ne-tmp : (path : Text) → str_eq (bak path) (tmp path) ≡ false
bak-ne-tmp path = str_eq-append path (lit ".bak") (lit ".tmp") ∙ (unfold str_eq in refl)

abbrev pub Distinct : Text → Text → Text → Type 0
Distinct p b t =
    (str_eq p b ≡ false)
    × (str_eq b p ≡ false)
    × (str_eq p t ≡ false)
    × (str_eq t p ≡ false)
    × (str_eq b t ≡ false)
    × (str_eq t b ≡ false)

pub names : (path : Text) → Distinct path (bak path) (tmp path)
names path = (
  path-ne-bak path,
  str_eq_symm (bak path) path ∙ path-ne-bak path,
  path-ne-tmp path,
  str_eq_symm (tmp path) path ∙ path-ne-tmp path,
  bak-ne-tmp path,
  str_eq_symm (tmp path) (bak path) ∙ bak-ne-tmp path,
)
