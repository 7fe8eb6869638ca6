-- ===== src/System/Files.antt =====
-- The files of a Storage Server that registers, at the Name Server.
use lang_os_distributed_file.Base.{
  ℕ, ◌<◌, ◌+◌, true, false, [], ◌∷◌, List, Text, lit, ◌≡◌, ◌≢◌, length, str_eq, none_of,
}
use lang_os_distributed_file.Session.{Session}

-- A name that stands for itself in a list of names: not empty, no comma and no newline in it, not
-- one of the two names that every directory has, and short enough for the Name Server.
pub record IsListed (name : Text) : Type 0 where
  pub given : name ≢ []
  pub no_comma : none_of (lit ",") name ≡ true
  pub no_newline : none_of (lit "\n") name ≡ true
  pub here : str_eq name (lit ".") ≡ false
  pub above : str_eq name (lit "..") ≡ false
  pub short : length name < 100

abbrev pub AreListed : List Text → Type 0
AreListed [] = Unit
AreListed (name ∷ names) = IsListed name × AreListed names

-- The bytes that the names take with a comma for each.
unfoldable pub listed_length : List Text → ℕ
listed_length [] = 0
listed_length (name ∷ names) = length name + 1 + listed_length names
