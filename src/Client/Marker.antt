-- ===== src/Client/Marker.antt =====
-- How the client finds the end of what a Storage Server sends.
use mathlib.Core.List.{append_assoc}
use lang_os_distributed_file.Base.{
  ◌<◌, none, some, Bool, false, [], ◌∷◌, ◌++◌, List, Text, ok, blocked, ◌≡◌, refl, arith, length,
  before,
}
use lang_os_distributed_file.Client.Direct.{ss_end, read_from_ss}

-- Portions without the marker, none of them empty.
pub record IsSilent (chunk : Text) : Type 0 where
  pub nonempty : 0 < length chunk
  pub no_marker : before ss_end chunk ≡ none

abbrev pub AreSilent : List Text → Type 0
AreSilent [] = Unit
AreSilent (chunk ∷ chunks) = IsSilent chunk × AreSilent chunks

abbrev pub joined : List Text → Text
joined [] = []
joined (chunk ∷ chunks) = chunk ++ joined chunks

-- If the marker arrives whole inside one portion, the client prints every byte that arrived before it
-- and nothing else, whatever arrives later.
pub read_prints :
    (closes : Bool) (chunks later : List Text) (last body : Text)
    → AreSilent chunks
    → 0 < length last
    → before ss_end last ≡ some body
    → read_from_ss closes (chunks ++ (last ∷ later)) ≡ ok (joined chunks ++ body)
unfolding read_from_ss
read_prints closes [] later last body silent ne found = ground (arith, found)
read_prints closes (chunk ∷ chunks) later last body (s, silent) ne found = ground (
  arith,
  s.nonempty,
  s.no_marker,
  read_prints closes chunks later last body silent ne found,
  append_assoc chunk (joined chunks) body,
)

-- If no portion holds the marker alone, although the portions joined may hold it, and the Storage
-- Server keeps the connection open, the client waits for ever.
pub read_waits : (chunks : List Text) → AreSilent chunks → read_from_ss false chunks ≡ blocked
unfolding read_from_ss
read_waits [] silent = refl
read_waits (chunk ∷ chunks) (s, silent) =
    ground (arith, s.nonempty, s.no_marker, read_waits chunks silent)
