-- ===== src/Base/Tokens.antt =====
-- Laws of `strtok` on texts that are made of tokens.
use Prim.Native.Nat.{ℕ}
use mathlib.Core.Path.{◌≡◌, refl}
use mathlib.Core.Logic.{◌≢◌}
use mathlib.Core.Bool.{Bool, true, ◌&&◌, not}
use mathlib.Core.Option.{some}
use mathlib.Core.List.{[], ◌∷◌, ◌++◌}
use native.Mathlib.Omega.{arith}
use lang_os_distributed_file.Base.Strings.{Text, member, split_at, strtok}

-- No byte of the text is a delimiter.
unfoldable pub none_of : Text → Text → Bool
none_of ds [] = true
none_of ds (c ∷ t) = not (member c ds) && none_of ds t

split_at-token :
    (ds t : Text) (d : ℕ) (rest : Text)
    → none_of ds t ≡ true
    → member d ds ≡ true
    → split_at ds (t ++ d ∷ rest) ≡ (t, rest)
unfolding split_at none_of
split_at-token ds [] d rest h m = ground arith
split_at-token ds (c ∷ t) d rest h m = ground (arith, split_at-token ds t d rest)

split_at-last : (ds t : Text) → none_of ds t ≡ true → split_at ds t ≡ (t, [])
unfolding split_at none_of
split_at-last ds [] h = refl
split_at-last ds (c ∷ t) h = ground (arith, split_at-last ds t)

-- A token that a delimiter ends.
pub strtok-token :
    (ds t : Text) (d : ℕ) (rest : Text)
    → none_of ds t ≡ true
    → t ≢ []
    → member d ds ≡ true
    → strtok ds (t ++ d ∷ rest) ≡ (some t, rest)
unfolding strtok none_of
strtok-token ds [] d rest h ne m = absurd (ne refl)
strtok-token ds (c ∷ t) d rest h ne m = ground (arith, split_at-token ds (c ∷ t) d rest)

-- A token at the end of the text.
pub strtok-last : (ds t : Text) → none_of ds t ≡ true → t ≢ [] → strtok ds t ≡ (some t, [])
unfolding strtok none_of
strtok-last ds [] h ne = absurd (ne refl)
strtok-last ds (c ∷ t) h ne = ground (arith, split_at-last ds (c ∷ t))
