-- ===== src/Base/Strings.antt =====
-- C strings as the list of their bytes, without the final NUL, and the functions of string.h that
-- the program calls.
use Prim.Native.Nat.{ℕ, zero, suc, ◌+◌, ◌-◌}
use Prim.Native.Char.{code}
use Prim.Native.String.{String}
use mathlib.Core.Path.{◌≡◌, refl}
use mathlib.Core.Logic.{◌↔◌}
use mathlib.Core.Bool.{Bool, true, false, ◌&&◌, ◌||◌}
use mathlib.Core.Option.{Option, none, some}
use mathlib.Core.List.{List, [], ◌∷◌, ◌++◌}
use native.Mathlib.Omega.{arith}
use lang_os_distributed_file.Base.Tests.{ltb, ◌==◌, if◌then◌else◌}
use lang_os_distributed_file.Base.Lists.{length, take, replicate}
use lang_os_distributed_file.Base.Outcomes.{Run, ok, fault, buffer_overflow}

abbrev pub Text : Type 0
Text = List ℕ

-- A string literal.
abbrev pub lit : String → Text
lit String.[] = []
lit (String.◌∷◌ c s) = code c ∷ lit s

-- strcmp(a, b) == 0
unfoldable pub str_eq : Text → Text → Bool
str_eq [] [] = true
str_eq (a ∷ s) (b ∷ t) = a == b && str_eq s t
str_eq _ _ = false

pub str_eq_iff : (s t : Text) → (str_eq s t ≡ true) ↔ (s ≡ t)
unfolding str_eq
str_eq_iff [] [] = ground arith
str_eq_iff [] (b ∷ t) = ground arith
str_eq_iff (a ∷ s) [] = ground arith
str_eq_iff (a ∷ s) (b ∷ t) = ground (arith, str_eq_iff s t)

pub str_eq_refl : (s : Text) → str_eq s s ≡ true
str_eq_refl s = (str_eq_iff s s).1 refl

-- strncmp(s, p, strlen(p)) == 0
unfoldable pub starts_with : Text → Text → Bool
starts_with s [] = true
starts_with [] (b ∷ p) = false
starts_with (a ∷ s) (b ∷ p) = a == b && starts_with s p

-- strstr(s, p): the bytes before the first occurrence of `p`.
unfoldable pub before : Text → Text → Option Text
unfolding starts_with
before p [] = if starts_with [] p then some [] else none
before p (c ∷ s) =
    let rest = before p s in
    if starts_with (c ∷ s) p then some [] else elim rest [ none ↦ none | some b ↦ some (c ∷ b) ]

-- strstr(s, p) != NULL
unfoldable pub contains : Text → Text → Bool
unfolding before
contains s p = elim (before p s) [ none ↦ false | some _ ↦ true ]

-- strcpy into a buffer of `size` bytes: with the NUL it must fit.
unfoldable pub strcpy : ℕ → Text → Run Text
strcpy size s = if ltb (length s) size then ok s else fault buffer_overflow

-- strcat onto the string `buf` in a buffer of `size` bytes.
unfoldable pub strcat : ℕ → Text → Text → Run Text
strcat size buf s = if ltb (length (buf ++ s)) size then ok (buf ++ s) else fault buffer_overflow

-- strncpy(buf, s, n) followed by buf[n] = 0
abbrev pub strncpy : ℕ → Text → Text
strncpy n s = take n s

-- snprintf(buf, size, "%s", s) for size > 0
abbrev pub snprintf : ℕ → Text → Text
snprintf size s = take (size - 1) s

-- `len += snprintf(buf + len, sizeof(buf) - len, "%s", s)`, with the string in the buffer and the
-- number `len`, which counts what was cut off too. Past the size the subtraction wraps.
unfoldable pub snprintf_at : ℕ → Text × ℕ → Text → Run (Text × ℕ)
snprintf_at size (buf, len) s =
    if ltb size len
    then fault buffer_overflow
    else ok (buf ++ take (size - len - 1) s, len + length s)

-- A set of bytes, as `strtok` and `strpbrk` take it.
unfoldable pub member : ℕ → Text → Bool
member c [] = false
member c (d ∷ ds) = c == d || member c ds

unfoldable pub skip_delimiters : Text → Text → Text
unfolding member
skip_delimiters ds [] = []
skip_delimiters ds (c ∷ s) = let rest = skip_delimiters ds s in if member c ds then rest else c ∷ s

-- The bytes before the first delimiter, and those after it.
unfoldable pub split_at : Text → Text → Text × Text
unfolding member
split_at ds [] = ([], [])
split_at ds (c ∷ s) =
    let rest = split_at ds s in if member c ds then ([], s) else (c ∷ rest.0, rest.1)

unfoldable pub token_of : Text × Text → Option Text × Text
token_of ([], rest) = (none, rest)
token_of (c ∷ token, rest) = (some (c ∷ token), rest)

-- strtok(s, ds), or strtok(NULL, ds) where `s` is what the last call left: the token, if there is
-- one, and what the next call with NULL goes on from.
unfoldable pub strtok : Text → Text → Option Text × Text
unfolding skip_delimiters split_at token_of
strtok ds s = token_of (split_at ds (skip_delimiters ds s))

-- fgets with room for `n` bytes, and the newline cut off: the line and what is left of the file.
unfoldable pub fgets : ℕ → Text → Text × Text
fgets zero s = ([], s)
fgets (suc n) [] = ([], [])
fgets (suc n) (c ∷ s) = let rest = fgets n s in if c == 10 then ([], s) else (c ∷ rest.0, rest.1)

-- `%-ns`
unfoldable pub pad_right : ℕ → Text → Text
pad_right n s = s ++ replicate (n - length s) 32

marker_found : before (lit "__END__") (lit "ab__END__\n") ≡ some (lit "ab")
unfolding before
marker_found = refl

tokens : strtok (lit ";\n") (lit ";READ;a.txt\n") ≡ (some (lit "READ"), lit "a.txt\n")
unfolding strtok
tokens = refl

pub str_eq_symm : (s t : Text) → str_eq s t ≡ str_eq t s
str_eq_symm s t = ground (arith, str_eq_iff s t, str_eq_iff t s)

-- A common prefix plays no part in a comparison.
pub str_eq-append : (p s t : Text) → str_eq (p ++ s) (p ++ t) ≡ str_eq s t
unfolding str_eq
str_eq-append [] s t = refl
str_eq-append (c ∷ p) s t = ground (arith, str_eq-append p s t)
