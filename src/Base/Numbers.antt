-- ===== src/Base/Numbers.antt =====
-- `int` as an integer, `%d` and `atoi`. The program computes with no `int` but counters, so its
-- range plays no part; `atoi` is undefined past it.
use Prim.Native.Nat.{ℕ, zero, suc, ◌+◌, ◌-◌, ◌*◌, ◌/◌, ◌%◌}
use mathlib.Core.Path.{◌≡◌, refl}
use mathlib.Core.Bool.{Bool, ◌&&◌, ◌||◌}
use mathlib.Core.List.{[], ◌∷◌}
use lang_os_distributed_file.Base.Tests.{ltb, leb, ◌==◌, if◌then◌else◌}
use lang_os_distributed_file.Base.Strings.{Text, lit}

-- `negsuc n` is -(n + 1).
pub data ℤ : Type 0 where
  pos : ℕ → ℤ
  negsuc : ℕ → ℤ

-- -n
abbrev pub negate : ℕ → ℤ
negate zero = pos 0
negate (suc n) = negsuc n

-- a == b on `int`
unfoldable pub int_eq : ℤ → ℤ → Bool
int_eq (pos a) (pos b) = a == b
int_eq (negsuc a) (negsuc b) = a == b
int_eq _ _ = Bool.false

-- The digits of `n` in front of `acc`; `fuel` bounds their number.
unfoldable pub decimal : ℕ → ℕ → Text → Text
decimal zero n acc = acc
decimal (suc fuel) n acc =
    let digit = 48 + n % 10 in
    let rest = decimal fuel (n / 10) (digit ∷ acc) in if ltb n 10 then digit ∷ acc else rest

-- `%d`
unfoldable pub print_int : ℤ → Text
print_int (pos n) = decimal (suc n) n []
print_int (negsuc n) = b'-' ∷ decimal (suc (suc n)) (suc n) []

abbrev pub is_digit : ℕ → Bool
is_digit c = leb 48 c && leb c 57

-- isspace of the C locale
abbrev pub is_space : ℕ → Bool
is_space c = c == 32 || (leb 9 c && leb c 13)

unfoldable pub digits : ℕ → Text → ℕ
digits n [] = n
digits n (c ∷ s) = let rest = digits (n * 10 + (c - 48)) s in if is_digit c then rest else n

unfoldable pub signed : Text → ℤ
signed [] = pos 0
signed (c ∷ s) =
    if c == b'-'
    then negate (digits 0 s)
    else if c == b'+'
    then pos (digits 0 s)
    else pos (digits 0 (c ∷ s))

unfoldable pub skip_space : Text → Text
skip_space [] = []
skip_space (c ∷ s) = let rest = skip_space s in if is_space c then rest else c ∷ s

unfoldable pub atoi : Text → ℤ
atoi s = signed (skip_space s)

print_port : print_int (pos 9001) ≡ lit "9001"
unfolding print_int decimal
print_port = refl

atoi_samples :
    (atoi (lit " 42x") ≡ pos 42) × (atoi (lit "-7") ≡ negsuc 6) × (atoi (lit "x") ≡ pos 0)
unfolding atoi signed digits skip_space
atoi_samples = (refl, refl, refl)
