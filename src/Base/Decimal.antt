-- ===== src/Base/Decimal.antt =====
-- What is printed with `%d` is read back by `atoi`.
use Prim.Native.Nat.{ℕ, zero, suc, ◌+◌, ◌/◌, ◌%◌, ◌<◌}
use mathlib.Core.Path.{◌≡◌, refl, ap, ◌∙◌}
use mathlib.Core.Logic.{◌≢◌}
use mathlib.Core.Bool.{Bool, true, false}
use mathlib.Core.List.{[], ◌∷◌}
use native.Mathlib.Omega.{arith}
use lang_os_distributed_file.Base.Strings.{Text, member, lit}
use lang_os_distributed_file.Base.Tokens.{none_of}
use lang_os_distributed_file.Base.Numbers.{
  ℤ, pos, negsuc, negate, decimal, digits, signed, skip_space, print_int, atoi, is_digit,
}

digits-decimal : (fuel n : ℕ) (acc : Text) → n < fuel → digits 0 (decimal fuel n acc) ≡ digits n acc
unfolding decimal digits
digits-decimal zero n acc h = absurd (omega arith)
digits-decimal (suc fuel) n acc h =
    ground (arith, digits-decimal fuel (n / 10) ((48 + n % 10) ∷ acc))

-- The first byte is a digit.
starts_digit : Text → Bool
starts_digit [] = false
starts_digit (c ∷ s) = is_digit c

decimal-starts_digit :
    (fuel n : ℕ) (acc : Text) → n < fuel → starts_digit (decimal fuel n acc) ≡ true
unfolding decimal starts_digit
decimal-starts_digit zero n acc h = absurd (omega arith)
decimal-starts_digit (suc fuel) n acc h =
    ground (arith, decimal-starts_digit fuel (n / 10) ((48 + n % 10) ∷ acc))

atoi-digits : (s : Text) → starts_digit s ≡ true → atoi s ≡ pos (digits 0 s)
unfolding atoi signed skip_space starts_digit
atoi-digits [] h = cc
atoi-digits (c ∷ s) h = ground (arith, h)

atoi-minus : (s : Text) → atoi (b'-' ∷ s) ≡ negate (digits 0 s)
unfolding atoi signed skip_space
atoi-minus s = refl

-- `atoi` undoes `%d`.
pub atoi-print_int : (z : ℤ) → atoi (print_int z) ≡ z
unfolding print_int digits
atoi-print_int (pos n) =
    atoi-digits (decimal (suc n) n []) (decimal-starts_digit (suc n) n [] (omega arith))
    ∙ ap pos (digits-decimal (suc n) n [] (omega arith))
atoi-print_int (negsuc n) =
    atoi-minus (decimal (suc (suc n)) (suc n) [])
    ∙ ap negate (digits-decimal (suc (suc n)) (suc n) [] (omega arith))

-- What `%d` prints is not empty and has neither a semicolon nor a newline in it.
decimal-plain :
    (fuel n : ℕ) (acc : Text)
    → none_of (lit ";\n") acc ≡ true
    → none_of (lit ";\n") (decimal fuel n acc) ≡ true
unfolding decimal none_of member
decimal-plain zero n acc h = h
decimal-plain (suc fuel) n acc h =
    ground (arith, h, decimal-plain fuel (n / 10) ((48 + n % 10) ∷ acc))

pub print_int-plain : (z : ℤ) → none_of (lit ";\n") (print_int z) ≡ true
unfolding print_int none_of member
print_int-plain (pos n) = decimal-plain (suc n) n [] refl
print_int-plain (negsuc n) = ground (arith, decimal-plain (suc (suc n)) (suc n) [] refl)

pub print_int-given : (z : ℤ) → print_int z ≢ []
unfolding print_int starts_digit
print_int-given (pos n) h =
    absurd (ground (arith, ap starts_digit h, decimal-starts_digit (suc n) n [] (omega arith)))
print_int-given (negsuc n) h = cc
