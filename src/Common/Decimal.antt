-- ===== src/Common/Decimal.antt =====
-- strconv.ParseUint, Atoi and Itoa, base 10, on numbers that are not negative.
use Prim.Native.Nat.{ℕ, zero, suc, ◌+◌, ◌-◌, ◌*◌, ◌/◌, ◌%◌}
use Prim.Native.Char.{Char, code}
use Prim.Native.String.{String}
use mathlib.Core.Bool.{Bool, ◌&&◌}
use mathlib.Core.Option.{Option, none, some}
use syrinx.Common.Tests.{if◌then◌else◌, ltb, leb, nat_eq}
use syrinx.Common.Chars.{is_empty}

is_digit : Char → Bool
is_digit c = leb 48 (code c) && leb (code c) 57

read_digits : ℕ → String → Option ℕ
unfolding is_digit
read_digits n String.[] = some n
read_digits n (String.◌∷◌ c s) =
    let rest = read_digits (n * 10 + (code c - 48)) s in if is_digit c then rest else none

below : ℕ → Option ℕ → Option ℕ
below limit none = none
below limit (some n) = if ltb n limit then some n else none

-- Digits alone, at least one, and a number below the limit.
unfoldable pub read_decimal : ℕ → String → Option ℕ
unfolding read_digits below
read_decimal limit s = if is_empty s then none else below limit (read_digits 0 s)

char_at : ℕ → String → Char
char_at n String.[] = "0"
char_at zero (String.◌∷◌ c s) = c
char_at (suc n) (String.◌∷◌ c s) = char_at n s

digits : ℕ → ℕ → String → String
unfolding char_at
digits zero n s = s
digits (suc fuel) n s =
    let longer = String.◌∷◌ (char_at (n % 10) "0123456789") s in
    let rest = digits fuel (n / 10) longer in if nat_eq (n / 10) 0 then longer else rest

-- Enough digits for 64 bits.
unfoldable pub print_decimal : ℕ → String
unfolding digits
print_decimal n = digits 20 n ""
