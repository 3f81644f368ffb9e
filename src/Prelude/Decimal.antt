-- ===== src/Prelude/Decimal.antt =====
-- Decimal numerals, as `%d` and `strconv.Itoa` print them.
pub mod Laws
use Prim.Native.Nat.{ℕ, zero, suc, ◌+◌, ◌-◌, ◌*◌, ◌/◌, ◌%◌, ◌^◌}
use mathlib.Core.Bool.{Bool, ◌&&◌}
use mathlib.Core.Option
use mathlib.Core.Option.{Option, none, some}
use mathlib.Core.List.{[], ◌∷◌}
use gokrazy_router.Prelude.Int.{ℤ, pos, negsuc}
use gokrazy_router.Prelude.Strings.{Text}
use gokrazy_router.Prelude.Tests.{ltb, leb, ◌==◌, if◌then◌else◌}

-- the digits of `n`, before `rest`; a number has no more digits than it has units, and one
unfoldable pub digits_onto : ℕ → ℕ → Text → Text
digits_onto zero n rest = rest
digits_onto (suc fuel) n rest =
    let digit = b'0' + n % 10 in
    let more = digits_onto fuel (n / 10) (digit ∷ rest) in if ltb n 10 then digit ∷ rest else more

unfoldable pub print_nat : ℕ → Text
print_nat n = digits_onto (suc n) n []

unfoldable pub print_int : ℤ → Text
print_int (pos n) = print_nat n
print_int (negsuc n) = b'-' ∷ print_nat (suc n)

abbrev is_digit : ℕ → Bool
is_digit c = leb b'0' c && leb c b'9'

-- the number that digits write, on top of a number read before
unfoldable pub read_digits : ℕ → Text → Option ℕ
read_digits acc [] = some acc
read_digits acc (c ∷ cs) =
    let rest = read_digits (acc * 10 + (c - b'0')) cs in if is_digit c then rest else none

-- the magnitude of a numeral of an `int` of 64 bits; one digit at least
unfoldable pub read_magnitude : ℕ → Text → Option ℕ
read_magnitude limit [] = none
read_magnitude limit (c ∷ cs) = elim (read_digits 0 (c ∷ cs)) [
  | none ↦ none
  | some n ↦ if leb n limit then some n else none
]

abbrev pub negated : ℕ → ℤ
negated zero = pos 0
negated (suc n) = negsuc n

-- `strconv.Atoi`
unfoldable pub atoi : Text → Option ℤ
atoi [] = none
atoi (c ∷ cs) =
    if c == b'-'
    then Option.map negated (read_magnitude (2 ^ 63) cs)
    else if c == b'+'
    then Option.map pos (read_magnitude (2 ^ 63 - 1) cs)
    else Option.map pos (read_magnitude (2 ^ 63 - 1) (c ∷ cs))
