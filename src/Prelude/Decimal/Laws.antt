-- ===== src/Prelude/Decimal/Laws.antt =====
-- Decimal numerals are read back as the number they were printed from, and they are short.
use Prim.Native.Nat.{ℕ, zero, suc, ◌+◌, ◌*◌, ◌/◌, ◌%◌, ◌^◌, ◌≤◌, ◌<◌}
use mathlib.Core.Path.{◌≡◌, ap, ◌∙◌}
use mathlib.Core.Logic.{inl, inr}
use mathlib.Core.Option.{some}
use mathlib.Core.List.{[], ◌∷◌}
use native.Mathlib.Omega.{arith}
use gokrazy_router.Prelude.Strings.{Text}
use gokrazy_router.Prelude.Lists.{All, length}
use gokrazy_router.Prelude.Tests.{ltb, Bool-cases, ltb→lt, lt→ltb}
use gokrazy_router.Prelude.Decimal.{digits_onto, print_nat, read_digits}

-- reading one digit
read_digits-digit :
    (acc d : ℕ) (rest : Text)
    → d < 10
    → read_digits acc ((b'0' + d) ∷ rest) ≡ read_digits (acc * 10 + d) rest
unfolding read_digits
read_digits-digit acc d rest h = ground arith

read_digits-digits_onto :
    (fuel n : ℕ) (rest : Text)
    → n < fuel
    → read_digits 0 (digits_onto fuel n rest) ≡ read_digits n rest
unfolding digits_onto
read_digits-digits_onto zero n rest h = absurd (omega arith)
read_digits-digits_onto (suc fuel) n rest h = elim (Bool-cases (ltb n 10)) [
  | inl lt ↦ rw (lt) (
      read_digits-digit 0 (n % 10) rest (omega arith)
      ∙ ap (λ k. read_digits k rest) (omega (arith, ltb→lt n 10 lt)))
  | inr ge ↦ rw (ge) (
      read_digits-digits_onto fuel (n / 10) ((b'0' + n % 10) ∷ rest) (ground arith)
      ∙ read_digits-digit (n / 10) (n % 10) rest (omega arith)
      ∙ ap (λ k. read_digits k rest) (omega arith))
]

-- A printed number is read back.
pub read_digits-print_nat : (n : ℕ) → read_digits 0 (print_nat n) ≡ some n
unfolding print_nat read_digits
read_digits-print_nat n = read_digits-digits_onto (suc n) n [] (omega arith)

-- Two numbers with the same numeral are the same.
pub print_nat_inj : (m n : ℕ) → print_nat m ≡ print_nat n → m ≡ n
print_nat_inj m n h = cc (read_digits-print_nat m, read_digits-print_nat n, ap (read_digits 0) h)

abbrev pub IsNumeral : ℕ → Type 0
IsNumeral c = (b'0' ≤ c) × (c ≤ b'9')

digits_onto-All :
    (fuel n : ℕ) (rest : Text) → All IsNumeral rest → All IsNumeral (digits_onto fuel n rest)
unfolding digits_onto
digits_onto-All zero n rest h = h
digits_onto-All (suc fuel) n rest h = elim (Bool-cases (ltb n 10)) [
  | inl lt ↦ rw (lt) ((omega arith, omega arith), h)
  | inr ge ↦ rw (ge) (digits_onto-All fuel (n / 10) _ ((omega arith, omega arith), h))
]

-- A numeral has digits only.
pub print_nat-All : (n : ℕ) → All IsNumeral (print_nat n)
unfolding print_nat
print_nat-All n = digits_onto-All (suc n) n [] tt

length-digits_onto :
    (fuel width n : ℕ) (rest : Text)
    → n < 10 ^ suc width
    → length (digits_onto fuel n rest) ≤ suc width + length rest
unfolding digits_onto
length-digits_onto zero width n rest h = omega arith
length-digits_onto (suc fuel) zero n rest h = rw (lt→ltb n 10 h) omega arith
length-digits_onto (suc fuel) (suc width) n rest h = elim (Bool-cases (ltb n 10)) [
  | inl lt ↦ rw (lt) omega arith
  | inr ge ↦
      rw (ge) omega
        (arith, length-digits_onto fuel width (n / 10) ((b'0' + n % 10) ∷ rest) (omega arith))
]

-- A number below a power of ten has at most as many digits as its exponent.
pub length-print_nat : (width n : ℕ) → n < 10 ^ suc width → length (print_nat n) ≤ suc width
unfolding print_nat
length-print_nat width n h = omega (arith, length-digits_onto (suc n) width n [] h)
