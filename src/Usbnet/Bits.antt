-- ===== src/Usbnet/Bits.antt =====
-- The bits of the results of `|`, `&` and `^`, for the registers of cmd/milkv-usbnet/main.go.
use native.Mathlib.Nat.{pow-suc, one-le-pow}
use Prim.Native.Nat.{
  min, max, differ, digits, bit_or, bit_and, bit_xor, bit_or-bitwise, bit_and-bitwise,
  bit_xor-bitwise,
}
use gokrazy_router.Prelude.{
  ℕ, zero, suc, ◌+◌, ◌*◌, ◌/◌, ◌%◌, ◌^◌, ◌≤◌, ◌<◌, ◌≡◌, refl, arith, ◌==◌, if◌then◌else◌,
}

-- bit `j` of a number
unfoldable pub bit : ℕ → ℕ → ℕ
bit a zero = a % 2
bit a (suc j) = bit (a / 2) j

pub bit-lt-two : (a j : ℕ) → bit a j < 2
unfolding bit
bit-lt-two a zero = omega arith
bit-lt-two a (suc j) = bit-lt-two (a / 2) j

bit-zero : (j : ℕ) → bit 0 j ≡ 0
unfolding bit
bit-zero zero = refl
bit-zero (suc j) = bit-zero j

differ-zero : (y : ℕ) → y < 2 → y ≡ differ 0 y
differ-zero y h = ground arith

differ-lt-two : (x y : ℕ) → x < 2 → y < 2 → differ x y < 2
differ-lt-two zero y p q = q
differ-lt-two (suc zero) zero p q = omega arith
differ-lt-two (suc zero) (suc y) p q = omega arith
differ-lt-two (suc (suc x)) y p q = absurd (omega arith)

-- an operation on binary digits acts on each bit
module _ (z : ℕ → ℕ) (f : ℕ → ℕ → ℕ) (zeros : (b j : ℕ) → bit (z b) j ≡ f 0 (bit b j))
    (small : (x y : ℕ) → x < 2 → y < 2 → f x y < 2) where
  bit-digits : (n a b j : ℕ) → a ≤ n → bit (digits z f n a b) j ≡ f (bit a j) (bit b j)
  unfolding bit
  bit-digits zero zero b j h = rw bit-zero (zeros b j)
  bit-digits zero (suc a) b j h = absurd (omega arith)
  bit-digits (suc n) zero b j h = rw bit-zero (zeros b j)
  bit-digits (suc n) (suc a) b zero h =
      omega (arith, small (suc a % 2) (b % 2) (omega arith) (omega arith))
  bit-digits (suc n) (suc a) b (suc j) h =
      let upper : (digits z f n (suc a / 2) (b / 2) * 2 + f (suc a % 2) (b % 2)) / 2
          ≡ digits z f n (suc a / 2) (b / 2) =
        omega (arith, small (suc a % 2) (b % 2) (omega arith) (omega arith)) in
      rw upper (bit-digits n (suc a / 2) (b / 2) j (omega arith))

pub bit-bit_or : (a b j : ℕ) → bit (bit_or a b) j ≡ max (bit a j) (bit b j)
bit-bit_or a b j =
    simp bit_or-bitwise
      (bit-digits (λ y. y) max (λ c i. omega arith) (λ x y p q. omega arith) a a b j (omega arith))

pub bit-bit_and : (a b j : ℕ) → bit (bit_and a b) j ≡ min (bit a j) (bit b j)
bit-bit_and a b j = simp bit_and-bitwise (
    bit-digits (λ y. 0) min (λ c i. omega (arith, bit-zero i)) (λ x y p q. omega arith) a a b j
      (omega arith))

pub bit-bit_xor : (a b j : ℕ) → bit (bit_xor a b) j ≡ differ (bit a j) (bit b j)
bit-bit_xor a b j = simp bit_xor-bitwise (
    bit-digits (λ y. y) differ (λ c i. differ-zero (bit c i) (bit-lt-two c i)) differ-lt-two a a b j
      (omega arith))

-- the numbers of one bit
pub bit-pow : (k j : ℕ) → bit (2 ^ k) j ≡ (if k == j then 1 else 0)
unfolding bit
bit-pow zero zero = refl
bit-pow zero (suc j) = ground (arith, bit-zero j)
bit-pow (suc k) zero = grind (arith, pow-suc 2 k)
bit-pow (suc k) (suc j) =
    let half : 2 ^ suc k / 2 ≡ 2 ^ k = omega (arith, pow-suc 2 k) in
    rw half (ground (arith, bit-pow k j))

pub pow-lt-pow_right : (k n : ℕ) → k < n → 2 ^ k < 2 ^ n
pow-lt-pow_right k zero h = absurd (omega arith)
pow-lt-pow_right zero (suc n) h = omega (arith, pow-suc 2 n, one-le-pow n 2)
pow-lt-pow_right (suc k) (suc n) h =
    omega (arith, pow-suc 2 k, pow-suc 2 n, pow-lt-pow_right k n (omega arith))
