-- ===== src/Prelude/Int.antt =====
-- Go's `int`: an integer, with its Boolean tests. `negsuc n` is -(n + 1).
use Prim.Native.Nat.{ℕ}
use mathlib.Core.Path.{◌≡◌}
use mathlib.Core.Logic.{◌↔◌, ◌⊎◌}
use mathlib.Core.Bool.{Bool, true, false}
use native.Mathlib.Omega.{arith}
use gokrazy_router.Prelude.Tests.{ltb, ◌==◌}

pub data ℤ : Type 0 where
  pos : ℕ → ℤ
  negsuc : ℕ → ℤ

unfoldable pub int_eq : ℤ → ℤ → Bool
int_eq (pos a) (pos b) = a == b
int_eq (negsuc a) (negsuc b) = a == b
int_eq _ _ = false

pub int_eq_iff : (a b : ℤ) → (int_eq a b ≡ true) ↔ (a ≡ b)
unfolding int_eq
int_eq_iff (pos a) b = ground arith
int_eq_iff (negsuc a) b = ground arith

-- a < b
unfoldable pub int_lt : ℤ → ℤ → Bool
int_lt (pos a) (pos b) = ltb a b
int_lt (pos a) (negsuc b) = false
int_lt (negsuc a) (pos b) = true
int_lt (negsuc a) (negsuc b) = ltb b a

pub int_lt_trans : (a b c : ℤ) → int_lt a b ≡ true → int_lt b c ≡ true → int_lt a c ≡ true
unfolding int_lt
int_lt_trans (pos a) b c h k = ground arith
int_lt_trans (negsuc a) b c h k = ground arith

-- not less and not equal: greater
pub int_lt_total : (a b : ℤ) → int_lt a b ≡ false → (a ≡ b) ⊎ (int_lt b a ≡ true)
unfolding int_lt
int_lt_total (pos a) b h = ground arith
int_lt_total (negsuc a) b h = ground arith

pub int_lt_asymm : (a b : ℤ) → int_lt a b ≡ true → int_lt b a ≡ false
unfolding int_lt
int_lt_asymm (pos a) b h = ground arith
int_lt_asymm (negsuc a) b h = ground arith
