-- ===== src/Base/Int.antt =====
-- Signed integers of any size (`big.Int`) over the native numbers.
use Prim.Native.Nat.{ℕ, suc, ◌+◌, ◌-◌, ◌*◌, ◌/◌}
use mathlib.Core.Bool.{Bool, true, false}
use mathlib.Core.Path.{◌≡◌}
use native.Mathlib.Omega.{arith}
use samanager_backend.Base.Tests.{◌==◌, leb, if◌then◌else◌}

-- `negsuc n` is -(n + 1).
pub data ℤ : Type 0 where
  pos : ℕ → ℤ
  negsuc : ℕ → ℤ

-- `big.Int.Bytes` and `SetBytes` read and build magnitudes.
abbrev pub abs : ℤ → ℕ
abs (pos n) = n
abs (negsuc n) = suc n

abbrev pub eq_ℤ : ℤ → ℤ → Bool
eq_ℤ (pos m) (pos n) = m == n
eq_ℤ (negsuc m) (negsuc n) = m == n
eq_ℤ (pos m) (negsuc n) = false
eq_ℤ (negsuc m) (pos n) = false

pub eq_ℤ-refl : (x : ℤ) → eq_ℤ x x ≡ true
eq_ℤ-refl (pos n) = ground arith
eq_ℤ-refl (negsuc n) = ground arith

pub eq_of_eq_ℤ : (x y : ℤ) → eq_ℤ x y ≡ true → x ≡ y
eq_of_eq_ℤ (pos m) (pos n) h = ground arith
eq_of_eq_ℤ (negsuc m) (negsuc n) h = ground arith
eq_of_eq_ℤ (pos m) (negsuc n) h = ground arith
eq_of_eq_ℤ (negsuc m) (pos n) h = ground arith

-- `m - n` as an integer.
abbrev pub sub_ℕ : ℕ → ℕ → ℤ
sub_ℕ m n = if leb n m then pos (m - n) else negsuc (n - m - 1)

-- `big.Int.Add`, and `big.Int.Div` (Euclidean) after `Mul` by natural numbers.
infixl 6 ◌+ℤ◌
abbrev pub ◌+ℤ◌ : ℤ → ℤ → ℤ
pos m +ℤ pos n = pos (m + n)
pos m +ℤ negsuc n = sub_ℕ m (suc n)
negsuc m +ℤ pos n = sub_ℕ n (suc m)
negsuc m +ℤ negsuc n = negsuc (suc (m + n))

abbrev pub mul_div : ℤ → ℕ → ℕ → ℤ
mul_div (pos n) by over = pos (n * by / over)
mul_div (negsuc n) by over = negsuc ((suc n * by + over - 1) / over - 1)
