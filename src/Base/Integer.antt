-- ===== src/Base/Integer.antt =====
-- A signed `int`, as the integer that it stands for.
use Prim.Native.Nat.{ℕ, ◌<◌}
use mathlib.Core.Path.{◌≡◌}
use mathlib.Core.Logic.{◌↔◌}
use mathlib.Core.Bool.{Bool, true, false}
use native.Mathlib.Omega.{arith}
use ip2unix.Base.Tests.{◌==◌}

-- `negsuc n` is -(n + 1).
pub data ℤ : Type 0 where
  pos : ℕ → ℤ
  negsuc : ℕ → ℤ

-- The values of a 32-bit `int`.
abbrev pub InInt32 : ℤ → Type 0
InInt32 (pos n) = n < 2147483648
InInt32 (negsuc n) = n < 2147483648

unfoldable pub int_eq : ℤ → ℤ → Bool
int_eq (pos n) (pos m) = n == m
int_eq (negsuc n) (negsuc m) = n == m
int_eq _ _ = false

pub int_eq_iff : (a b : ℤ) → (int_eq a b ≡ true) ↔ (a ≡ b)
unfolding int_eq
int_eq_iff (pos n) (pos m) = (λ h. ground arith, λ h. ground arith)
int_eq_iff (pos n) (negsuc m) = (λ h. ground arith, λ h. ground arith)
int_eq_iff (negsuc n) (pos m) = (λ h. ground arith, λ h. ground arith)
int_eq_iff (negsuc n) (negsuc m) = (λ h. ground arith, λ h. ground arith)
