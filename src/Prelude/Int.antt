-- ===== src/Prelude/Int.antt =====
-- The C `int` values that the program's functions return and test: signed, and far from overflow.
use mathlib.Core.Bool.{Bool, true, false}
use zam_tok.Prelude.Tests.{◌==◌}
use Prim.Native.Nat.{ℕ}

-- `negsuc n` is -(n + 1).
pub data ℤ : Type 0 where
  pos : ℕ → ℤ
  negsuc : ℕ → ℤ

-- `x < 0`
abbrev pub is_neg : ℤ → Bool
is_neg (pos n) = false
is_neg (negsuc n) = true

-- `x == n`, for a constant n that is not negative
abbrev pub is_nat : ℤ → ℕ → Bool
is_nat (pos n) k = n == k
is_nat (negsuc n) k = false

-- `x > 0`
abbrev pub is_pos : ℤ → Bool
is_pos (pos n) = elim (n == 0) [ true ↦ false | false ↦ true ]
is_pos (negsuc n) = false
