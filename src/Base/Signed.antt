-- ===== src/Base/Signed.antt =====
-- Signed integers that the code compares with zero or passes on.
use Prim.Native.Nat.{ℕ, zero, suc}
use mathlib.Core.Bool.{Bool, true, false}

-- `negsuc n` is -(n + 1).
pub data ℤ : Type 0 where
  pos : ℕ → ℤ
  negsuc : ℕ → ℤ

-- x <= 0
abbrev pub le_zero : ℤ → Bool
le_zero (pos zero) = true
le_zero (pos (suc n)) = false
le_zero (negsuc n) = true

-- x < 0
abbrev pub lt_zero : ℤ → Bool
lt_zero (pos n) = false
lt_zero (negsuc n) = true

-- x.max(0)
abbrev pub pos_part : ℤ → ℕ
pos_part (pos n) = n
pos_part (negsuc n) = 0
