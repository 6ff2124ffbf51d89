-- ===== src/Prelude/Integers.antt =====
-- Integers, for arguments that may lie below zero.
use Prim.Native.Nat.{ℕ}
use mathlib.Core.Bool.{Bool, true, false}

pub data ℤ : Type 0 where
  pos : ℕ → ℤ
  -- `negsuc n` is -(n + 1)
  negsuc : ℕ → ℤ

-- `i < 0`
abbrev pub is_negative : ℤ → Bool
is_negative (pos n) = false
is_negative (negsuc n) = true

-- `max(0, i)`
abbrev pub natural : ℤ → ℕ
natural (pos n) = n
natural (negsuc n) = 0
