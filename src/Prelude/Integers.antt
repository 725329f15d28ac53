-- ===== src/Prelude/Integers.antt =====
-- The integers of C, `int` and `long`, where a program does not compute with them beyond their range.
use Prim.Native.Nat.{ℕ}

pub data ℤ : Type 0 where
  pos negsuc : ℕ → ℤ
