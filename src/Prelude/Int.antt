-- ===== src/Prelude/Int.antt =====
-- Python's integers, where the program tests for a negative one.
use Prim.Native.Nat.{ℕ}

-- `negsuc n` is -(n + 1).
pub data ℤ : Type 0 where
  pos : ℕ → ℤ
  negsuc : ℕ → ℤ
