-- ===== src/Prelude/Ints.antt =====
-- Integers over the native numbers, for the signed durations of Go.
use Prim.Native.Nat.{ℕ}

pub data ℤ : Type 0 where
  pos : ℕ → ℤ
  negsuc : ℕ → ℤ
