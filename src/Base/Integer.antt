-- ===== src/Base/Integer.antt =====
-- Go's signed integers, as values that are stored and compared. `negsuc n` is -(n + 1).
use Prim.Native.Nat.{ℕ}

pub data ℤ : Type 0 where
  pos : ℕ → ℤ
  negsuc : ℕ → ℤ
