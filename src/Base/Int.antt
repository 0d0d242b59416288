-- ===== src/Base/Int.antt =====
-- Go's `int`, where a program tests its sign. `negsuc n` is -(n + 1).
use Prim.Native.Nat.{ℕ}

pub data ℤ : Type 0 where
  pos : ℕ → ℤ
  negsuc : ℕ → ℤ
