-- ===== src/Common/Integers.antt =====
-- Python's integers, where a sign is tested. `negsuc n` is -(n + 1).
use Prim.Native.Nat.{ℕ}

pub data ℤ : Type 0 where
  pos : ℕ → ℤ
  negsuc : ℕ → ℤ
