-- ===== src/Prelude/Int.antt =====
-- Go's `int` where it only is stored: an integer as a natural number or a negative one.
use Prim.Native.Nat.{ℕ}

-- `negsuc n` is -(n + 1).
pub data ℤ : Type 0 where
  pos : ℕ → ℤ
  negsuc : ℕ → ℤ
