-- ===== src/Prelude/Int.antt =====
-- Python's integers where a value may be negative, under the library's name.
use Prim.Native.Nat.{ℕ}

-- `negsuc n` is -(n + 1).
pub data ℤ : Type 0 where
  pos : ℕ → ℤ
  negsuc : ℕ → ℤ
