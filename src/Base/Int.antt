-- ===== src/Base/Int.antt =====
-- Go's `int` where the program only stores and passes it on. `negsuc n` is -(n + 1).
use mandau.Base.{ℕ}

pub data ℤ : Type 0 where
  pos : ℕ → ℤ
  negsuc : ℕ → ℤ
