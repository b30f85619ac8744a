-- ===== src/Common/Int.antt =====
-- Signed integers over the native numbers: exit statuses, which are negative after a signal.
use winecx_gptk.Common.{ℕ, Bool, false, ◌==◌}

-- `negsuc n` is -(n + 1)
pub data ℤ : Type 0 where
  pos : ℕ → ℤ
  negsuc : ℕ → ℤ

abbrev pub is_zero : ℤ → Bool
is_zero (pos n) = n == 0
is_zero (negsuc _) = false
