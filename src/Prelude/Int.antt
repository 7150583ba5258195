-- ===== src/Prelude/Int.antt =====
-- Python's `int` where the program bounds one from below: a number that a caller sends may be negative.
use Prim.Native.Nat.{ℕ, max}

pub data ℤ : Type 0 where
  pos : ℕ → ℤ
  negsuc : ℕ → ℤ

-- `max(value, least)`
unfoldable pub at_least : ℕ → ℤ → ℕ
at_least least (pos n) = max n least
at_least least (negsuc n) = least
