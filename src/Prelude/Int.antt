-- ===== src/Prelude/Int.antt =====
-- Signed integers over the native numbers, as a sign and a magnitude.
use amrc_connectivity_stack.Prelude.Tests.{ltb, if◌then◌else◌}
use Prim.Native.Nat.{ℕ, suc, ◌-◌, ◌+◌}

-- `negsuc n` is -(n + 1).
pub data ℤ : Type 0 where
  pos : ℕ → ℤ
  negsuc : ℕ → ℤ

-- The bit pattern of an integer in two's complement, with `m` patterns, and the integer of a
-- pattern.
abbrev pub to_pattern : ℕ → ℤ → ℕ
to_pattern m (pos n) = n
to_pattern m (negsuc n) = m - suc n

abbrev pub from_pattern : ℕ → ℕ → ℤ
from_pattern m p = if ltb (p + p) m then pos p else negsuc (m - suc p)
