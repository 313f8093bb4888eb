-- ===== src/Prelude/Int.antt =====
-- Signed integers, as far as the program stores and reads them.
use Prim.Native.Nat.{ℕ, ◌^◌, ◌<◌}

-- `negsuc n` is -(n + 1).
pub data ℤ : Type 0 where
  pos : ℕ → ℤ
  negsuc : ℕ → ℤ

-- The values of an `int32_t`.
abbrev pub IsS32 : ℤ → Type 0
IsS32 (pos n) = n < 2 ^ 31
IsS32 (negsuc n) = n < 2 ^ 31
