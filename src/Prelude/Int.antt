-- ===== src/Prelude/Int.antt =====
-- Signed return values over the native numbers, under the library's names.
use Prim.Native.Nat.{ℕ}

-- `negsuc n` is -(n + 1).
pub data ℤ : Type 0 where
  pos : ℕ → ℤ
  negsuc : ℕ → ℤ

-- The -1 that a failed call returns.
abbrev pub minus_one : ℤ
minus_one = negsuc 0
