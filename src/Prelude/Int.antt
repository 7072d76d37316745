-- ===== src/Prelude/Int.antt =====
-- Signed results of C functions: `pos n` is n and `negsuc n` is -(n + 1).
use Prim.Native.Nat.{ℕ, ◌-◌, ◌%◌, ◌^◌}
use lumin.Prelude.Tests.{leb, ltb, if◌then◌else◌}

pub data ℤ : Type 0 where
  pos : ℕ → ℤ
  negsuc : ℕ → ℤ

-- The difference of two numbers.
abbrev pub sub_ℕ : ℕ → ℕ → ℤ
sub_ℕ a b = if leb b a then pos (a - b) else negsuc (b - a - 1)

-- The error code -1.
abbrev pub minus_one : ℤ
minus_one = negsuc 0

-- `(int)n`, which keeps the low 32 bits of a number.
abbrev pub as_int : ℕ → ℤ
as_int n = let low = n % 2 ^ 32 in if ltb low (2 ^ 31) then pos low else negsuc (2 ^ 32 - low - 1)
