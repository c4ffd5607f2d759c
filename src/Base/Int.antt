-- ===== src/Base/Int.antt =====
-- Signed integers of the source.
use Prim.Native.Nat.{ℕ, suc, ◌-◌, ◌%◌, ◌^◌}
use mathlib.Core.Bool.{Bool, false}
use stelliberty_m.Base.Tests.{ltb, if◌then◌else◌}

-- `negsuc n` is -(n + 1).
pub data ℤ : Type 0 where
  pos negsuc : ℕ → ℤ

-- The `w`-bit pattern of an integer, and the integer that a 32-bit pattern stands for.
abbrev pub low_bits : ℕ → ℤ → ℕ
low_bits w (pos n) = n % 2 ^ w
low_bits w (negsuc n) = 2 ^ w - suc (n % 2 ^ w)

abbrev pub of_bits32 : ℕ → ℤ
of_bits32 n = if ltb n 2147483648 then pos n else negsuc (4294967295 - n)

-- `as i32`.
unfoldable pub to_i32 : ℤ → ℤ
to_i32 i = of_bits32 (low_bits 32 i)

-- `> 0`.
abbrev pub is_positive : ℤ → Bool
is_positive (pos n) = ltb 0 n
is_positive (negsuc n) = false
