-- ===== src/Base/Int.antt =====
-- C's `int`, where the program stores or returns -1: `negsuc n` is -(n + 1).
use Prim.Native.Nat.{ℕ, zero, ◌-◌, ◌%◌}
use mathlib.Core.Bool.{Bool, true, false}
use so2023_trabalho.Base.Tests.{ltb, ◌==◌, if◌then◌else◌}

pub data ℤ : Type 0 where
  pos : ℕ → ℤ
  negsuc : ℕ → ℤ

abbrev pub minus_one : ℤ
minus_one = negsuc 0

abbrev pub is_minus_one : ℤ → Bool
is_minus_one (negsuc zero) = true
is_minus_one _ = false

-- The test `a == b` between a signed value and a constant that is not negative.
abbrev pub is_pos : ℤ → ℕ → Bool
is_pos (pos a) b = a == b
is_pos (negsuc _) b = false

-- `(char) a` as a byte, and the `int` that a signed 8-bit `char` with that byte stands for.
abbrev pub byte_of : ℤ → ℕ
byte_of (pos a) = a % 256
byte_of (negsuc a) = 255 - a % 256

abbrev pub int_of_char : ℕ → ℤ
int_of_char b = if ltb b 128 then pos b else negsuc (255 - b)
