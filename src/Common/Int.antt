-- ===== src/Common/Int.antt =====
-- Python integers, for the places where the program tests for a negative number.
use Prim.Native.Nat.{ℕ, ◌+◌, ◌-◌}
use labelfab.Common.Tests.{leb, if◌then◌else◌}

pub data ℤ : Type 0 where
  pos : ℕ → ℤ
  negsuc : ℕ → ℤ

-- a - b
abbrev pub int_sub : ℕ → ℕ → ℤ
int_sub a b = if leb b a then pos (a - b) else negsuc (b - a - 1)

-- z - n
abbrev pub int_minus : ℤ → ℕ → ℤ
int_minus (pos a) n = int_sub a n
int_minus (negsuc a) n = negsuc (a + n)

-- max(0, z)
abbrev pub to_nat : ℤ → ℕ
to_nat (pos a) = a
to_nat (negsuc a) = 0
