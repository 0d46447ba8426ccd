-- ===== src/Common/Integers.antt =====
-- Integers over the native numbers, with their order and equality as Boolean tests.
use Prim.Native.Nat.{ℕ, zero, suc}
use mathlib.Core.Bool.{Bool, true, false}
use gin_t.Common.Tests.{ltb, leb, ◌==◌}

pub data ℤ : Type 0 where
  pos negsuc : ℕ → ℤ

abbrev pub ltz : ℤ → ℤ → Bool
ltz (pos a) (pos b) = ltb a b
ltz (pos a) (negsuc b) = false
ltz (negsuc a) (pos b) = true
ltz (negsuc a) (negsuc b) = ltb b a

abbrev pub lez : ℤ → ℤ → Bool
lez (pos a) (pos b) = leb a b
lez (pos a) (negsuc b) = false
lez (negsuc a) (pos b) = true
lez (negsuc a) (negsuc b) = leb b a

abbrev pub eqz : ℤ → ℤ → Bool
eqz (pos a) (pos b) = a == b
eqz (negsuc a) (negsuc b) = a == b
eqz a b = false

-- minus a number
abbrev pub neg : ℕ → ℤ
neg zero = pos 0
neg (suc n) = negsuc n
