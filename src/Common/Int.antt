-- ===== src/Common/Int.antt =====
-- C's signed int, where its sign matters, and its equality test.
use Prim.Native.Nat.{ℕ}
use mathlib.Core.Bool.{Bool, false}
use chaonet.Common.Tests.{◌==◌}

-- `negsuc n` is -(n + 1).
pub data ℤ : Type 0 where
  pos : ℕ → ℤ
  negsuc : ℕ → ℤ

infix 50 ◌==ℤ◌
abbrev pub ◌==ℤ◌ : ℤ → ℤ → Bool
pos a ==ℤ pos b = a == b
negsuc a ==ℤ negsuc b = a == b
pos a ==ℤ negsuc b = false
negsuc a ==ℤ pos b = false
