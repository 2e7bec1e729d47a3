-- ===== src/Prelude/Integers.antt =====
-- Numbers with a sign, and their order as a test.
use Prim.Native.Nat.{ℕ}
use mathlib.Core.Bool.{Bool, true, false}
use chan_extra.Prelude.Tests.{ltb, ◌==◌}

-- `negsuc n` is -(n + 1).
pub data ℤ : Type 0 where
  pos : ℕ → ℤ
  negsuc : ℕ → ℤ

abbrev pub less : ℤ → ℤ → Bool
less (pos n) (pos k) = ltb n k
less (pos n) (negsuc k) = false
less (negsuc n) (pos k) = true
less (negsuc n) (negsuc k) = ltb k n

abbrev pub equal : ℤ → ℤ → Bool
equal (pos n) (pos k) = n == k
equal (pos n) (negsuc k) = false
equal (negsuc n) (pos k) = false
equal (negsuc n) (negsuc k) = n == k
