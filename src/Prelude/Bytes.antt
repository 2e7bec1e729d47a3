-- ===== src/Prelude/Bytes.antt =====
-- Bytes: wrap-around, the operations on bits, and checks over all bytes.
use Prim.Native.Nat.{ℕ, zero, suc, ◌%◌, ◌<◌}
use mathlib.Core.Path.{◌≡◌}
use mathlib.Core.Bool.{Bool, true, ◌&&◌}
use native.Mathlib.Omega.{arith}

-- A cast to `unsigned char`.
abbrev pub u8 : ℕ → ℕ
u8 n = n % 256

abbrev pub IsByte : ℕ → Type 0
IsByte b = b < 256

abbrev pub IsSeptet : ℕ → Type 0
IsSeptet b = b < 128

-- A test holds of every number below a bound.
unfoldable pub all_below : ℕ → (ℕ → Bool) → Bool
all_below zero test = true
all_below (suc bound) test = test bound && all_below bound test

pub all_below_sound :
    (bound : ℕ) (test : ℕ → Bool) (i : ℕ) → all_below bound test ≡ true → i < bound → test i ≡ true
unfolding all_below
all_below_sound zero test i _ inside = absurd (omega arith)
all_below_sound (suc bound) test i all inside = ground (all_below_sound bound test i, arith)
