-- ===== src/Prelude/Numbers.antt =====
-- Laws of numbers.
use Prim.Native.Nat.{ℕ, zero, suc, ◌^◌, ◌<◌}
use native.Mathlib.Omega.{arith}

pub two_pow : (k : ℕ) → 0 < 2 ^ k
two_pow zero = omega arith
two_pow (suc k) = omega (arith, two_pow k)
