-- ===== src/Prelude/Pow.antt =====
-- Powers of native numbers.
use Prim.Native.Nat.{ℕ, zero, suc, ◌+◌, ◌*◌, ◌^◌, ◌<◌}
use mathlib.Core.Path.{◌≡◌}
use native.Mathlib.Nat.{pow-suc, pow-zero, mul-one, add-zero, add-suc, mul_assoc}
use native.Mathlib.Omega.{arith}

pub pow_add : (b n m : ℕ) → b ^ (n + m) ≡ b ^ n * b ^ m
pow_add b n zero = rw (add-zero, pow-zero, mul-one)
pow_add b n (suc m) = rw (add-suc, pow-suc, pow-suc, pow_add b n m) (mul_assoc _ _ _)

pub pow_pos : (b n : ℕ) → 0 < b → 0 < b ^ n
pow_pos b zero h = rw pow-zero (omega arith)
pow_pos b (suc n) h = rw pow-suc (grind (arith, pow_pos b n h))
