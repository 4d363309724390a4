-- ===== src/Common/Powers.antt =====
-- Powers of two.
use Prim.Native.Nat.{ℕ, zero, suc, ◌^◌, ◌<◌}
use native.Mathlib.Omega.{arith}
use native.Mathlib.Nat.{pow-suc}

pub pow_mono : (d e : ℕ) → d < e → 2 ^ d < 2 ^ e
pow_mono d zero h = absurd (omega arith)
pow_mono zero (suc e) h = rw (pow-suc 2 e) (omega (arith, pow-pos e))
  where
    pow-pos : (n : ℕ) → 0 < 2 ^ n
    pow-pos zero = omega arith
    pow-pos (suc n) = rw (pow-suc 2 n) (omega (arith, pow-pos n))
pow_mono (suc d) (suc e) h =
    rw (pow-suc 2 d, pow-suc 2 e) (omega (arith, pow_mono d e (omega arith)))

pub lt-pow : (n : ℕ) → n < 2 ^ n
lt-pow zero = omega arith
lt-pow (suc n) = omega (arith, lt-pow n, pow-suc 2 n)

pub pow_lt-exponent : (d e : ℕ) → 2 ^ d < 2 ^ e → d < e
pow_lt-exponent d zero h = absurd (omega (arith, lt-pow d))
pow_lt-exponent zero (suc e) h = omega arith
pow_lt-exponent (suc d) (suc e) h =
    omega (arith, pow_lt-exponent d e (omega (arith, pow-suc 2 d, pow-suc 2 e)))
