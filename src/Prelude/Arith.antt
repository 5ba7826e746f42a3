-- ===== src/Prelude/Arith.antt =====
-- Powers and quotients of the native numbers.
use Prim.Native.Nat.{ℕ, zero, suc, ◌+◌, ◌*◌, ◌^◌, ◌<◌}
use mathlib.Core.Path.{◌≡◌}
use native.Mathlib.Nat.{pow-zero, pow-suc, add-zero, add-suc, mul-one, mul_assoc, mul-pos}
use native.Mathlib.Omega.{arith}

pub pow-add : (b m n : ℕ) → b ^ (m + n) ≡ b ^ m * b ^ n
pow-add b m zero = rw (add-zero, pow-zero b, mul-one)
pow-add b m (suc n) = rw (add-suc, pow-suc b (m + n), pow-suc b n, pow-add b m n) (mul_assoc _ _ _)

pub pow-pos : (b n : ℕ) → 0 < b → 0 < b ^ n
pow-pos b zero h = rw pow-zero (omega arith)
pow-pos b (suc n) h = rw pow-suc (mul-pos (pow-pos b n h) h)
