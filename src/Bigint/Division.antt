-- ===== src/Bigint/Division.antt =====
-- src/runtime/bigint.c: long division and powers, over the bits of a magnitude.
use cscript.Prelude.{
  ℕ, zero, suc, ◌*◌, false, not, List, length, replicate, ◌==◌, if◌then◌else◌, bool_eq, Option,
  none, some,
}
use Prim.Native.Nat.{Ordering}
use cscript.Bigint.{
  Big, zero_big, trim, with_sign, is_zero, from_int64, add, compare_magnitude, subtract_magnitude,
  multiply,
}
use cscript.Bigint.Bits.{bit_at, set_bit}

-- `if (compareMagnitude(remainder, b) >= 0)`: the remainder is reduced, and the bit of the quotient
-- set.
unfoldable pub reduce : Ordering → ℕ → List ℕ → List ℕ → Big → List ℕ × Big
reduce Ordering.lt i b quotient remainder = (quotient, remainder)
reduce Ordering.eq i b quotient remainder =
    (set_bit quotient i, subtract_magnitude remainder.limbs b)
reduce Ordering.gt i b quotient remainder =
    (set_bit quotient i, subtract_magnitude remainder.limbs b)

-- remainder * 2 + bit i of a
unfoldable pub shift_in : List ℕ → ℕ → Big → Big
shift_in a i remainder =
    let doubled = add remainder remainder in
    if bit_at a i == 0 then doubled else add doubled (from_int64 false 1)

-- The loop of `divideMagnitude`, for the bits below `i`.
unfoldable pub divide_loop : ℕ → List ℕ → List ℕ → List ℕ → Big → List ℕ × Big
divide_loop zero a b quotient remainder = (quotient, remainder)
divide_loop (suc i) a b quotient remainder =
    let shifted = shift_in a i remainder in
    let (q, r) = reduce (compare_magnitude shifted.limbs b) i b quotient shifted in
    divide_loop i a b q r

-- `divideMagnitude`: the quotient and the remainder.
unfoldable pub divide_magnitude : List ℕ → List ℕ → Big × Big
divide_magnitude a b =
    let (q, r) = divide_loop (length a * 32) a b (replicate (length a) 0) zero_big in
    (trim (record { limbs = q; negative = false }), trim r)

-- `csBigDivide`
unfoldable pub divide : Big → Big → Option Big
divide a b =
    if is_zero b
    then none
    else some (with_sign (not (bool_eq a.negative b.negative)) (divide_magnitude a.limbs b.limbs).0)

-- `csBigRemainder`
unfoldable pub remainder : Big → Big → Option Big
remainder a b =
    if is_zero b then none else some (with_sign a.negative (divide_magnitude a.limbs b.limbs).1)

-- The loop of `csBigPower`, for the bits of the exponent below `i`.
unfoldable pub power_loop : ℕ → Big → List ℕ → Big → Big
power_loop zero base exponent result = result
power_loop (suc i) base exponent result =
    let squared = multiply result result in
    power_loop i base exponent (if bit_at exponent i == 0 then squared else multiply squared base)

-- `csBigPower`
unfoldable pub power : Big → Big → Option Big
power base exponent =
    if exponent.negative
    then none
    else some (power_loop (length exponent.limbs * 32) base exponent.limbs (from_int64 false 1))
