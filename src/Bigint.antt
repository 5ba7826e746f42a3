-- ===== src/Bigint.antt =====
-- src/runtime/bigint.c: arbitrary-precision integers, a sign and a magnitude of 32-bit limbs, least
-- significant first. An output parameter is the result; `false` with no output is `none`. Memory is
-- taken to suffice, so `reserve` returns cleared limbs and does not fail.
pub mod Value
pub mod Magnitude
pub mod Sum
pub mod Product
pub mod Bits
pub mod Division
pub mod Quotient
pub mod Power
pub mod Text
mod Tests
use cscript.Prelude.{
  ℕ, zero, suc, ◌+◌, ◌-◌, ◌*◌, ◌/◌, ◌%◌, ◌^◌, Bool, false, not, ◌||◌, List, [], ◌∷◌, length, get_or,
  take, replicate, ltb, ◌==◌, if◌then◌else◌, bool_eq,
}
use Prim.Native.Nat.{Ordering}

-- `BigInt`; `count` is the length of `limbs`.
pub record Big : Type 0 where
  pub limbs : List ℕ
  pub negative : Bool

-- The number of values of a limb.
abbrev pub base : ℕ
base = 2 ^ 32

-- `uint64_t` arithmetic.
abbrev pub word64 : ℕ → ℕ
word64 n = n % 2 ^ 64

-- The loop of `trim`: `count` falls while the limb below it is zero.
unfoldable pub trim_count : List ℕ → ℕ → ℕ
trim_count limbs zero = zero
trim_count limbs (suc n) =
    let rest = trim_count limbs n in if get_or limbs n 0 == 0 then rest else suc n

unfoldable pub trim : Big → Big
unfolding trim_count
trim v =
    let count = trim_count v.limbs (length v.limbs) in
    record { limbs = take count v.limbs; negative = if count == 0 then false else v.negative }

-- `csBigInit` and `reserve(out, 0)`.
abbrev pub zero_big : Big
zero_big = record { limbs = []; negative = false }

-- `csBigIsZero`
unfoldable pub is_zero : Big → Bool
is_zero v = length v.limbs == 0

-- The argument of `csBigFromInt64` by its sign and magnitude, both below 2 ^ 64.
unfoldable pub from_int64 : Bool → ℕ → Big
unfolding trim
from_int64 negative magnitude =
    trim (record { limbs = magnitude % base ∷ magnitude / base % base ∷ []; negative = negative })

-- The loop of `addMagnitude` from one index on: the limbs of `a` and of `b` that are left.
unfoldable pub add_loop : List ℕ → List ℕ → ℕ → List ℕ
add_loop [] [] carry = carry % base ∷ []
add_loop (x ∷ a) [] carry = let sum = word64 (carry + x) in sum % base ∷ add_loop a [] (sum / base)
add_loop [] (y ∷ b) carry = let sum = word64 (carry + y) in sum % base ∷ add_loop [] b (sum / base)
add_loop (x ∷ a) (y ∷ b) carry =
    let sum = word64 (word64 (carry + x) + y) in sum % base ∷ add_loop a b (sum / base)

unfoldable pub add_magnitude : List ℕ → List ℕ → Big
add_magnitude a b = trim (record { limbs = add_loop a b 0; negative = false })

-- The loop of `compareMagnitude`, `n` limbs left to compare.
unfoldable pub compare_loop : List ℕ → List ℕ → ℕ → Ordering
compare_loop a b zero = Ordering.eq
compare_loop a b (suc n) =
    let rest = compare_loop a b n in
    let x = get_or a n 0 in
    let y = get_or b n 0 in if x == y then rest else (if ltb x y then Ordering.lt else Ordering.gt)

-- The results -1, 0 and 1 are `lt`, `eq` and `gt`.
unfoldable pub compare_magnitude : List ℕ → List ℕ → Ordering
compare_magnitude a b =
    if length a == length b
    then compare_loop a b (length a)
    else (if ltb (length a) (length b) then Ordering.lt else Ordering.gt)

-- One round of `subtractMagnitude`: the limb and the next borrow. The difference is an `int64_t`,
-- negative when the limb of `a` is below what is taken from it.
unfoldable pub sub_limb : ℕ → ℕ → ℕ → ℕ × ℕ
sub_limb x y borrow =
    if ltb x (borrow + y) then (x + base - (borrow + y), 1) else (x - (borrow + y), 0)

-- The loop of `subtractMagnitude`: as many rounds as `a` has limbs.
unfoldable pub sub_loop : List ℕ → List ℕ → ℕ → List ℕ
sub_loop [] b borrow = []
sub_loop (x ∷ a) [] borrow = (sub_limb x 0 borrow).0 ∷ sub_loop a [] (sub_limb x 0 borrow).1
sub_loop (x ∷ a) (y ∷ b) borrow = (sub_limb x y borrow).0 ∷ sub_loop a b (sub_limb x y borrow).1

unfoldable pub subtract_magnitude : List ℕ → List ℕ → Big
subtract_magnitude a b = trim (record { limbs = sub_loop a b 0; negative = false })

-- `out->negative = sign; trim(out);`
unfoldable pub with_sign : Bool → Big → Big
with_sign sign v = trim (record v { negative = sign })

-- The end of `csBigAdd`, where the signs differ: the larger magnitude decides.
unfoldable pub add_opposite : Ordering → Big → Big → Big
add_opposite Ordering.eq a b = zero_big
add_opposite Ordering.gt a b = with_sign a.negative (subtract_magnitude a.limbs b.limbs)
add_opposite Ordering.lt a b = with_sign b.negative (subtract_magnitude b.limbs a.limbs)

-- `csBigAdd`
unfoldable pub add : Big → Big → Big
add a b =
    if bool_eq a.negative b.negative
    then with_sign a.negative (add_magnitude a.limbs b.limbs)
    else add_opposite (compare_magnitude a.limbs b.limbs) a b

-- `csBigNegate`
unfoldable pub negate : Big → Big
negate v = if is_zero v then v else record v { negative = not v.negative }

-- `csBigSubtract`
unfoldable pub subtract : Big → Big → Big
subtract a b =
    let flipped = (if is_zero b then b else record b { negative = not b.negative }) in add a flipped

abbrev flip_order : Ordering → Ordering
flip_order Ordering.lt = Ordering.gt
flip_order Ordering.eq = Ordering.eq
flip_order Ordering.gt = Ordering.lt

-- `csBigCompare`
unfoldable pub compare_big : Big → Big → Ordering
compare_big a b =
    let order = compare_magnitude a.limbs b.limbs in
    if bool_eq a.negative b.negative
    then if a.negative then flip_order order else order
    else (if a.negative then Ordering.lt else Ordering.gt)

-- The inner loop of `csBigMultiply` with the write behind it: the limbs of `b` that are left, and
-- the limbs of the product from index i + j on.
unfoldable pub mul_row : ℕ → List ℕ → List ℕ → ℕ → List ℕ
mul_row x b [] carry = []
mul_row x [] (p ∷ ps) carry = (p + carry % base) % base ∷ ps
mul_row x (y ∷ b) (p ∷ ps) carry =
    let at = word64 (word64 (p + word64 (x * y)) + carry) in at % base ∷ mul_row x b ps (at / base)

abbrev keep_head : List ℕ → (List ℕ → List ℕ) → List ℕ
keep_head [] rest = []
keep_head (p ∷ qs) rest = p ∷ rest qs

-- The outer loop: the limbs of `a` that are left, and the limbs of the product from index i on. The
-- limb at i is not touched again by the rounds that follow.
unfoldable pub mul_loop : List ℕ → List ℕ → List ℕ → List ℕ
unfolding mul_row
mul_loop [] b ps = ps
mul_loop (x ∷ a) b ps = keep_head (mul_row x b ps 0) (mul_loop a b)

-- `csBigMultiply`
unfoldable pub multiply : Big → Big → Big
multiply a b =
    if is_zero a || is_zero b
    then zero_big
    else trim (record {
      limbs = mul_loop a.limbs b.limbs (replicate (length a.limbs + length b.limbs) 0);
      negative = not (bool_eq a.negative b.negative);
    })
