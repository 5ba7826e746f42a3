-- ===== src/Bigint/Quotient.antt =====
-- src/runtime/bigint.c: long division against division of the integers.
use cscript.Prelude.{
  ℕ, zero, suc, ◌+◌, ◌*◌, ◌/◌, ◌%◌, ◌^◌, ◌≤◌, ◌<◌, ◌≡◌, refl, sym, ap, ◌∙◌, List, length, replicate,
  length-replicate, inl, inr, Bool-cases, arith, ◌==◌, Bool, true, false, not, bool_eq, none, some,
}
use cscript.Prelude.Int.{◌+ℤ◌, ◌*ℤ◌}
use Prim.Native.Nat.{compare, Ordering}
use native.Mathlib.Nat.{pow-suc, div-div-eq-div-mul, div-eq_of_lt, div-one, mul-div_right}
use cscript.Prelude.Arith.{pow-pos}
use cscript.Bigint.{
  Big, trim, with_sign, zero_big, is_zero, from_int64, add, compare_magnitude, subtract_magnitude,
}
use cscript.Bigint.Value.{
  value, AreLimbs, IsTrimmed, IsValid, trim-IsValid, value-trim, value-lt, value-pos_of_not_zero,
}
use cscript.Bigint.Magnitude.{
  compare_magnitude-compare, subtract_magnitude-IsValid, value-subtract_magnitude,
}
use cscript.Bigint.Sum.{
  signed, signed-add, to_ℤ, to_ℤ-with_sign, with_sign-IsValid, zero_big-IsValid, add-IsValid,
  add_unsigned, value-from_int64, from_int64-IsValid, negative-from_int64, negative-trim-false,
  value-with_sign, negative-subtract_magnitude,
}
use cscript.Bigint.Product.{signed-mul, value-replicate}
use cscript.Bigint.Bits.{
  bit_at, set_bit, bit_at-value, base_pow, set_bit-value, set_bit-AreLimbs, length-set_bit,
}
use cscript.Bigint.Division.{reduce, shift_in, divide_loop, divide_magnitude, divide, remainder}

-- The remainder of the loop: valid, and without a sign.
record IsUnsigned (v : Big) : Type 0 where
  valid : IsValid v
  plain : v.negative ≡ false

one-IsUnsigned : IsUnsigned (from_int64 false 1)
one-IsUnsigned = record { valid = from_int64-IsValid false 1; plain = negative-from_int64 1 }

shift_in-value :
    (a : List ℕ) (i : ℕ) (r : Big)
    → AreLimbs a
    → IsUnsigned r
    → IsUnsigned (shift_in a i r)
      × (value (shift_in a i r).limbs ≡ 2 * value r.limbs + value a / 2 ^ i % 2)
unfolding shift_in
shift_in-value a i r ha hr =
    let (twice, plain) = add_unsigned r r hr.valid hr.valid hr.plain hr.plain in
    let doubled = add-IsValid r r hr.valid hr.valid in
    let one = one-IsUnsigned in
    let (raised, plain') =
      add_unsigned (add r r) (from_int64 false 1) doubled one.valid plain one.plain in
    let bit = bit_at-value a i ha in
    elim (Bool-cases (bit_at a i == 0)) [
      | inl e ↦ rw e (record { valid = doubled; plain = plain }, ground arith)
      | inr e ↦ rw e (
        record { valid = add-IsValid _ _ doubled one.valid; plain = plain' },
        ground (arith, value-from_int64 false 1 (omega arith)),
      )
    ]

-- What holds before the round for the bits below `i`: the bits above it are divided.
record Divides (a b : List ℕ) (i : ℕ) (q : List ℕ) (r : Big) : Type 0 where
  high : ℕ
  high_bits : value q ≡ high * 2 ^ i
  split : high * value b + value r.limbs ≡ value a / 2 ^ i
  small : value r.limbs < value b
  unsigned : IsUnsigned r
  limbs : AreLimbs q
  long : length q ≡ length a

half_pow : (n i : ℕ) → n / 2 ^ suc i ≡ n / 2 ^ i / 2
half_pow n i = rw pow-suc (sym (div-div-eq-div-mul n (2 ^ i) 2))

double_place : (h p : ℕ) → h * (p * 2) ≡ p * (2 * h)
double_place h p = omega arith

quotient_bit_clear : (q : List ℕ) (h i : ℕ) → AreLimbs q → value q ≡ h * 2 ^ suc i → bit_at q i ≡ 0
quotient_bit_clear q h i hq e =
    let places : value q ≡ 2 ^ i * (2 * h) = rw (pow-suc 2 i) at e ∙ double_place h (2 ^ i) in
    bit_at-value q i hq
    ∙ ap (λ t. t / 2 ^ i % 2) places
    ∙ ap (λ t. t % 2) (mul-div_right (2 * h) (pow-pos 2 i (omega arith)))
    ∙ omega arith

trim-IsUnsigned : (v : Big) → AreLimbs v.limbs → v.negative ≡ false → IsUnsigned (trim v)
trim-IsUnsigned v h plain = record { valid = trim-IsValid v h; plain = negative-trim-false v plain }

module _ (a b q : List ℕ) (i : ℕ) (r s : Big) (d : Divides a b (suc i) q r)
    (unsigned : IsUnsigned s)
    (shifted : value s.limbs ≡ 2 * value r.limbs + value a / 2 ^ i % 2) where
  -- The quotient so far, with a clear bit below it.
  doubled_high : value q ≡ 2 * d.high * 2 ^ i
  doubled_high = omega (arith, d.high_bits ∙ ap (λ t. d.high * t) (pow-suc 2 i))

  keep-Divides : value s.limbs < value b → Divides a b i q s
  keep-Divides below = record {
    high = 2 * d.high;
    high_bits = doubled_high;
    split = omega (arith, d.split, half_pow (value a) i);
    small = below;
    unsigned = unsigned;
    limbs = d.limbs;
    long = d.long;
  }

  subtract-Divides :
      AreLimbs b
      → i < length a * 32
      → value b ≤ value s.limbs
      → Divides a b i (set_bit q i) (subtract_magnitude s.limbs b)
  subtract-Divides hb hi above =
      let less = value-subtract_magnitude s.limbs b unsigned.valid.limbs hb above in
      let clear = quotient_bit_clear q d.high i d.limbs d.high_bits in
      let set = set_bit-value q i (rw d.long hi) clear in
      record {
        high = 2 * d.high + 1;
        high_bits = omega (arith, set, doubled_high);
        split = omega (arith, d.split, half_pow (value a) i);
        small = omega (arith, d.small);
        unsigned = record {
          valid = subtract_magnitude-IsValid s.limbs b unsigned.valid.limbs hb;
          plain = negative-subtract_magnitude s.limbs b;
        };
        limbs = set_bit-AreLimbs q i d.limbs;
        long = length-set_bit q i ∙ d.long;
      }

  reduce-Divides :
      (order : Ordering)
      → AreLimbs b
      → i < length a * 32
      → compare (value s.limbs) (value b) ≡ order
      → Divides a b i (reduce order i b q s).0 (reduce order i b q s).1
  unfolding reduce
  reduce-Divides Ordering.lt hb hi o = keep-Divides (ground arith)
  reduce-Divides Ordering.eq hb hi o = subtract-Divides hb hi (ground arith)
  reduce-Divides Ordering.gt hb hi o = subtract-Divides hb hi (ground arith)

-- The loop divides, one bit of `a` a round.
divide_loop-Divides :
    (i : ℕ) (a b q : List ℕ) (r : Big)
    → AreLimbs a
    → AreLimbs b
    → IsTrimmed b
    → i ≤ length a * 32
    → Divides a b i q r
    → Divides a b 0 (divide_loop i a b q r).0 (divide_loop i a b q r).1
unfolding divide_loop
divide_loop-Divides zero a b q r ha hb tb hi d = d
divide_loop-Divides (suc i) a b q r ha hb tb hi d =
    let (unsigned, shifted) = shift_in-value a i r ha d.unsigned in
    let s = shift_in a i r in
    let order = compare_magnitude s.limbs b in
    let compared =
      compare_magnitude-compare s.limbs b unsigned.valid.limbs hb unsigned.valid.trimmed tb in
    let next = reduce-Divides a b q i r s d unsigned shifted order hb hi (sym compared) in
    divide_loop-Divides i a b (reduce order i b q s).0 (reduce order i b q s).1 ha hb tb
      (omega arith) next

start-Divides :
    (a b : List ℕ)
    → AreLimbs a
    → 0 < value b
    → Divides a b (length a * 32) (replicate (length a) 0) zero_big
unfolding value
start-Divides a b ha positive =
    let (nothing, limbs) = value-replicate (length a) in
    let none_left : value a / 2 ^ (length a * 32) ≡ 0 =
      div-eq_of_lt (rw (← base_pow (length a)) (value-lt a ha)) in
    record {
      high = 0;
      high_bits = omega (arith, nothing);
      split = omega (arith, none_left);
      small = positive;
      unsigned = record { valid = zero_big-IsValid; plain = refl };
      limbs = limbs;
      long = length-replicate _ 0;
    }

-- `divideMagnitude` divides.
record Quotient (a b : List ℕ) (q r : Big) : Type 0 where
  q_valid : IsUnsigned q
  r_valid : IsUnsigned r
  split : value q.limbs * value b + value r.limbs ≡ value a
  small : value r.limbs < value b

divide_magnitude-Quotient :
    (a b : List ℕ)
    → AreLimbs a
    → AreLimbs b
    → IsTrimmed b
    → 0 < value b
    → Quotient a b (divide_magnitude a b).0 (divide_magnitude a b).1
unfolding divide_magnitude
divide_magnitude-Quotient a b ha hb tb positive =
    let n = length a * 32 in
    let out = divide_loop n a b (replicate (length a) 0) zero_big in
    let d =
      divide_loop-Divides n a b _ zero_big ha hb tb (omega arith) (start-Divides a b ha positive) in
    let q : Big = record { limbs = out.0; negative = false } in
    let whole : value out.0 ≡ d.high = d.high_bits ∙ omega arith in
    record {
      q_valid = trim-IsUnsigned q d.limbs refl;
      r_valid = trim-IsUnsigned out.1 d.unsigned.valid.limbs d.unsigned.plain;
      split =
          rw (value-trim q, value-trim out.1)
            (ap (λ t. t * value b + value out.1.limbs) whole ∙ d.split ∙ div-one _);
      small = rw value-trim d.small;
    }

same_sign : (s t : Bool) → s ≡ not (bool_eq (not (bool_eq s t)) t)
same_sign s t = ground arith

signed-split :
    (s t : Bool) (q b r a : ℕ)
    → q * b + r ≡ a
    → signed s a ≡ signed (not (bool_eq s t)) q *ℤ signed t b +ℤ signed s r
signed-split s t q b r a h =
    ap (signed s) (sym h)
    ∙ signed-add s (q * b) r
    ∙ ap (λ z. z +ℤ signed s r)
        (ap (λ u. signed u (q * b)) (same_sign s t) ∙ signed-mul (not (bool_eq s t)) t q b)

signed_quotient :
    (a b : Big) (q r : ℕ)
    → q * value b.limbs + r ≡ value a.limbs
    → to_ℤ a ≡ signed (not (bool_eq a.negative b.negative)) q *ℤ to_ℤ b +ℤ signed a.negative r
unfolding to_ℤ
signed_quotient a b q r h = signed-split a.negative b.negative q (value b.limbs) r _ h

-- What `/` and `%` promise of one another: the quotient is rounded towards zero.
pub record IsDivision (a b q r : Big) : Type 0 where
  pub q_valid : IsValid q
  pub r_valid : IsValid r
  pub split : to_ℤ a ≡ to_ℤ q *ℤ to_ℤ b +ℤ to_ℤ r
  pub small : value r.limbs < value b.limbs
  pub sign : to_ℤ r ≡ signed a.negative (value r.limbs)

-- For valid integers and a divisor that is not zero, `csBigDivide` and `csBigRemainder` succeed with
-- the truncated division: a = q * b + r, |r| < |b|, and r has the sign of a.
pub divide-remainder :
    (a b : Big)
    → IsValid a
    → IsValid b
    → is_zero b ≡ false
    → (q : Big) × (r : Big) × (divide a b ≡ some q) × (remainder a b ≡ some r) × IsDivision a b q r
unfolding divide remainder
divide-remainder a b ha hb nonzero =
    let m =
      divide_magnitude-Quotient a.limbs b.limbs ha.limbs hb.limbs hb.trimmed
        (value-pos_of_not_zero b hb nonzero) in
    let q = (divide_magnitude a.limbs b.limbs).0 in
    let r = (divide_magnitude a.limbs b.limbs).1 in
    let s = not (bool_eq a.negative b.negative) in
    (
      with_sign s q,
      with_sign a.negative r,
      rw nonzero,
      rw nonzero,
      record {
        q_valid = with_sign-IsValid s q m.q_valid.valid;
        r_valid = with_sign-IsValid a.negative r m.r_valid.valid;
        split =
            rw (to_ℤ-with_sign s q, to_ℤ-with_sign a.negative r) (signed_quotient a b _ _ m.split);
        small = rw value-with_sign m.small;
        sign =
            to_ℤ-with_sign a.negative r
            ∙ ap (signed a.negative) (sym (value-with_sign a.negative r));
      },
    )

-- Division by zero is refused.
pub divide-zero : (a b : Big) → is_zero b ≡ true → (divide a b ≡ none) × (remainder a b ≡ none)
unfolding divide remainder
divide-zero a b h = (rw h, rw h)
