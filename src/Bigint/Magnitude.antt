-- ===== src/Bigint/Magnitude.antt =====
-- src/runtime/bigint.c: sums, comparisons and differences of magnitudes.
use cscript.Prelude.{
  ℕ, zero, suc, ◌+◌, ◌*◌, ◌/◌, ◌%◌, ◌^◌, ◌≤◌, ◌<◌, ◌≡◌, refl, ap, ◌∙◌, List, [], ◌∷◌, length,
  get_or, take, inl, inr, Bool-cases, arith, ◌==◌, ==_iff, false,
}
use mathlib.Core.Path.{ap₂}
use Prim.Native.Nat.{compare}
use native.Mathlib.Nat.{mul-le-mul_right}
use cscript.Bigint.{
  base, add_loop, add_magnitude, compare_loop, compare_magnitude, sub_limb, sub_loop,
  subtract_magnitude,
}
use cscript.Bigint.Value.{
  value, AreLimbs, IsTrimmed, IsValid, trim-IsValid, value-trim, value-take-suc, value-take-lt,
  value-lt_of_shorter, take_all,
}

-- A `uint64_t` holds the sum of two limbs and a carry.
add_loop-value :
    (a b : List ℕ) (c : ℕ)
    → AreLimbs a
    → AreLimbs b
    → c ≤ 1
    → value (add_loop a b c) ≡ value a + value b + c
unfolding value add_loop
add_loop-value [] [] c ha hb hc = omega arith
add_loop-value (x ∷ a) [] c (hx, ha) hb hc =
    omega (arith, add_loop-value a [] ((c + x) % 2 ^ 64 / base) ha hb (omega arith))
add_loop-value [] (y ∷ b) c ha (hy, hb) hc =
    omega (arith, add_loop-value [] b ((c + y) % 2 ^ 64 / base) ha hb (omega arith))
add_loop-value (x ∷ a) (y ∷ b) c (hx, ha) (hy, hb) hc =
    omega (arith, add_loop-value a b (((c + x) % 2 ^ 64 + y) % 2 ^ 64 / base) ha hb (omega arith))

add_loop-AreLimbs : (a b : List ℕ) (c : ℕ) → AreLimbs (add_loop a b c)
unfolding add_loop
add_loop-AreLimbs [] [] c = (omega arith, tt)
add_loop-AreLimbs (x ∷ a) [] c = (omega arith, add_loop-AreLimbs a [] _)
add_loop-AreLimbs [] (y ∷ b) c = (omega arith, add_loop-AreLimbs [] b _)
add_loop-AreLimbs (x ∷ a) (y ∷ b) c = (omega arith, add_loop-AreLimbs a b _)

pub add_magnitude-IsValid : (a b : List ℕ) → IsValid (add_magnitude a b)
unfolding add_magnitude
add_magnitude-IsValid a b = trim-IsValid _ (add_loop-AreLimbs a b 0)

-- `addMagnitude` adds.
pub value-add_magnitude :
    (a b : List ℕ) → AreLimbs a → AreLimbs b → value (add_magnitude a b).limbs ≡ value a + value b
unfolding add_magnitude
value-add_magnitude a b ha hb = omega (
  arith,
  value-trim (record { limbs = add_loop a b 0; negative = false }),
  add_loop-value a b 0 ha hb (omega arith),
)

compare-add : (u v w : ℕ) → compare (u + w) (v + w) ≡ compare u v
compare-add u v w = ground arith

-- The top limbs decide, unless they are equal.
compare_loop-compare :
    (a b : List ℕ) (n : ℕ)
    → AreLimbs a
    → AreLimbs b
    → compare_loop a b n ≡ compare (value (take n a)) (value (take n b))
unfolding compare_loop value
compare_loop-compare a b zero ha hb = refl
compare_loop-compare a b (suc n) ha hb =
    let x = get_or a n 0 in
    let y = get_or b n 0 in
    let p = base ^ n in
    let below : x < y → x * p + p ≤ y * p = λ h. omega (arith, mul-le-mul_right p h) in
    let above : y < x → y * p + p ≤ x * p = λ h. omega (arith, mul-le-mul_right p h) in
    let same : x ≡ y → x * p ≡ y * p = λ h. ap (λ t. t * p) h in
    ground (
      arith,
      value-take-suc a n,
      value-take-suc b n,
      value-take-lt a n ha,
      value-take-lt b n hb,
      compare_loop-compare a b n ha hb,
      below,
      above,
      same,
    )

-- `compareMagnitude` compares the numbers.
pub compare_magnitude-compare :
    (a b : List ℕ)
    → AreLimbs a
    → AreLimbs b
    → IsTrimmed a
    → IsTrimmed b
    → compare_magnitude a b ≡ compare (value a) (value b)
unfolding compare_magnitude
compare_magnitude-compare a b ha hb ta tb = elim (Bool-cases (length a == length b)) [
  | inl e ↦
      let whole : take (length a) b ≡ b =
        ap (λ k. take k b) ((==_iff (length a) (length b)).0 e) ∙ take_all b in
      rw e (
        compare_loop-compare a b (length a) ha hb
        ∙ ap₂ (λ u v. compare (value u) (value v)) (take_all a) whole)
  | inr e ↦ rw e (ground (arith, value-lt_of_shorter a b ha tb, value-lt_of_shorter b a hb ta))
]

-- The `int64_t` difference of `subtractMagnitude`, borrow included, stays in range.
sub_limb_lem :
    (x y c : ℕ)
    → x < base
    → y < base
    → c ≤ 1
    → ((sub_limb x y c).0 + c + y ≡ x + base * (sub_limb x y c).1)
      × ((sub_limb x y c).0 < base)
      × ((sub_limb x y c).1 ≤ 1)
unfolding sub_limb
sub_limb_lem x y c hx hy hc = ground arith

-- The loop of `subtractMagnitude` subtracts, if no borrow is left at the end.
sub_loop-value :
    (a b : List ℕ) (c : ℕ)
    → AreLimbs a
    → AreLimbs b
    → c ≤ 1
    → value b + c ≤ value a
    → value (sub_loop a b c) + value b + c ≡ value a
unfolding value sub_loop
sub_loop-value [] b c ha hb hc h = omega arith
sub_loop-value (x ∷ a) [] c (hx, ha) hb hc h =
    let round = sub_limb_lem x 0 c hx (omega arith) hc in
    omega (arith, sub_loop-value a [] (sub_limb x 0 c).1 ha tt round.2 (omega arith))
sub_loop-value (x ∷ a) (y ∷ b) c (hx, ha) (hy, hb) hc h =
    let round = sub_limb_lem x y c hx hy hc in
    omega (arith, sub_loop-value a b (sub_limb x y c).1 ha hb round.2 (omega arith))

sub_loop-AreLimbs :
    (a b : List ℕ) (c : ℕ) → AreLimbs a → AreLimbs b → c ≤ 1 → AreLimbs (sub_loop a b c)
unfolding sub_loop
sub_loop-AreLimbs [] b c ha hb hc = tt
sub_loop-AreLimbs (x ∷ a) [] c (hx, ha) hb hc =
    let round = sub_limb_lem x 0 c hx (omega arith) hc in
    (round.1, sub_loop-AreLimbs a [] (sub_limb x 0 c).1 ha tt round.2)
sub_loop-AreLimbs (x ∷ a) (y ∷ b) c (hx, ha) (hy, hb) hc =
    let round = sub_limb_lem x y c hx hy hc in
    (round.1, sub_loop-AreLimbs a b (sub_limb x y c).1 ha hb round.2)

pub subtract_magnitude-IsValid :
    (a b : List ℕ) → AreLimbs a → AreLimbs b → IsValid (subtract_magnitude a b)
unfolding subtract_magnitude
subtract_magnitude-IsValid a b ha hb = trim-IsValid _ (sub_loop-AreLimbs a b 0 ha hb (omega arith))

-- `subtractMagnitude` subtracts, where its caller has checked the order.
pub value-subtract_magnitude :
    (a b : List ℕ)
    → AreLimbs a
    → AreLimbs b
    → value b ≤ value a
    → value (subtract_magnitude a b).limbs + value b ≡ value a
unfolding subtract_magnitude
value-subtract_magnitude a b ha hb h = omega (
  arith,
  value-trim (record { limbs = sub_loop a b 0; negative = false }),
  sub_loop-value a b 0 ha hb (omega arith) (omega arith),
)
