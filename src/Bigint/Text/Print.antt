-- ===== src/Bigint/Text/Print.antt =====
-- src/runtime/bigint.c: division by one limb, and the digits that `csBigToText` writes.
use cscript.Prelude.{
  ℕ, zero, suc, ◌+◌, ◌*◌, ◌/◌, ◌%◌, ◌^◌, ◌≤◌, ◌<◌, ◌≡◌, refl, ap, ◌∙◌, List, [], ◌∷◌, length, inl,
  inr, Bool-cases, arith, false, if◌then◌else◌, some, some-cancel, none≢some,
}
use mathlib.Core.Path.{subst}
use native.Mathlib.Nat.{div-lt_iff_lt-mul, div-add-mod', mod-eq_of_lt, mod-lt, pow-suc}
use cscript.Bigint.{Big, base, word64, is_zero}
use cscript.Bigint.Value.{
  value, AreLimbs, IsValid, trim-IsValid, value-trim, value-lt, value-pos_of_not_zero,
}
use cscript.Bigint.Sum.{negative-trim-false}
use cscript.Bigint.Bits.{base_pow}
use cscript.Bigint.Text.{divide_limbs, divide_by_small, digit_char, print_digits, to_text}

-- `(remainder << 32) | limb` does not overflow, and its quotient fits a limb.
divide_limb :
    (x r d : ℕ)
    → x < base
    → r < d
    → d < base
    → ((r * base + x) / d < base) × (word64 (r * base) ≡ r * base)
divide_limb x r d hx hr hd =
    let top : r * base + x < base * d = omega (arith) in
    ((div-lt_iff_lt-mul (omega arith)).1 top, omega arith)

divide_limb_step :
    (x r d q : ℕ)
    → x < base
    → r < d
    → d < base
    → let current = word64 (r * base) + x in
      (current / d % base + base * q) * d + current % d ≡ x + base * (q * d + r)
divide_limb_step x r d q hx hr hd =
    let (fits, whole) = divide_limb x r d hx hr hd in
    rw (whole, mod-eq_of_lt fits) (omega (arith, div-add-mod' (r * base + x) d))

divide_limbs-value :
    (xs : List ℕ) (d : ℕ)
    → AreLimbs xs
    → 0 < d
    → d < base
    → (value (divide_limbs xs d).0 * d + (divide_limbs xs d).1 ≡ value xs)
      × ((divide_limbs xs d).1 < d)
      × AreLimbs (divide_limbs xs d).0
unfolding value divide_limbs
divide_limbs-value [] d h hd hb = (omega arith, omega arith, tt)
divide_limbs-value (x ∷ xs) d (hx, h) hd hb =
    let (v, small, limbs) = divide_limbs-value xs d h hd hb in
    let r = (divide_limbs xs d).1 in
    (
      divide_limb_step x r d _ hx small hb ∙ ap (λ t. x + base * t) v,
      mod-lt _ hd,
      (mod-lt _ (omega arith), limbs),
    )

-- `divideBySmall` divides by a limb.
pub divide_by_small-value :
    (v : Big) (d : ℕ)
    → IsValid v
    → 0 < d
    → d < base
    → (value (divide_by_small v d).0.limbs * d + (divide_by_small v d).1 ≡ value v.limbs)
      × ((divide_by_small v d).1 < d)
      × IsValid (divide_by_small v d).0
unfolding divide_by_small
divide_by_small-value v d h hd hb =
    let (split, small, limbs) = divide_limbs-value v.limbs d h.limbs hd hb in
    let out : Big = record { limbs = (divide_limbs v.limbs d).0; negative = v.negative } in
    (rw (value-trim out) split, small, trim-IsValid out limbs)

pub negative-divide_by_small :
    (v : Big) (d : ℕ) → v.negative ≡ false → (divide_by_small v d).0.negative ≡ false
unfolding divide_by_small
negative-divide_by_small v d h =
    negative-trim-false (record { limbs = (divide_limbs v.limbs d).0; negative = v.negative }) h

-- A predicate on every element.
abbrev pub All : (ℕ → Type 0) → List ℕ → Type 0
All P [] = Unit
All P (x ∷ xs) = P x × All P xs

quotient-lt : (q d r n p : ℕ) → q * d + r ≡ n → 2 ≤ d → n < p * 2 → q < p
quotient-lt q d r n p e h l = grind arith

-- The loop ends, and writes at most one digit a round.
pub print_digits-total :
    (fuel radix : ℕ) (w : Big) (ds : List ℕ)
    → IsValid w
    → 2 ≤ radix
    → radix < base
    → value w.limbs < 2 ^ fuel
    → (t : List ℕ) × (print_digits fuel radix w ds ≡ some t) × (length t ≤ fuel + length ds)
unfolding print_digits
print_digits-total zero radix w ds h hr hb l = elim (Bool-cases (is_zero w)) [
  | inl e ↦ (ds, rw e, omega arith)
  | inr e ↦ absurd (omega (arith, value-pos_of_not_zero w h e))
]
print_digits-total (suc fuel) radix w ds h hr hb l =
    let (split, small, valid) = divide_by_small-value w radix h (omega arith) hb in
    let (q, r) = divide_by_small w radix in
    let (t, run, short) =
      print_digits-total fuel radix q (digit_char r ∷ ds) valid hr hb
        (quotient-lt (value q.limbs) radix r _ _ split hr (rw (pow-suc 2 fuel) at l)) in
    elim (Bool-cases (is_zero w)) [
      | inl e ↦ (ds, rw e, omega arith)
      | inr e ↦ (t, rw e run, omega arith)
    ]

-- Every byte of the loop's output that it did not get is a digit.
pub print_digits-All :
    (P : ℕ → Type 0) (fuel radix : ℕ) (w : Big) (ds : List ℕ) {t : List ℕ}
    → ((d : ℕ) → d < radix → P (digit_char d))
    → 0 < radix
    → radix < base
    → IsValid w
    → All P ds
    → print_digits fuel radix w ds ≡ some t
    → All P t
unfolding print_digits
print_digits-All P zero radix w ds digits hr hb h all run = elim (Bool-cases (is_zero w)) [
  | inl e ↦ subst (All P) (some-cancel (rw e at run)) all
  | inr e ↦ absurd (none≢some (rw e at run))
]
print_digits-All P (suc fuel) radix w ds digits hr hb h all run =
    let (split, small, valid) = divide_by_small-value w radix h hr hb in
    let (q, r) = divide_by_small w radix in
    let rest =
      print_digits-All P fuel radix q (digit_char r ∷ ds) digits hr hb valid
        (digits r small, all) in
    elim (Bool-cases (is_zero w)) [
      | inl e ↦ subst (All P) (some-cancel (rw e at run)) all
      | inr e ↦ rest (rw e at run)
    ]

pub value-room : (v : Big) → IsValid v → value v.limbs < 2 ^ (length v.limbs * 32)
value-room v h = rw (← base_pow (length v.limbs)) (value-lt v.limbs h.limbs)

-- For a valid integer and a radix of at least 2 that a limb holds, `csBigToText` ends; unless the
-- integer is zero, its buffer of `count * 34 + 2` bytes holds the text and the NUL.
pub to_text-fits :
    (v : Big) (radix : ℕ)
    → IsValid v
    → 2 ≤ radix
    → radix < base
    → (t : List ℕ) × (to_text v radix ≡ some t)
      × (is_zero v ≡ false → length t + 1 ≤ length v.limbs * 34 + 2)
unfolding to_text
to_text-fits v radix h hr hb =
    let w : Big = record v { negative = false } in
    let valid : IsValid w = record { limbs = h.limbs; trimmed = h.trimmed; signed = λ _. refl } in
    let (ds, run, short) =
      print_digits-total (length v.limbs * 32) radix w [] valid hr hb (value-room v h) in
    elim (Bool-cases (is_zero v)) [
      | inl e ↦ (b'0' ∷ [], rw e, λ f. cc)
      | inr e ↦ ((if v.negative then b'-' ∷ ds else ds), rw (e, run), λ f. ground arith)
    ]
