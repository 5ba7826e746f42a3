-- ===== src/Bigint/Bits.antt =====
-- src/runtime/bigint.c: reading and setting one bit of a magnitude, as long division and powers do.
use cscript.Prelude.{
  ℕ, zero, suc, ◌+◌, ◌-◌, ◌*◌, ◌/◌, ◌%◌, ◌^◌, ◌≤◌, ◌<◌, ◌≡◌, ◌≢◌, refl, sym, ap, ◌∙◌, List, [], ◌∷◌,
  length, get_or, set, length-set, arith, ◌==◌, if◌then◌else◌,
}
use native.Mathlib.Nat.{
  pow-suc, pow-zero, div-div-eq-div-mul, add-mul-div_left, mul_assoc, zero-div, div-lt_iff_lt-mul,
  lt-mul-div-succ, mul-le-mul_left, mul_comm,
}
use native.Mathlib.Decide.{dec_lt}
use cscript.Prelude.Arith.{pow-pos, pow-add}
use cscript.Bigint.{base}
use cscript.Bigint.Value.{value, AreLimbs, get_or-lt-base}

-- `(limbs[i / 32] >> (i % 32)) & 1u`
unfoldable pub bit_at : List ℕ → ℕ → ℕ
bit_at limbs i = get_or limbs (i / 32) 0 / 2 ^ (i % 32) % 2

-- `limb | (1u << k)`
abbrev or_bit : ℕ → ℕ → ℕ
or_bit limb k = if limb / 2 ^ k % 2 == 1 then limb else limb + 2 ^ k

-- `limbs[i / 32] |= 1u << (i % 32)`
unfoldable pub set_bit : List ℕ → ℕ → List ℕ
set_bit limbs i = set limbs (i / 32) (or_bit (get_or limbs (i / 32) 0) (i % 32))

two_powers : (k : ℕ) → k < 32 → (base ≡ 2 ^ k * (2 * 2 ^ (31 - k))) × (0 < 2 ^ k)
two_powers k h =
    let sum : 32 ≡ k + suc (31 - k) = omega arith in
    let top : 2 ^ suc (31 - k) ≡ 2 * 2 ^ (31 - k) = rw (pow-suc 2 (31 - k)) (omega arith) in
    (
      ap (λ t. 2 ^ t) sum ∙ pow-add 2 k (suc (31 - k)) ∙ ap (λ t. 2 ^ k * t) top,
      pow-pos 2 k (omega arith),
    )

low_limb_bit : (x v k : ℕ) → k < 32 → (x + base * v) / 2 ^ k % 2 ≡ x / 2 ^ k % 2
low_limb_bit x v k h =
    let (split, positive) = two_powers k h in
    let w = 2 ^ (31 - k) in
    let regroup : x + base * v ≡ x + 2 ^ k * (2 * w * v) =
      ap (λ t. x + t * v) split ∙ ap (λ t. x + t) (mul_assoc (2 ^ k) (2 * w) v) in
    rw (regroup, add-mul-div_left x (2 * w * v) positive) (omega arith)

high_limb_bit : (x v j : ℕ) → x < base → (x + base * v) / 2 ^ (32 + j) ≡ v / 2 ^ j
high_limb_bit x v j h =
    let skip : (x + base * v) / base ≡ v = omega arith in
    ap (λ t. (x + base * v) / t) (pow-add 2 32 j)
    ∙ sym (div-div-eq-div-mul (x + base * v) base (2 ^ j))
    ∙ ap (λ t. t / 2 ^ j) skip

-- The bit read is that of the number.
pub bit_at-value : (xs : List ℕ) (i : ℕ) → AreLimbs xs → bit_at xs i ≡ value xs / 2 ^ i % 2
unfolding bit_at value
bit_at-value [] i h = rw (zero-div, zero-div)
bit_at-value (x ∷ xs) i (hx, h) =
    let rest = bit_at-value xs (i - 32) h in
    elim (dec_lt i 32) [
      | yes small ↦
          let z : i / 32 ≡ 0 = omega arith in
          let m : i % 32 ≡ i = omega arith in rw (z, m, low_limb_bit x (value xs) i small)
      | no big ↦
          let z : i / 32 ≡ suc ((i - 32) / 32) = omega arith in
          let m : i % 32 ≡ (i - 32) % 32 = omega arith in
          let e : i ≡ 32 + (i - 32) = omega arith in
          rw (z, m)
            (rest
              ∙ ap (λ t. t % 2) (sym (high_limb_bit x (value xs) (i - 32) hx))
              ∙ ap (λ t. (x + base * value xs) / 2 ^ t % 2) (sym e))
    ]

set-value :
    (xs : List ℕ) (k v : ℕ)
    → k < length xs
    → value (set xs k v) + get_or xs k 0 * base ^ k ≡ value xs + v * base ^ k
unfolding value
set-value [] k v h = absurd (omega arith)
set-value (x ∷ xs) zero v h = rw (pow-zero base) (omega arith)
set-value (x ∷ xs) (suc k) v h = rw (pow-suc base k) (omega (arith, set-value xs k v (omega arith)))

set-AreLimbs : (xs : List ℕ) (k v : ℕ) → AreLimbs xs → v < base → AreLimbs (set xs k v)
set-AreLimbs [] k v h hv = tt
set-AreLimbs (x ∷ xs) zero v (hx, h) hv = (hv, h)
set-AreLimbs (x ∷ xs) (suc k) v (hx, h) hv = (hx, set-AreLimbs xs k v h hv)

pub base_pow : (n : ℕ) → base ^ n ≡ 2 ^ (n * 32)
base_pow zero = refl
base_pow (suc n) =
    let e : suc n * 32 ≡ n * 32 + 32 = omega arith in
    rw (pow-suc base n, e, pow-add 2 (n * 32) 32, base_pow n)

-- The place of a bit is that of its limb times that of the bit in the limb.
two_pow_split : (n : ℕ) → 2 ^ n ≡ 2 ^ (n % 32) * base ^ (n / 32)
two_pow_split n =
    let parts : n ≡ n % 32 + n / 32 * 32 = omega arith in
    ap (λ t. 2 ^ t) parts
    ∙ pow-add 2 (n % 32) (n / 32 * 32)
    ∙ ap (λ t. 2 ^ (n % 32) * t) (sym (base_pow (n / 32)))

even_room : (limb p w : ℕ) → 0 < p → limb < p * (2 * w) → limb / p % 2 ≢ 1 → limb + p < p * (2 * w)
even_room limb p w positive h even =
    let u = limb / p in
    let below : u < 2 * w = (div-lt_iff_lt-mul positive).1 (rw mul_comm h) in
    let room : u + 2 ≤ 2 * w = omega arith in
    omega (arith, lt-mul-div-succ limb positive, mul-le-mul_left p room)

or_bit-lt : (limb k : ℕ) → limb < base → k < 32 → or_bit limb k < base
or_bit-lt limb k h hk =
    let (split, positive) = two_powers k hk in
    let w = 2 ^ (31 - k) in
    let p = 2 ^ k in
    let room : limb / p % 2 ≢ 1 → limb + p < base =
      λ even. rw split (even_room limb p w positive (rw split at h) even) in
    ground (arith, room)

-- Setting a bit that is clear adds its place value.
pub set_bit-value :
    (xs : List ℕ) (i : ℕ)
    → i < length xs * 32
    → bit_at xs i ≡ 0
    → value (set_bit xs i) ≡ value xs + 2 ^ i
unfolding set_bit bit_at
set_bit-value xs i h clear =
    let limb = get_or xs (i / 32) 0 in
    let v = limb + 2 ^ (i % 32) in
    let there : or_bit limb (i % 32) ≡ v = ground arith in
    rw (there, two_pow_split i) (omega (arith, set-value xs (i / 32) v (omega arith)))

pub set_bit-AreLimbs : (xs : List ℕ) (i : ℕ) → AreLimbs xs → AreLimbs (set_bit xs i)
unfolding set_bit
set_bit-AreLimbs xs i h =
    set-AreLimbs xs (i / 32) _ h (or_bit-lt _ (i % 32) (get_or-lt-base xs (i / 32) h) (omega arith))

pub length-set_bit : (xs : List ℕ) (i : ℕ) → length (set_bit xs i) ≡ length xs
unfolding set_bit
length-set_bit xs i = length-set xs (i / 32) _
