-- ===== src/Bigint/Value.antt =====
-- src/runtime/bigint.c: the number that a list of limbs stands for, and what `trim` does to it.
use cscript.Prelude.{
  ℕ, zero, suc, ◌+◌, ◌-◌, ◌*◌, ◌^◌, ◌≤◌, ◌<◌, ◌≡◌, ◌≢◌, refl, sym, ap, ◌∙◌, List, [], ◌∷◌, ◌++◌,
  length, get_or, take, inl, inr, Bool-cases, arith, ◌==◌, ==_iff, ◌⊎◌, true, false,
}
use native.Mathlib.Nat.{pow-suc, pow-zero, mul-le-mul_right, pow-le-pow_right}
use cscript.Prelude.Arith.{pow-pos}
use cscript.Bigint.{Big, base, trim_count, trim, is_zero}

-- Little-endian, in base 2 ^ 32.
unfoldable pub value : List ℕ → ℕ
value [] = 0
value (x ∷ xs) = x + base * value xs

-- Every limb is a `uint32_t`.
abbrev pub AreLimbs : List ℕ → Type 0
AreLimbs [] = Unit
AreLimbs (x ∷ xs) = (x < base) × AreLimbs xs

-- The top limb is not zero.
abbrev pub IsTrimmed : List ℕ → Type 0
IsTrimmed xs = length xs ≢ 0 → get_or xs (length xs - 1) 0 ≢ 0

pub value-lt : (xs : List ℕ) → AreLimbs xs → value xs < base ^ length xs
unfolding value
value-lt [] h = omega (arith, pow-zero base)
value-lt (x ∷ xs) (hx, h) = omega (arith, pow-suc base (length xs), value-lt xs h)

pub value-append : (xs ys : List ℕ) → value (xs ++ ys) ≡ value xs + base ^ length xs * value ys
unfolding value
value-append [] ys = omega (arith, pow-zero base)
value-append (x ∷ xs) ys = rw (pow-suc base (length xs)) (omega (arith, value-append xs ys))

pub value-take-suc :
    (xs : List ℕ) (n : ℕ) → value (take (suc n) xs) ≡ value (take n xs) + get_or xs n 0 * base ^ n
unfolding value
value-take-suc [] zero = omega (arith, pow-zero base)
value-take-suc [] (suc n) = omega arith
value-take-suc (x ∷ xs) zero = omega (arith, pow-zero base)
value-take-suc (x ∷ xs) (suc n) = rw (pow-suc base n) (omega (arith, value-take-suc xs n))

pub take_all {ℓ} : {A : Type ℓ} (xs : List A) → take (length xs) xs ≡ xs
take_all [] = refl
take_all (x ∷ xs) = ap (λ r. x ∷ r) (take_all xs)

pub AreLimbs-take : (xs : List ℕ) (n : ℕ) → AreLimbs xs → AreLimbs (take n xs)
AreLimbs-take xs zero h = tt
AreLimbs-take [] (suc n) h = tt
AreLimbs-take (x ∷ xs) (suc n) (hx, h) = (hx, AreLimbs-take xs n h)

pub get_or-lt-base : (xs : List ℕ) (i : ℕ) → AreLimbs xs → get_or xs i 0 < base
get_or-lt-base [] i h = omega arith
get_or-lt-base (x ∷ xs) zero (hx, h) = hx
get_or-lt-base (x ∷ xs) (suc i) (hx, h) = get_or-lt-base xs i h

pub value-take-lt : (xs : List ℕ) (n : ℕ) → AreLimbs xs → value (take n xs) < base ^ n
unfolding value
value-take-lt xs zero h = omega (arith, pow-zero base)
value-take-lt [] (suc n) h = pow-pos base (suc n) (omega arith)
value-take-lt (x ∷ xs) (suc n) (hx, h) = rw (pow-suc base n) (omega (arith, value-take-lt xs n h))

-- The loop of `trim` finds the count of a number with the same value and no zero limb at the top.
record Trims (xs : List ℕ) (n count : ℕ) : Type 0 where
  within : count ≤ n
  same : value (take count xs) ≡ value (take n xs)
  top : count ≢ 0 → get_or xs (count - 1) 0 ≢ 0

trim_count-Trims : (xs : List ℕ) (n : ℕ) → Trims xs n (trim_count xs n)
unfolding trim_count
trim_count-Trims xs zero = record { within = omega arith; same = refl; top = λ h. absurd (h refl) }
trim_count-Trims xs (suc n) =
    let rest = trim_count-Trims xs n in
    elim (Bool-cases (get_or xs n 0 == 0)) [
      | inl e ↦ rw e (record {
        within = omega (arith, rest.within);
        same = ground (arith, rest.same, value-take-suc xs n);
        top = rest.top;
      })
      | inr e ↦ rw e (record { within = omega arith; same = refl; top = λ _. ground arith })
    ]

-- What `trim` is for: the magnitude has no zero limb at the top, and zero has no sign.
pub record IsValid (v : Big) : Type 0 where
  pub limbs : AreLimbs v.limbs
  pub trimmed : IsTrimmed v.limbs
  pub signed : length v.limbs ≡ 0 → v.negative ≡ false

length-take_le {ℓ} : {A : Type ℓ} (xs : List A) (n : ℕ) → n ≤ length xs → length (take n xs) ≡ n
length-take_le xs zero h = refl
length-take_le [] (suc n) h = absurd (omega arith)
length-take_le (x ∷ xs) (suc n) h = ap suc (length-take_le xs n (omega arith))

get_or-take {ℓ} :
    {A : Type ℓ} (xs : List A) (n i : ℕ) (d : A) → i < n → get_or (take n xs) i d ≡ get_or xs i d
get_or-take xs zero i d h = absurd (omega arith)
get_or-take [] (suc n) i d h = refl
get_or-take (x ∷ xs) (suc n) zero d h = refl
get_or-take (x ∷ xs) (suc n) (suc i) d h = get_or-take xs n i d (omega arith)

pub trim-IsValid : (v : Big) → AreLimbs v.limbs → IsValid (trim v)
unfolding trim
trim-IsValid v h =
    let t = trim_count-Trims v.limbs (length v.limbs) in
    let count = trim_count v.limbs (length v.limbs) in
    let long = length-take_le v.limbs count t.within in
    record {
      limbs = AreLimbs-take v.limbs count h;
      trimmed = λ ne.
          rw (long, get_or-take v.limbs count (count - 1) 0 (omega arith)) (t.top (omega arith));
      signed = λ e. ground arith;
    }

-- `trim` keeps the magnitude.
pub value-trim : (v : Big) → value (trim v).limbs ≡ value v.limbs
unfolding trim
value-trim v = (trim_count-Trims v.limbs (length v.limbs)).same ∙ ap value (take_all v.limbs)

-- A trimmed magnitude is at least the place value of its top limb.
pub pow-le-value : (xs : List ℕ) (n : ℕ) → IsTrimmed xs → length xs ≡ suc n → base ^ n ≤ value xs
pow-le-value xs n t e =
    let whole : value xs ≡ value (take n xs) + get_or xs n 0 * base ^ n =
      ap value (sym (take_all xs)) ∙ ap (λ k. value (take k xs)) e ∙ value-take-suc xs n in
    let top : 1 ≤ get_or xs n 0 =
      ground (arith, t (omega arith), ap (λ k. get_or xs (k - 1) 0) e) in
    omega (arith, whole, mul-le-mul_right (base ^ n) top)

pub value-eq-zero : (xs : List ℕ) → IsTrimmed xs → value xs ≡ 0 → xs ≡ []
value-eq-zero [] t e = refl
value-eq-zero (x ∷ xs) t e = absurd (
    omega (arith, pow-le-value (x ∷ xs) (length xs) t refl, pow-pos base (length xs) (omega arith)))

value-injective_same_length :
    (xs ys : List ℕ)
    → AreLimbs xs
    → AreLimbs ys
    → length xs ≡ length ys
    → value xs ≡ value ys
    → xs ≡ ys
unfolding value
value-injective_same_length [] [] h k l e = refl
value-injective_same_length [] (y ∷ ys) h k l e = absurd (omega arith)
value-injective_same_length (x ∷ xs) [] h k l e = absurd (omega arith)
value-injective_same_length (x ∷ xs) (y ∷ ys) (hx, h) (ky, k) l e =
    let tails = value-injective_same_length xs ys h k (omega arith) (omega arith) in
    let heads : x ≡ y = omega arith in cc

pow-lt-pow_length : (m n : ℕ) → m < n → base ^ m * base ≤ base ^ n
pow-lt-pow_length m n h = rw (← pow-suc base m) (pow-le-pow_right (omega arith) h)

-- The longer of two trimmed magnitudes is the larger.
pub value-lt_of_shorter :
    (xs ys : List ℕ) → AreLimbs xs → IsTrimmed ys → length xs < length ys → value xs < value ys
value-lt_of_shorter xs ys h t l =
    let low = pow-le-value ys (length ys - 1) t (omega arith) in
    let place =
      pow-le-pow_right {n = base} (omega arith) {i = length xs} {j = length ys - 1} (omega arith) in
    omega (arith, value-lt xs h, low, place)

-- Two valid magnitudes with one value are the same limbs.
pub value-injective :
    (xs ys : List ℕ)
    → AreLimbs xs
    → AreLimbs ys
    → IsTrimmed xs
    → IsTrimmed ys
    → value xs ≡ value ys
    → xs ≡ ys
value-injective xs ys h k t u e =
    value-injective_same_length xs ys h k
      (ground (arith, value-lt_of_shorter xs ys h u, value-lt_of_shorter ys xs k t)) e

-- `trim` clears the sign of zero only.
pub negative-trim :
    (v : Big)
    → ((trim v).negative ≡ v.negative) ⊎ ((value v.limbs ≡ 0) × ((trim v).negative ≡ false))
unfolding trim value
negative-trim v =
    let count = trim_count v.limbs (length v.limbs) in
    elim (Bool-cases (count == 0)) [ inr e ↦ inl (rw e) | inl e ↦ inr (value-of_no_limbs e, rw e) ]
  where
    value-of_no_limbs : (trim_count v.limbs (length v.limbs) == 0) ≡ true → value v.limbs ≡ 0
    value-of_no_limbs e = sym (value-trim v) ∙ ap (λ k. value (take k v.limbs)) ((==_iff _ 0).0 e)

value-of_nil : (xs : List ℕ) → length xs ≡ 0 → value xs ≡ 0
unfolding value
value-of_nil [] e = refl
value-of_nil (x ∷ xs) e = absurd (omega arith)

-- `csBigIsZero` tests the number.
pub is_zero-value : (v : Big) → is_zero v ≡ true → value v.limbs ≡ 0
unfolding is_zero
is_zero-value v e = value-of_nil v.limbs (ground arith)

pub length-of_not_zero : (v : Big) → is_zero v ≡ false → length v.limbs ≢ 0
unfolding is_zero
length-of_not_zero v e = ground arith

pub value-pos_of_not_zero : (v : Big) → IsValid v → is_zero v ≡ false → 0 < value v.limbs
value-pos_of_not_zero v h e =
    let some_limb = length-of_not_zero v e in
    omega (
      arith,
      pow-le-value v.limbs (length v.limbs - 1) h.trimmed (omega arith),
      pow-pos base (length v.limbs - 1) (omega arith),
    )

pub value-pos_of_negative : (v : Big) → IsValid v → v.negative ≡ true → 0 < value v.limbs
value-pos_of_negative v h n = elim (Bool-cases (is_zero v)) [
  | inl e ↦ unfold is_zero in ground (arith, h.signed)
  | inr e ↦ value-pos_of_not_zero v h e
]
