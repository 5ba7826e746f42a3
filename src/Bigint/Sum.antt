-- ===== src/Bigint/Sum.antt =====
-- src/runtime/bigint.c: signed addition, subtraction, negation and comparison against the integers.
use cscript.Prelude.{
  ℕ, ◌+◌, ◌<◌, ◌≡◌, refl, sym, ap, ◌∙◌, List, [], ◌∷◌, inl, inr, Bool-cases, arith, Bool, true,
  false, not, if◌then◌else◌, bool_eq, bool_eq→eq, bool_eq→not, ◌/◌, ◌%◌, ◌^◌,
}
use cscript.Prelude.Int.{ℤ, pos, pos_part, neg_part, sub_ℕ, ◌+ℤ◌, ◌-ℤ◌, int_laws}
use mathlib.Core.Path.{ap₂}
use Prim.Native.Nat.{compare, Ordering}
use cscript.Bigint.{
  Big, base, trim, with_sign, zero_big, is_zero, add, add_opposite, compare_big, from_int64,
  flip_order, negate, subtract, subtract_magnitude, sub_loop,
}
use cscript.Bigint.Value.{
  value, IsValid, trim-IsValid, value-trim, negative-trim, value-injective, is_zero-value,
  length-of_not_zero, value-pos_of_negative,
}
use cscript.Bigint.Magnitude.{
  add_magnitude-IsValid, value-add_magnitude, compare_magnitude-compare, subtract_magnitude-IsValid,
  value-subtract_magnitude,
}

-- A sign and a magnitude as an integer.
unfoldable pub signed : Bool → ℕ → ℤ
signed sign n = if sign then sub_ℕ 0 n else pos n

-- The integer that a `BigInt` stands for.
unfoldable pub to_ℤ : Big → ℤ
to_ℤ v = signed v.negative (value v.limbs)

pub signed-zero : (s : Bool) → signed false 0 ≡ signed s 0
unfolding signed
signed-zero true = refl
signed-zero false = refl

pub to_ℤ-trim : (v : Big) → to_ℤ (trim v) ≡ signed v.negative (value v.limbs)
unfolding to_ℤ
to_ℤ-trim v = elim (negative-trim v) [
  | inl e ↦ ap₂ signed e (value-trim v)
  | inr (z, e) ↦ rw (value-trim v, z, e) (signed-zero v.negative)
]

pub to_ℤ-with_sign : (s : Bool) (v : Big) → to_ℤ (with_sign s v) ≡ signed s (value v.limbs)
unfolding with_sign
to_ℤ-with_sign s v = to_ℤ-trim (record v { negative = s })

pub with_sign-IsValid : (s : Bool) (v : Big) → IsValid v → IsValid (with_sign s v)
unfolding with_sign
with_sign-IsValid s v h = trim-IsValid (record v { negative = s }) h.limbs

pub signed-add : (s : Bool) (m n : ℕ) → signed s (m + n) ≡ signed s m +ℤ signed s n
unfolding ◌+ℤ◌ signed
signed-add s m n = ground arith

signed-sub_left : (s : Bool) (d m n : ℕ) → d + n ≡ m → signed s d ≡ signed s m +ℤ signed (not s) n
unfolding ◌+ℤ◌ signed
signed-sub_left s d m n h = ground arith

signed-sub_right :
    (s : Bool) (d m n : ℕ) → d + m ≡ n → signed (not s) d ≡ signed s m +ℤ signed (not s) n
unfolding ◌+ℤ◌ signed
signed-sub_right s d m n h = ground arith

signed-cancel : (s : Bool) (m n : ℕ) → m ≡ n → pos 0 ≡ signed s m +ℤ signed (not s) n
unfolding ◌+ℤ◌ signed
signed-cancel s m n h = ground arith

add_opposite-to_ℤ :
    (order : Ordering) (a b : Big)
    → IsValid a
    → IsValid b
    → b.negative ≡ not a.negative
    → compare (value a.limbs) (value b.limbs) ≡ order
    → to_ℤ (add_opposite order a b)
      ≡ signed a.negative (value a.limbs) +ℤ signed b.negative (value b.limbs)
unfolding add_opposite
add_opposite-to_ℤ Ordering.eq a b ha hb n e =
    rw n (unfold to_ℤ value signed in signed-cancel a.negative _ _ (ground arith))
add_opposite-to_ℤ Ordering.gt a b ha hb n e =
    let d = value-subtract_magnitude a.limbs b.limbs ha.limbs hb.limbs (ground arith) in
    rw (n, to_ℤ-with_sign) (signed-sub_left a.negative _ _ _ d)
add_opposite-to_ℤ Ordering.lt a b ha hb n e =
    let d = value-subtract_magnitude b.limbs a.limbs hb.limbs ha.limbs (ground arith) in
    rw (n, to_ℤ-with_sign) (signed-sub_right a.negative _ _ _ d)

-- On valid integers of any signs `csBigAdd` gives the sum of the integers.
pub add-to_ℤ : (a b : Big) → IsValid a → IsValid b → to_ℤ (add a b) ≡ to_ℤ a +ℤ to_ℤ b
unfolding add to_ℤ
add-to_ℤ a b ha hb = elim (Bool-cases (bool_eq a.negative b.negative)) [
  | inl e ↦
      let m = value-add_magnitude a.limbs b.limbs ha.limbs hb.limbs in
      rw (e, bool_eq→eq a.negative b.negative e)
        (to_ℤ-with_sign a.negative _ ∙ ap (signed a.negative) m ∙ signed-add a.negative _ _)
  | inr e ↦ rw e (
      add_opposite-to_ℤ _ a b ha hb (bool_eq→not _ _ e)
        (sym (compare_magnitude-compare a.limbs b.limbs ha.limbs hb.limbs ha.trimmed hb.trimmed)))
]

pub zero_big-IsValid : IsValid zero_big
zero_big-IsValid = record { limbs = tt; trimmed = λ h. absurd (h refl); signed = λ _. refl }

add_opposite-IsValid :
    (order : Ordering) (a b : Big) → IsValid a → IsValid b → IsValid (add_opposite order a b)
unfolding add_opposite
add_opposite-IsValid Ordering.eq a b ha hb = zero_big-IsValid
add_opposite-IsValid Ordering.gt a b ha hb =
    with_sign-IsValid _ _ (subtract_magnitude-IsValid a.limbs b.limbs ha.limbs hb.limbs)
add_opposite-IsValid Ordering.lt a b ha hb =
    with_sign-IsValid _ _ (subtract_magnitude-IsValid b.limbs a.limbs hb.limbs ha.limbs)

pub add-IsValid : (a b : Big) → IsValid a → IsValid b → IsValid (add a b)
unfolding add
add-IsValid a b ha hb = elim (Bool-cases (bool_eq a.negative b.negative)) [
  | inl e ↦ rw e (with_sign-IsValid a.negative _ (add_magnitude-IsValid a.limbs b.limbs))
  | inr e ↦ rw e (add_opposite-IsValid _ a b ha hb)
]

pub negate-IsValid : (v : Big) → IsValid v → IsValid (negate v)
unfolding negate
negate-IsValid v h = elim (Bool-cases (is_zero v)) [
  | inl e ↦ rw e h
  | inr e ↦ rw e (record {
    limbs = h.limbs;
    trimmed = h.trimmed;
    signed = λ z. absurd (length-of_not_zero v e z);
  })
]

signed-not : (s : Bool) (n : ℕ) → signed (not s) n ≡ pos 0 -ℤ signed s n
unfolding signed ◌-ℤ◌
signed-not s n = ground arith

signed-not_zero : (s : Bool) → signed s 0 ≡ pos 0 -ℤ signed s 0
unfolding signed ◌-ℤ◌
signed-not_zero s = ground arith

-- `csBigNegate` negates.
pub negate-to_ℤ : (v : Big) → to_ℤ (negate v) ≡ pos 0 -ℤ to_ℤ v
unfolding negate to_ℤ
negate-to_ℤ v = elim (Bool-cases (is_zero v)) [
  | inl e ↦ rw (e, is_zero-value v e) (signed-not_zero v.negative)
  | inr e ↦ rw e (signed-not v.negative _)
]

-- `csBigSubtract` flips the sign of its second operand and adds.
subtract-add-negate : (a b : Big) → subtract a b ≡ add a (negate b)
unfolding subtract negate
subtract-add-negate a b = refl

pub subtract-IsValid : (a b : Big) → IsValid a → IsValid b → IsValid (subtract a b)
subtract-IsValid a b ha hb =
    rw subtract-add-negate (add-IsValid a (negate b) ha (negate-IsValid b hb))

+ℤ_negated : (a b : ℤ) → a +ℤ (pos 0 -ℤ b) ≡ a -ℤ b
+ℤ_negated a b = omega int_laws

-- On valid integers `csBigSubtract` gives the difference of the integers.
pub subtract-to_ℤ : (a b : Big) → IsValid a → IsValid b → to_ℤ (subtract a b) ≡ to_ℤ a -ℤ to_ℤ b
subtract-to_ℤ a b ha hb =
    rw (subtract-add-negate, add-to_ℤ a (negate b) ha (negate-IsValid b hb), negate-to_ℤ)
      (+ℤ_negated _ _)

-- The order of two integers.
abbrev pub compare_ℤ : ℤ → ℤ → Ordering
compare_ℤ a b = compare (pos_part a + neg_part b) (pos_part b + neg_part a)

signed-compare :
    (s t : Bool) (m n : ℕ)
    → (s ≡ true → 0 < m)
    → (t ≡ true → 0 < n)
    → (if bool_eq s t
        then if s then flip_order (compare m n) else compare m n
        else (if s then Ordering.lt else Ordering.gt))
      ≡ compare_ℤ (signed s m) (signed t n)
unfolding signed
signed-compare s t m n h k = ground arith

-- On valid integers `csBigCompare` gives the order of the integers.
pub compare_big-to_ℤ :
    (a b : Big) → IsValid a → IsValid b → compare_big a b ≡ compare_ℤ (to_ℤ a) (to_ℤ b)
unfolding compare_big to_ℤ
compare_big-to_ℤ a b ha hb =
    rw (compare_magnitude-compare a.limbs b.limbs ha.limbs hb.limbs ha.trimmed hb.trimmed) (
      signed-compare a.negative b.negative _ _ (value-pos_of_negative a ha)
        (value-pos_of_negative b hb))

signed-injective :
    (s t : Bool) (m n : ℕ)
    → (s ≡ true → 0 < m)
    → (t ≡ true → 0 < n)
    → signed s m ≡ signed t n
    → (s ≡ t) × (m ≡ n)
unfolding signed
signed-injective s t m n h k e = ground arith

-- A valid representation is unique: equal integers are equal structures.
pub to_ℤ-injective : (a b : Big) → IsValid a → IsValid b → to_ℤ a ≡ to_ℤ b → a ≡ b
unfolding to_ℤ
to_ℤ-injective a b ha hb e =
    let (sign, size) =
      signed-injective a.negative b.negative _ _ (value-pos_of_negative a ha)
        (value-pos_of_negative b hb) e in
    let same = value-injective a.limbs b.limbs ha.limbs hb.limbs ha.trimmed hb.trimmed size in
    λ i. record { limbs = same i; negative = sign i }

-- `csBigFromInt64` represents its argument.
pub value-from_int64 : (s : Bool) (n : ℕ) → n < 2 ^ 64 → value (from_int64 s n).limbs ≡ n
unfolding from_int64 value
value-from_int64 s n h =
    value-trim (record { limbs = n % base ∷ n / base % base ∷ []; negative = s }) ∙ (omega arith)

pub from_int64-IsValid : (s : Bool) (n : ℕ) → IsValid (from_int64 s n)
unfolding from_int64
from_int64-IsValid s n =
    trim-IsValid (record { limbs = n % base ∷ n / base % base ∷ []; negative = s })
      (omega arith, (omega arith, tt))

pub from_int64-to_ℤ : (s : Bool) (n : ℕ) → n < 2 ^ 64 → to_ℤ (from_int64 s n) ≡ signed s n
unfolding from_int64 value
from_int64-to_ℤ s n h =
    to_ℤ-trim (record { limbs = n % base ∷ n / base % base ∷ []; negative = s })
    ∙ ap (signed s) (omega arith)

pub negative-trim-false : (v : Big) → v.negative ≡ false → (trim v).negative ≡ false
negative-trim-false v e = elim (negative-trim v) [ inl same ↦ same ∙ e | inr (z, f) ↦ f ]

-- Sums of numbers without a sign, as long division makes them.
pub add_unsigned :
    (a b : Big)
    → IsValid a
    → IsValid b
    → a.negative ≡ false
    → b.negative ≡ false
    → (value (add a b).limbs ≡ value a.limbs + value b.limbs) × ((add a b).negative ≡ false)
unfolding add with_sign
add_unsigned a b ha hb na nb =
    rw (na, nb)
      (
        value-trim _ ∙ value-add_magnitude a.limbs b.limbs ha.limbs hb.limbs,
        negative-trim-false _ refl,
      )

pub negative-from_int64 : (n : ℕ) → (from_int64 false n).negative ≡ false
unfolding from_int64
negative-from_int64 n =
    negative-trim-false (record { limbs = n % base ∷ n / base % base ∷ []; negative = false }) refl

-- `trim` again, with a sign given by the caller.
pub value-with_sign : (s : Bool) (v : Big) → value (with_sign s v).limbs ≡ value v.limbs
unfolding with_sign
value-with_sign s v = value-trim (record v { negative = s })

pub negative-subtract_magnitude : (a b : List ℕ) → (subtract_magnitude a b).negative ≡ false
unfolding subtract_magnitude
negative-subtract_magnitude a b =
    negative-trim-false (record { limbs = sub_loop a b 0; negative = false }) refl
