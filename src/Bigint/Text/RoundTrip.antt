-- ===== src/Bigint/Text/RoundTrip.antt =====
-- src/runtime/bigint.c: `csBigFromText` reads back what `csBigToText` writes.
use cscript.Prelude.{
  ℕ, zero, suc, ◌+◌, ◌*◌, ◌^◌, ◌≤◌, ◌<◌, ◌≡◌, ◌≢◌, refl, sym, ap, ◌∙◌, List, [], ◌∷◌, length, inl,
  inr, Bool-cases, arith, ◌==◌, Bool, true, false, if◌then◌else◌, some, some-cancel, none≢some,
}
use mathlib.Core.Path.{ap₂}
use cscript.Prelude.Int.{pos, ◌+ℤ◌, ◌*ℤ◌}
use cscript.Bigint.{
  Big, trim, is_zero, zero_big, with_sign, from_int64, add, multiply, add_magnitude, add_loop,
  trim_count,
}
use cscript.Bigint.Value.{value, IsValid, is_zero-value, length-of_not_zero}
use cscript.Bigint.Sum.{
  signed, to_ℤ, to_ℤ-injective, add-IsValid, add-to_ℤ, to_ℤ-with_sign, with_sign-IsValid,
  zero_big-IsValid, from_int64-IsValid, from_int64-to_ℤ,
}
use cscript.Bigint.Product.{multiply-to_ℤ, multiply-IsValid}
use cscript.Bigint.Text.{
  digit_value, read_sign, read_radix, shift_digit, read_digit, read_digits, read_magnitude,
  from_text, divide_by_small, digit_char, print_digits, to_text,
}
use cscript.Bigint.Text.Print.{
  divide_by_small-value, negative-divide_by_small, All, value-room, print_digits-total,
  print_digits-All,
}

-- A digit that was written is read back.
digit_value-digit_char : (d : ℕ) → d < 36 → digit_value (digit_char d) ≡ some d
unfolding digit_value digit_char
digit_value-digit_char d h = ground arith

digit_char-ne-underscore : (d : ℕ) → d < 36 → digit_char d ≢ b'_'
unfolding digit_char
digit_char-ne-underscore d h = ground arith

read_digit-digit_char :
    (radix d : ℕ) (out : Big)
    → d < radix
    → radix ≤ 36
    → read_digit radix (digit_char d) out ≡ some (shift_digit radix out d)
unfolding read_digit
read_digit-digit_char radix d out h hr =
    let plain : (digit_char d == b'_') ≡ false =
      ground (arith, digit_char-ne-underscore d (omega arith)) in
    rw (plain, digit_value-digit_char d (omega arith)) (ground arith)

to_ℤ-plain : (v : Big) → v.negative ≡ false → to_ℤ v ≡ pos (value v.limbs)
unfolding to_ℤ signed
to_ℤ-plain v h = rw h

digit-to_ℤ : (n : ℕ) → n < 2 ^ 64 → to_ℤ (from_int64 false n) ≡ pos n
unfolding signed
digit-to_ℤ n h = from_int64-to_ℤ false n h

read_digits-cons :
    (radix c : ℕ) (ds : List ℕ) (out next : Big)
    → read_digit radix c out ≡ some next
    → read_digits radix (c ∷ ds) out ≡ read_digits radix ds next
unfolding read_digits
read_digits-cons radix c ds out next e = rw (e, read_digits)

zero_big_unique : (v : Big) → IsValid v → is_zero v ≡ true → v ≡ zero_big
unfolding is_zero to_ℤ signed value
zero_big_unique v h e =
    to_ℤ-injective v zero_big h zero_big-IsValid
      (zero (is_zero-value v e) (h.signed (no_limbs v e)))
  where
    no_limbs : (v : Big) → is_zero v ≡ true → length v.limbs ≡ 0
    no_limbs v e = ground arith

    zero : value v.limbs ≡ 0 → v.negative ≡ false → to_ℤ v ≡ to_ℤ zero_big
    zero z s = rw (to_ℤ-plain v s, z) refl

pos-linear : (q d r n : ℕ) → q * d + r ≡ n → pos q *ℤ pos d +ℤ pos r ≡ pos n
unfolding ◌*ℤ◌ ◌+ℤ◌
pos-linear q d r n h = ground arith

-- Reading a digit undoes the division that wrote it.
shift_digit-divide_by_small :
    (w : Big) (radix : ℕ)
    → IsValid w
    → w.negative ≡ false
    → 2 ≤ radix
    → radix ≤ 36
    → let (q, r) = divide_by_small w radix in shift_digit radix q r ≡ w
unfolding shift_digit
shift_digit-divide_by_small w radix h plain lo hi =
    let (split, small, valid) = divide_by_small-value w radix h (omega arith) (omega arith) in
    let (q, r) = divide_by_small w radix in
    let scale = from_int64-IsValid false radix in
    let digit = from_int64-IsValid false r in
    let scaled = multiply-IsValid q (from_int64 false radix) valid scale in
    let product : to_ℤ (multiply q (from_int64 false radix)) ≡ pos (value q.limbs) *ℤ pos radix =
      multiply-to_ℤ q _ valid scale
      ∙ ap₂ ◌*ℤ◌ (to_ℤ-plain q (negative-divide_by_small w radix plain))
          (digit-to_ℤ radix (omega arith)) in
    to_ℤ-injective _ w (add-IsValid _ _ scaled digit) h (
      add-to_ℤ _ _ scaled digit
      ∙ ap₂ ◌+ℤ◌ product (digit-to_ℤ r (omega arith))
      ∙ pos-linear (value q.limbs) radix r (value w.limbs) split
      ∙ sym (to_ℤ-plain w plain))

read_digits-digit_char :
    (radix : ℕ) (w : Big) (ds : List ℕ)
    → IsValid w
    → w.negative ≡ false
    → 2 ≤ radix
    → radix ≤ 36
    → let (q, r) = divide_by_small w radix in
      read_digits radix (digit_char r ∷ ds) q ≡ read_digits radix ds w
read_digits-digit_char radix w ds h plain lo hi =
    let small = (divide_by_small-value w radix h (omega arith) (omega arith)).1 in
    let (q, r) = divide_by_small w radix in
    read_digits-cons radix _ ds q _ (read_digit-digit_char radix r q small hi)
    ∙ ap (read_digits radix ds) (shift_digit-divide_by_small w radix h plain lo hi)

read-print_digits :
    (fuel radix : ℕ) (w : Big) (ds : List ℕ) {t : List ℕ}
    → IsValid w
    → w.negative ≡ false
    → 2 ≤ radix
    → radix ≤ 36
    → print_digits fuel radix w ds ≡ some t
    → read_digits radix t zero_big ≡ read_digits radix ds w
unfolding print_digits
read-print_digits zero radix w ds h plain lo hi run = elim (Bool-cases (is_zero w)) [
  | inl e ↦
      rw (zero_big_unique w h e)
        (ap (λ u. read_digits radix u zero_big) (sym (some-cancel (rw e at run))))
  | inr e ↦ absurd (none≢some (rw e at run))
]
read-print_digits (suc fuel) radix w ds h plain lo hi run =
    let (split, small, valid) = divide_by_small-value w radix h (omega arith) (omega arith) in
    let (q, r) = divide_by_small w radix in
    let rest =
      read-print_digits fuel radix q (digit_char r ∷ ds) valid
        (negative-divide_by_small w radix plain) lo hi in
    elim (Bool-cases (is_zero w)) [
      | inl e ↦
          rw (zero_big_unique w h e)
            (ap (λ u. read_digits radix u zero_big) (sym (some-cancel (rw e at run))))
      | inr e ↦ rest (rw e at run) ∙ read_digits-digit_char radix w ds h plain lo hi
    ]

read_digits-nil : (w : Big) → read_digits 10 [] w ≡ some w
unfolding read_digits
read_digits-nil w = refl

digits_ne_nil :
    (v : Big)
    → is_zero v ≡ false
    → (ds : List ℕ) → read_digits 10 ds zero_big ≡ some (record v { negative = false })
    → ds ≢ []
digits_ne_nil v e ds back empty =
    let same =
      some-cancel
        (sym (read_digits-nil zero_big) ∙ ap (λ t. read_digits 10 t zero_big) (sym empty) ∙ back) in
    length-of_not_zero v e (ap (λ (u : Big). length u.limbs) (sym same))

-- A decimal digit.
abbrev IsDecimal : ℕ → Type 0
IsDecimal c = (b'0' ≤ c) × (c ≤ b'9')

digit_char-IsDecimal : (d : ℕ) → d < 10 → IsDecimal (digit_char d)
unfolding digit_char
digit_char-IsDecimal d h = ground arith

read_radix-decimal : (ds : List ℕ) → All IsDecimal ds → read_radix ds ≡ (10, ds)
unfolding read_radix
read_radix-decimal [] h = refl
read_radix-decimal (c ∷ []) h = refl
read_radix-decimal (c ∷ m ∷ ds) h = ground arith

read_sign-decimal : (ds : List ℕ) → All IsDecimal ds → read_sign ds ≡ (false, ds)
unfolding read_sign
read_sign-decimal [] h = refl
read_sign-decimal (c ∷ ds) h = ground arith

read_sign-minus : (ds : List ℕ) → read_sign (b'-' ∷ ds) ≡ (true, ds)
unfolding read_sign
read_sign-minus ds = refl

from_text-decimal :
    (negative : Bool) (ds : List ℕ)
    → All IsDecimal ds
    → from_text (if negative then b'-' ∷ ds else ds) ≡ read_magnitude negative 10 ds
unfolding from_text
from_text-decimal true ds h = rw (read_sign-minus, read_radix-decimal ds h)
from_text-decimal false ds h = rw (read_sign-decimal ds h, read_radix-decimal ds h)

with_sign_self : (v : Big) → IsValid v → with_sign v.negative (record v { negative = false }) ≡ v
unfolding to_ℤ
with_sign_self v h =
    let w : Big = record v { negative = false } in
    let valid : IsValid w = record { limbs = h.limbs; trimmed = h.trimmed; signed = λ _. refl } in
    to_ℤ-injective _ v (with_sign-IsValid v.negative w valid) h
      (to_ℤ-with_sign v.negative w ∙ to_ℤ-parts v)
  where
    to_ℤ-parts : (v : Big) → signed v.negative (value v.limbs) ≡ to_ℤ v
    to_ℤ-parts v = refl

read_magnitude-digits :
    (negative : Bool) (ds : List ℕ) (w : Big)
    → ds ≢ []
    → read_digits 10 ds zero_big ≡ some w
    → read_magnitude negative 10 ds ≡ some (with_sign negative w)
unfolding read_magnitude
read_magnitude-digits negative [] w ne h = absurd (ne refl)
read_magnitude-digits negative (c ∷ ds) w ne h = rw (h, read_magnitude)

from_text-zero : from_text (b'0' ∷ []) ≡ some zero_big
unfolding from_text read_sign read_radix read_magnitude read_digits read_digit digit_value
    shift_digit multiply is_zero add add_magnitude add_loop with_sign trim trim_count from_int64
from_text-zero = refl

-- For a valid integer `csBigToText` ends with a decimal text, which `csBigFromText` reads back as the
-- same integer.
pub from_text-to_text :
    (v : Big) → IsValid v → (t : List ℕ) × (to_text v 10 ≡ some t) × (from_text t ≡ some v)
unfolding to_text
from_text-to_text v h = elim (Bool-cases (is_zero v)) [
  | inl e ↦ (b'0' ∷ [], rw e, from_text-zero ∙ ap some (sym (zero_big_unique v h e)))
  | inr e ↦
      let w : Big = record v { negative = false } in
      let valid : IsValid w = record { limbs = h.limbs; trimmed = h.trimmed; signed = λ _. refl } in
      let fuel = length v.limbs * 32 in
      let (ds, run, short) =
        print_digits-total fuel 10 w [] valid (omega arith) (omega arith) (value-room v h) in
      let digits =
        print_digits-All IsDecimal fuel 10 w [] digit_char-IsDecimal (omega arith) (omega arith)
          valid tt run in
      let back =
        read-print_digits fuel 10 w [] valid refl (omega arith) (omega arith) run
        ∙ read_digits-nil w in
      (
        (if v.negative then b'-' ∷ ds else ds),
        rw (e, run),
        from_text-decimal v.negative ds digits
            ∙ read_magnitude-digits v.negative ds w (digits_ne_nil v e ds back) back
            ∙ ap some (with_sign_self v h),
      )
]
