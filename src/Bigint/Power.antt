-- ===== src/Bigint/Power.antt =====
-- src/runtime/bigint.c: square and multiply against the power of the integers.
use cscript.Prelude.{
  ℕ, zero, suc, ◌+◌, ◌*◌, ◌/◌, ◌%◌, ◌^◌, ◌≡◌, ◌≢◌, sym, ap, ◌∙◌, List, length, inl, inr, Bool-cases,
  arith, ◌==◌, true, false, none, some,
}
use cscript.Prelude.Int.{ℤ, pos, ◌*ℤ◌, *ℤ_assoc, *ℤ_one}
use mathlib.Core.Path.{ap₂}
use native.Mathlib.Nat.{add-zero, add-suc, pow-suc, div-div-eq-div-mul, div-eq_of_lt, div-one}
use cscript.Bigint.{Big, from_int64, multiply}
use cscript.Bigint.Value.{value, AreLimbs, IsValid, value-lt}
use cscript.Bigint.Sum.{signed, to_ℤ, from_int64-IsValid, from_int64-to_ℤ}
use cscript.Bigint.Product.{multiply-to_ℤ, multiply-IsValid}
use cscript.Bigint.Bits.{bit_at, bit_at-value, base_pow}
use cscript.Bigint.Division.{power_loop, power}

-- The integer power.
unfoldable pub pow_ℤ : ℤ → ℕ → ℤ
pow_ℤ b zero = pos 1
pow_ℤ b (suc n) = pow_ℤ b n *ℤ b

pow_ℤ-add : (b : ℤ) (m n : ℕ) → pow_ℤ b (m + n) ≡ pow_ℤ b m *ℤ pow_ℤ b n
unfolding pow_ℤ
pow_ℤ-add b m zero = rw add-zero (sym (*ℤ_one (pow_ℤ b m)))
pow_ℤ-add b m (suc n) =
    rw add-suc (ap (λ t. t *ℤ b) (pow_ℤ-add b m n) ∙ *ℤ_assoc (pow_ℤ b m) (pow_ℤ b n) b)

-- One round: the square, and the base once more if the bit is set.
pow_ℤ_round :
    (b : ℤ) (n : ℕ)
    → (n % 2 ≡ 0 → pow_ℤ b (n / 2) *ℤ pow_ℤ b (n / 2) ≡ pow_ℤ b n)
      × (n % 2 ≢ 0 → pow_ℤ b (n / 2) *ℤ pow_ℤ b (n / 2) *ℤ b ≡ pow_ℤ b n)
pow_ℤ_round b n =
    let square = sym (pow_ℤ-add b (n / 2) (n / 2)) in
    (
      λ even. square ∙ ap (pow_ℤ b) (omega arith),
      λ odd. unfold pow_ℤ in ap (λ t. t *ℤ b) square ∙ ap (pow_ℤ b) (odd_halves n odd),
    )
  where
    odd_halves : (n : ℕ) → n % 2 ≢ 0 → suc (n / 2 + n / 2) ≡ n
    odd_halves n odd = omega arith

-- The bits above `i` of the exponent are in the result.
power_loop-to_ℤ :
    (i : ℕ) (b : Big) (e : List ℕ) (r : Big)
    → IsValid b
    → AreLimbs e
    → IsValid r
    → to_ℤ r ≡ pow_ℤ (to_ℤ b) (value e / 2 ^ i)
    → (to_ℤ (power_loop i b e r) ≡ pow_ℤ (to_ℤ b) (value e / 2 ^ 0)) × IsValid (power_loop i b e r)
unfolding power_loop
power_loop-to_ℤ zero b e r hb he hr h = (h, hr)
power_loop-to_ℤ (suc i) b e r hb he hr h =
    let n = value e / 2 ^ i in
    let bit = bit_at-value e i he in
    let squared = multiply r r in
    let valid = multiply-IsValid r r hr hr in
    let half : to_ℤ r ≡ pow_ℤ (to_ℤ b) (n / 2) =
      h
      ∙ ap (pow_ℤ (to_ℤ b))
          (ap (λ t. value e / t) (pow-suc 2 i) ∙ sym (div-div-eq-div-mul (value e) (2 ^ i) 2)) in
    let square : to_ℤ squared ≡ pow_ℤ (to_ℤ b) (n / 2) *ℤ pow_ℤ (to_ℤ b) (n / 2) =
      multiply-to_ℤ r r hr hr ∙ ap₂ ◌*ℤ◌ half half in
    let round = pow_ℤ_round (to_ℤ b) n in
    elim (Bool-cases (bit_at e i == 0)) [
      | inl z ↦ rw z (power_loop-to_ℤ i b e squared hb he valid (square ∙ round.0 (ground arith)))
      | inr z ↦ rw z (
          power_loop-to_ℤ i b e (multiply squared b) hb he (multiply-IsValid squared b valid hb) (
            multiply-to_ℤ squared b valid hb
            ∙ ap (λ t. t *ℤ to_ℤ b) square
            ∙ round.1 (ground arith)))
    ]

-- For valid integers and an exponent that is not negative, `csBigPower` succeeds with a valid integer,
-- the power.
pub power-to_ℤ :
    (b e : Big)
    → IsValid b
    → IsValid e
    → e.negative ≡ false
    → (p : Big) × (power b e ≡ some p) × IsValid p × (to_ℤ p ≡ pow_ℤ (to_ℤ b) (value e.limbs))
unfolding power
power-to_ℤ b e hb he plain =
    let n = length e.limbs * 32 in
    let one = from_int64 false 1 in
    let no_bits : value e.limbs / 2 ^ n ≡ 0 =
      div-eq_of_lt (rw (← base_pow (length e.limbs)) (value-lt e.limbs he.limbs)) in
    let start : to_ℤ one ≡ pow_ℤ (to_ℤ b) (value e.limbs / 2 ^ n) =
      from_int64-to_ℤ false 1 (omega arith)
      ∙ unfold signed pow_ℤ in ap (pow_ℤ (to_ℤ b)) (sym no_bits) in
    let (result, valid) =
      power_loop-to_ℤ n b e.limbs one hb he.limbs (from_int64-IsValid false 1) start in
    (power_loop n b e.limbs one, rw plain, valid, result ∙ ap (pow_ℤ (to_ℤ b)) (div-one _))

-- A negative exponent is refused.
pub power-negative : (b e : Big) → e.negative ≡ true → power b e ≡ none
unfolding power
power-negative b e h = rw h
