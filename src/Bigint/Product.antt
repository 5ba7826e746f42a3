-- ===== src/Bigint/Product.antt =====
-- src/runtime/bigint.c: schoolbook multiplication against the product of the integers.
use cscript.Prelude.{
  ℕ, zero, suc, ◌+◌, ◌-◌, ◌*◌, ◌/◌, ◌%◌, ◌≤◌, ◌<◌, ◌≡◌, refl, sym, ap, ◌∙◌, List, [], ◌∷◌, ◌++◌,
  length, replicate, length-replicate, ◌⊎◌, inl, inr, Bool-cases, arith, Bool, true, false, not,
  ◌||◌, if◌then◌else◌, bool_eq,
}
use cscript.Prelude.Int.{pos_part, neg_part, sub_ℕ, ◌*ℤ◌}
use native.Mathlib.Nat.{add-zero, add-suc, mul-le-mul}
use mathlib.Core.List.{append-nil}
use cscript.Bigint.{Big, base, word64, mul_row, mul_loop, keep_head, multiply, is_zero, zero_big}
use cscript.Bigint.Value.{value, AreLimbs, IsValid, trim-IsValid, is_zero-value}
use cscript.Bigint.Sum.{signed, signed-zero, to_ℤ, to_ℤ-trim, zero_big-IsValid}

-- One limb times one limb, with a limb of the product and a carry, fits a `uint64_t`.
mul_limb_fits :
    (p x y c : ℕ)
    → p < base
    → x < base
    → y < base
    → c < base
    → word64 (word64 (p + word64 (x * y)) + c) ≡ p + x * y + c
mul_limb_fits p x y c hp hx hy hc =
    let small : x * y ≤ (base - 1) * (base - 1) =
      mul-le-mul {n₂ = base - 1} {m₂ = base - 1} (omega arith) (omega arith) in
    omega arith

quotient_fits : (n : ℕ) → word64 n / base < base
quotient_fits n = omega arith

-- What a row leaves: the limbs `qs` of the sum, and the limbs behind them as they were.
record Row (x : ℕ) (b ps : List ℕ) (c : ℕ) (zs out : List ℕ) : Type 0 where
  qs : List ℕ
  splits : out ≡ qs ++ zs
  long : length qs ≡ suc (length b)
  limbs : AreLimbs qs
  sum : value qs ≡ value ps + x * value b + c

Row-cons :
    (x y p at c : ℕ) (b ps zs rest : List ℕ)
    → at ≡ p + x * y + c
    → Row x b ps (at / base) zs rest
    → Row x (y ∷ b) (p ∷ ps) c zs (at % base ∷ rest)
unfolding value
Row-cons x y p at c b ps zs rest fits r = record {
  qs = at % base ∷ r.qs;
  splits = ap (λ t. at % base ∷ t) r.splits;
  long = ap suc r.long;
  limbs = (omega arith, r.limbs);
  sum = omega (arith, r.sum);
}

mul_row-Row :
    (x : ℕ) (b ps : List ℕ) (c : ℕ) (zs : List ℕ)
    → x < base
    → AreLimbs b
    → AreLimbs ps
    → c < base
    → length ps ≡ length b
    → Row x b ps c zs (mul_row x b (ps ++ 0 ∷ zs) c)
unfolding mul_row value
mul_row-Row x [] [] c zs hx hb hp hc l = record {
  qs = c ∷ [];
  splits = ap (λ t. t ∷ zs) (omega arith);
  long = refl;
  limbs = (hc, tt);
  sum = omega arith;
}
mul_row-Row x [] (p ∷ ps) c zs hx hb hp hc l = absurd (omega arith)
mul_row-Row x (y ∷ b) [] c zs hx hb hp hc l = absurd (omega arith)
mul_row-Row x (y ∷ b) (p ∷ ps) c zs hx (hy, hb) (hp, hps) hc l =
    let at = word64 (word64 (p + word64 (x * y)) + c) in
    let fits = mul_limb_fits p x y c hp hx hy hc in
    Row-cons x y p at c b ps zs _ fits
      (mul_row-Row x b ps (at / base) zs hx hb hps (quotient_fits _) (omega arith))

-- What a round of the outer loop leaves, behind the limb that is done.
Row-tail :
    (x : ℕ) (a b ps zs out : List ℕ)
    → Row x b ps 0 zs out
    → ((qs : List ℕ)
        → AreLimbs qs
        → length qs ≡ length b
        → (value (mul_loop a b (qs ++ zs)) ≡ value qs + value a * value b)
          × AreLimbs (mul_loop a b (qs ++ zs)))
    → (value (keep_head out (mul_loop a b)) ≡ value ps + value (x ∷ a) * value b)
      × AreLimbs (keep_head out (mul_loop a b))
unfolding value
Row-tail x a b ps zs out r rest = rw r.splits (go r.qs r.long r.limbs r.sum)
  where
    go :
        (qs : List ℕ)
        → length qs ≡ suc (length b)
        → AreLimbs qs
        → value qs ≡ value ps + x * value b + 0
        → (value (keep_head (qs ++ zs) (mul_loop a b)) ≡ value ps + value (x ∷ a) * value b)
          × AreLimbs (keep_head (qs ++ zs) (mul_loop a b))
    go [] l h s = absurd (omega arith)
    go (q ∷ qs) l (hq, h) s =
        let (v, limbs) = rest qs h (omega arith) in (omega (arith, v), (hq, limbs))

mul_loop-value :
    (a b ps : List ℕ)
    → AreLimbs a
    → AreLimbs b
    → AreLimbs ps
    → length ps ≡ length b
    → (value (mul_loop a b (ps ++ replicate (length a) 0)) ≡ value ps + value a * value b)
      × AreLimbs (mul_loop a b (ps ++ replicate (length a) 0))
unfolding mul_loop value
mul_loop-value [] b ps ha hb hp l = rw append-nil (omega arith, hp)
mul_loop-value (x ∷ a) b ps (hx, ha) hb hp l =
    Row-tail x a b ps (replicate (length a) 0) _ (mul_row-Row x b ps 0 _ hx hb hp (omega arith) l)
      (λ qs hq lq. mul_loop-value a b qs ha hb hq lq)

replicate-add : (m n : ℕ) → replicate {A = ℕ} (m + n) 0 ≡ replicate n 0 ++ replicate m 0
replicate-add m zero = rw add-zero
replicate-add m (suc n) = rw add-suc (ap (λ t. 0 ∷ t) (replicate-add m n))

pub value-replicate : (n : ℕ) → (value (replicate n 0) ≡ 0) × AreLimbs (replicate n 0)
unfolding value
value-replicate zero = (refl, tt)
value-replicate (suc n) =
    let (v, limbs) = value-replicate n in (omega (arith, v), (omega arith, limbs))

product_limbs :
    (a b : List ℕ)
    → AreLimbs a
    → AreLimbs b
    → (value (mul_loop a b (replicate (length a + length b) 0)) ≡ value a * value b)
      × AreLimbs (mul_loop a b (replicate (length a + length b) 0))
product_limbs a b ha hb =
    let (none_yet, limbs) = value-replicate (length b) in
    let (v, out) = mul_loop-value a b (replicate (length b) 0) ha hb limbs (length-replicate _ 0) in
    rw replicate-add (omega (arith, v, none_yet), out)

signed_parts :
    (s : Bool) (n : ℕ)
    → (pos_part (signed s n) ≡ (if s then 0 else n))
      × (neg_part (signed s n) ≡ (if s then n else 0))
unfolding signed
signed_parts s n = ground arith

signed_table :
    (s t : Bool) (m n : ℕ)
    → signed (not (bool_eq s t)) (m * n)
      ≡ sub_ℕ
          ((if s then 0 else m) * (if t then 0 else n)
            + (if s then m else 0) * (if t then n else 0))
          ((if s then 0 else m) * (if t then n else 0)
            + (if s then m else 0) * (if t then 0 else n))
unfolding signed
signed_table true true m n = ground arith
signed_table true false m n = ground arith
signed_table false true m n = ground arith
signed_table false false m n = ground arith

pub signed-mul :
    (s t : Bool) (m n : ℕ) → signed (not (bool_eq s t)) (m * n) ≡ signed s m *ℤ signed t n
unfolding ◌*ℤ◌
signed-mul s t m n =
    let (p, q) = signed_parts s m in
    let (p', q') = signed_parts t n in rw (p, q, p', q') (signed_table s t m n)

product-zero :
    (a b : Big) → (is_zero a ≡ true) ⊎ (is_zero b ≡ true) → to_ℤ zero_big ≡ to_ℤ a *ℤ to_ℤ b
unfolding to_ℤ
product-zero a b h =
    let product : value a.limbs * value b.limbs ≡ 0 = elim h [
      | inl e ↦ rw (is_zero-value a e) (omega arith)
      | inr e ↦ rw (is_zero-value b e) (omega arith)
    ] in
    unfold signed value in
    signed-zero _ ∙ ap (signed _) (sym product) ∙ signed-mul a.negative b.negative _ _

-- On valid integers `csBigMultiply` gives the product of the integers.
pub multiply-to_ℤ : (a b : Big) → IsValid a → IsValid b → to_ℤ (multiply a b) ≡ to_ℤ a *ℤ to_ℤ b
unfolding multiply
multiply-to_ℤ a b ha hb = elim (Bool-cases (is_zero a || is_zero b)) [
  | inl e ↦ rw e (product-zero a b (ground arith))
  | inr e ↦ rw e (
      to_ℤ-trim _
      ∙ ap (signed _) (product_limbs a.limbs b.limbs ha.limbs hb.limbs).0
      ∙ unfold to_ℤ in signed-mul a.negative b.negative _ _)
]

pub multiply-IsValid : (a b : Big) → IsValid a → IsValid b → IsValid (multiply a b)
unfolding multiply
multiply-IsValid a b ha hb = elim (Bool-cases (is_zero a || is_zero b)) [
  | inl e ↦ rw e zero_big-IsValid
  | inr e ↦ rw e (trim-IsValid _ (product_limbs a.limbs b.limbs ha.limbs hb.limbs).1)
]
