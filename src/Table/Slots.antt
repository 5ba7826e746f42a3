-- ===== src/Table/Slots.antt =====
-- src/runtime/table.c: what the slots of a table hold, as a map and as a count.
use cscript.Prelude.{
  ℕ, zero, suc, ◌+◌, ◌<◌, ◌≡◌, refl, arith, ◌==◌, ==_iff, if◌then◌else◌, inl, inr, Bool-cases, Bool,
  true, false, List, [], ◌∷◌, length, set, Option, none, some,
}
use cscript.Value.{Value, is_null}
use cscript.Table.{Entry, tombstone, slot, is_live}

-- A slot where a probe ends: no key and a null value.
abbrev pub is_vacant : Entry → Bool
is_vacant e = if is_live e.key then false else is_null e.value

abbrev pub key_is : ℕ → Option ℕ → Bool
key_is k none = false
key_is k (some j) = j == k

-- The table as a map: the value of the first slot with the key.
unfoldable pub scan : List Entry → ℕ → Option Value
scan [] k = none
scan (e ∷ es) k = if key_is k e.key then some e.value else scan es k

-- How many slots are not vacant: `count`.
unfoldable pub used : List Entry → ℕ
used [] = 0
used (e ∷ es) = (if is_vacant e then 0 else 1) + used es

-- No key stands in two slots.
abbrev pub IsDistinct : List Entry → Type 0
IsDistinct es =
    (k i j : ℕ) → key_is k (slot es i).key ≡ true → key_is k (slot es j).key ≡ true → i ≡ j

pub IsDistinct-tail : (e : Entry) (es : List Entry) → IsDistinct (e ∷ es) → IsDistinct es
IsDistinct-tail e es d k a b p q = omega (arith, d k (suc a) (suc b) p q)

key_apart :
    (e : Entry) (es : List Entry) (i k : ℕ)
    → IsDistinct (e ∷ es)
    → key_is k (slot es i).key ≡ true
    → key_is k e.key ≡ false
key_apart e es i k d h = elim (Bool-cases (key_is k e.key)) [
  | inl here ↦ absurd (omega (arith, d k 0 (suc i) here h))
  | inr e' ↦ e'
]

head_apart :
    (e : Entry) (es : List Entry) (i k j : ℕ)
    → IsDistinct (e ∷ es)
    → key_is k e.key ≡ true
    → (k == j) ≡ true
    → key_is j (slot es i).key ≡ false
head_apart e es i k j d h same = elim (Bool-cases (key_is k (slot es i).key)) [
  | inl there ↦ absurd (omega (arith, d k 0 (suc i) h there))
  | inr e' ↦ rw (← (==_iff k j).0 same) e'
]

-- A key that `scan` misses stands nowhere.
pub scan-none : (es : List Entry) (k i : ℕ) → scan es k ≡ none → key_is k (slot es i).key ≡ false
unfolding scan
scan-none [] k i h = refl
scan-none (e ∷ es) k zero h = ground arith
scan-none (e ∷ es) k (suc i) h = ground (arith, scan-none es k i)

pub scan-none_of_absent :
    (es : List Entry) (k : ℕ) → ((i : ℕ) → key_is k (slot es i).key ≡ false) → scan es k ≡ none
unfolding scan
scan-none_of_absent [] k h = refl
scan-none_of_absent (e ∷ es) k h = rw (h 0) (scan-none_of_absent es k (λ i. h (suc i)))

-- With distinct keys `scan` finds any slot with the key.
pub scan-slot :
    (es : List Entry) (k i : ℕ)
    → IsDistinct es
    → key_is k (slot es i).key ≡ true
    → scan es k ≡ some (slot es i).value
unfolding scan
scan-slot [] k i d h = cc
scan-slot (e ∷ es) k zero d h = rw h
scan-slot (e ∷ es) k (suc i) d h = elim (Bool-cases (key_is k e.key)) [
  | inl here ↦ absurd (omega (arith, d k 0 (suc i) here h))
  | inr e' ↦ rw e' (scan-slot es k i (IsDistinct-tail e es d) h)
]

-- Writing a key into a slot without one, where the key is new.
pub scan-set_new :
    (es : List Entry) (i k j : ℕ) (v : Value)
    → i < length es
    → is_live (slot es i).key ≡ false
    → scan es k ≡ none
    → scan (set es i (record { key = some k; value = v })) j
      ≡ (if k == j then some v else scan es j)
unfolding scan
scan-set_new [] i k j v h l n = absurd (omega arith)
scan-set_new (e ∷ es) zero k j v h l n = ground arith
scan-set_new (e ∷ es) (suc i) k j v h l n = ground (arith, scan-set_new es i k j v)

-- Overwriting the value of a key.
pub scan-set_old :
    (es : List Entry) (i k j : ℕ) (v : Value)
    → IsDistinct es
    → key_is k (slot es i).key ≡ true
    → scan (set es i (record { key = some k; value = v })) j
      ≡ (if k == j then some v else scan es j)
unfolding scan
scan-set_old [] i k j v d h = cc
scan-set_old (e ∷ es) zero k j v d h = ground arith
scan-set_old (e ∷ es) (suc i) k j v d h =
    let rest = scan-set_old es i k j v (IsDistinct-tail e es d) h in
    let apart = key_apart e es i k d h in ground arith

-- A tombstone in place of a key.
pub scan-set-tombstone :
    (es : List Entry) (i k j : ℕ)
    → IsDistinct es
    → key_is k (slot es i).key ≡ true
    → scan (set es i tombstone) j ≡ (if k == j then none else scan es j)
unfolding scan
scan-set-tombstone [] i k j d h = cc
scan-set-tombstone (e ∷ es) zero k j d h = elim (Bool-cases (k == j)) [
  | inl same ↦ rw same (scan-none_of_absent es j (λ i. head_apart e es i k j d h same))
  | inr other ↦ ground arith
]
scan-set-tombstone (e ∷ es) (suc i) k j d h =
    let rest = scan-set-tombstone es i k j (IsDistinct-tail e es d) h in
    let apart = key_apart e es i k d h in ground arith

pub used-set :
    (es : List Entry) (i : ℕ) (c : Entry)
    → i < length es
    → used (set es i c) + (if is_vacant (slot es i) then 0 else 1)
      ≡ used es + (if is_vacant c then 0 else 1)
unfolding used
used-set [] i c h = absurd (omega arith)
used-set (e ∷ es) zero c h = omega arith
used-set (e ∷ es) (suc i) c h = omega (arith, used-set es i c (omega arith))

-- Where fewer slots are used than there are, one is vacant.
pub vacancy :
    (es : List Entry)
    → used es < length es
    → (i : ℕ) × (i < length es) × (is_vacant (slot es i) ≡ true)
unfolding used
vacancy [] h = absurd (omega arith)
vacancy (e ∷ es) h = elim (Bool-cases (is_vacant e)) [
  | inl here ↦ (0, omega arith, here)
  | inr no_room ↦ let (i, within, free) = vacancy es (ground arith) in (suc i, omega arith, free)
]

-- With no slot in use there is no key.
pub scan-of_unused : (es : List Entry) (k : ℕ) → used es ≡ 0 → scan es k ≡ none
unfolding scan used
scan-of_unused [] k h = refl
scan-of_unused (e ∷ es) k h = ground (arith, scan-of_unused es k)
