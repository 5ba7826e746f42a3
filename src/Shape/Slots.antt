-- ===== src/Shape/Slots.antt =====
-- src/runtime/shape.c: the index of a shape says of each key where it stands in `keys`.
use cscript.Prelude.{
  ℕ, ◌+◌, ◌<◌, ◌≤◌, ◌≡◌, refl, sym, ap, ◌∙◌, arith, ◌==◌, if◌then◌else◌, inl, inr, Bool-cases, Bool,
  true, false, List, [], ◌∷◌, ◌++◌, length, Option, none, some, none≢some, some-cancel,
  Option-cases, length-append,
}
use cscript.Value.{Value, number}
use cscript.Table.{new}
use cscript.Table.Slots.{scan}
use cscript.Table.Merge.{add_all-Covers, over}
use cscript.Table.Methods.{IsValid, new-IsValid, get-scan, set_value-Sets}
use cscript.Shape.{Shape, max_slots, fresh, slot_in, lookup, child}

abbrev later : Option ℕ → Option ℕ
later none = none
later (some i) = some (i + 1)

-- The first place of a key, by a search from the front.
unfoldable pub position : List ℕ → ℕ → Option ℕ
position [] k = none
position (x ∷ xs) k = let rest = later (position xs k) in if x == k then some 0 else rest

later-none : (o : Option ℕ) → later o ≡ none → o ≡ none
later-none none h = refl
later-none (some i) h = cc

later-if :
    (b : Bool) (n : ℕ) (o : Option ℕ)
    → later (if b then some n else o) ≡ (if b then some (n + 1) else later o)
later-if true n o = refl
later-if false n o = refl

-- A new key at the end.
pub position-append :
    (xs : List ℕ) (key k : ℕ)
    → position xs key ≡ none
    → position (xs ++ key ∷ []) k ≡ (if key == k then some (length xs) else position xs k)
unfolding position
position-append [] key k h = refl
position-append (x ∷ xs) key k h = elim (Bool-cases (x == key)) [
  | inl e ↦ absurd (none≢some (sym (rw e at h)))
  | inr e ↦
      let rest = position-append xs key k (later-none _ (rw e at h)) in
      elim (Bool-cases (x == k)) [
        | inl here ↦ let other : (key == k) ≡ false = ground (arith, e, here) in rw (here, other)
        | inr there ↦
            rw (there, rest, later-if (key == k) (length xs) (position xs k))
              (ap (λ n. if key == k then some n else later (position xs k)) (omega arith))
      ]
]

position-within : (xs : List ℕ) (k i : ℕ) → position xs k ≡ some i → i < length xs
unfolding position
position-within [] k i h = absurd (none≢some h)
position-within (x ∷ xs) k i h = elim (Bool-cases (x == k)) [
  | inl e ↦ omega (arith, some-cancel (rw e at h))
  | inr e ↦ elim (Option-cases (position xs k)) [
    | inl n ↦ absurd (none≢some (rw (e, n) at h))
    | inr (j, found) ↦ omega (arith, position-within xs k j found, some-cancel (rw (e, found) at h))
  ]
]

module _ (hash to_double : ℕ → ℕ) where
  abbrev pub numbered : Option ℕ → Option Value
  numbered none = none
  numbered (some i) = some (number (to_double i))

  -- A shape whose index is that of its keys.
  pub record IsIndexed (s : Shape) : Type 0 where
    pub valid : IsValid hash s.indices
    pub few : length s.keys ≤ max_slots
    pub finds : (k : ℕ) → scan s.indices.entries k ≡ numbered (position s.keys k)

  over-none : (o : Option Value) → over hash o none ≡ o
  over-none none = refl
  over-none (some v) = refl

  pub fresh-IsIndexed : IsIndexed fresh
  unfolding scan position
  fresh-IsIndexed = record { valid = new-IsValid hash; few = omega arith; finds = λ k. refl }

  module _ (from_double : ℕ → ℕ)
      (exact : (i : ℕ) → i < 9_007_199_254_740_992 → from_double (to_double i) ≡ i) where
    slot_in-numbered :
        (o : Option ℕ)
        → ((i : ℕ) → o ≡ some i → i < max_slots)
        → slot_in hash from_double (numbered o) ≡ some o
    slot_in-numbered none h = refl
    slot_in-numbered (some i) h = ap (λ i. some (some i)) (exact i (omega (arith, h i refl)))

    -- On an indexed shape `csShapeLookup` ends, with the place that a search of its keys from the front
    -- finds. A double holds each integer below 2 ^ 53.
    pub lookup-position :
        (s : Shape) (key : ℕ)
        → IsIndexed s
        → lookup hash from_double s key ≡ some (position s.keys key)
    unfolding lookup
    lookup-position s key h =
        rw (lookup, get-scan hash s.indices key h.valid, h.finds key)
          (slot_in-numbered (position s.keys key)
            (λ i e. omega (arith, position-within s.keys key i e, h.few)))

  -- The new shape of a transition has the keys of the parent, in their places, and the new one.
  pub child-IsIndexed :
      (a : ℕ) (s : Shape) (key : ℕ)
      → IsIndexed s
      → position s.keys key ≡ none
      → length s.keys < max_slots
      → (c : Shape) × (child hash to_double a s key ≡ some c)
        × IsIndexed c
        × (c.keys ≡ s.keys ++ key ∷ [])
        × (c.transitions ≡ new)
  unfolding child scan
  child-IsIndexed a s key h absent room =
      let (copied, run, covers) = add_all-Covers hash s.indices new h.valid (new-IsValid hash) in
      let (r, run', sets) =
        set_value-Sets hash copied key (number (to_double (length s.keys))) covers.valid in
      (
        record {
          parent = some a;
          key = some key;
          indices = r.1;
          keys = s.keys ++ key ∷ [];
          transitions = new;
        },
        rw (run, child, run'),
        record {
          valid = sets.valid;
          few = omega (arith, length-append s.keys (key ∷ []), room);
          finds = λ k. sets.reads k ∙ elim (Bool-cases (key == k)) [
            | inl e ↦ rw (e, position-append s.keys key k absent, e)
            | inr e ↦
                rw (e, position-append s.keys key k absent, e)
                  (covers.reads k ∙ (over-none (scan s.indices.entries k) ∙ h.finds k))
          ];
        },
        refl,
        refl,
      )
