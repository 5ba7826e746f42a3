-- ===== src/Bag/Entries.antt =====
-- src/runtime/object_bag.c: the abstract view of an object's properties, a list of keys and values in the
-- order of their insertion, with no key twice.
use cscript.Prelude.{
  ℕ, suc, ◌<◌, ◌≡◌, refl, sym, ap, ◌∙◌, arith, ◌==◌, ==_iff, if◌then◌else◌, inl, inr, Bool-cases,
  Option-cases, some-cancel, none≢some, Bool, true, false, List, [], ◌∷◌, ◌++◌, map, length, set,
  get_elem?, Option, none, some,
}
use mathlib.Core.Path.{subst}
use cscript.Value.{Value}
use cscript.Table.Methods.{is_absent}
use cscript.Bag.{remove_key}
use cscript.Shape.Slots.{position}

abbrev pub Entries : Type 0
Entries = List (ℕ × Value)

abbrev pub keys_of : Entries → List ℕ
keys_of es = map (λ e. e.0) es

abbrev pub values_of : Entries → List Value
values_of es = map (λ e. e.1) es

-- The value of a key.
unfoldable pub find : Entries → ℕ → Option Value
find [] k = none
find (e ∷ es) k = let rest = find es k in if e.0 == k then some e.1 else rest

-- A key keeps its place when it gets a new value; a new key goes to the end.
unfoldable pub insert : ℕ → Value → Entries → Entries
insert k v [] = (k, v) ∷ []
insert k v (e ∷ es) = let rest = insert k v es in if e.0 == k then (e.0, v) ∷ es else e ∷ rest

unfoldable pub erase : ℕ → Entries → Entries
erase k [] = []
erase k (e ∷ es) = let rest = erase k es in if e.0 == k then es else e ∷ rest

abbrev pub IsUnique : Entries → Type 0
IsUnique [] = Unit {0}
IsUnique (e ∷ es) = (find es e.0 ≡ none) × IsUnique es

same_key : (a b : ℕ) → (a == b) ≡ true → a ≡ b
same_key a b h = (==_iff a b).0 h

-- Where a key has no place it has no value, and the other way round.
pub position-find : (es : Entries) (k : ℕ) → find es k ≡ none → position (keys_of es) k ≡ none
unfolding find position
position-find [] k h = refl
position-find (e ∷ es) k h = elim (Bool-cases (e.0 == k)) [
  | inl s ↦ absurd (none≢some (sym (rw s at h)))
  | inr s ↦ rw (s, position-find es k (rw s at h))
]

pub find-position : (es : Entries) (k : ℕ) → position (keys_of es) k ≡ none → find es k ≡ none
unfolding find position
find-position [] k h = refl
find-position (e ∷ es) k h = elim (Bool-cases (e.0 == k)) [
  | inl s ↦ absurd (none≢some (sym (rw s at h)))
  | inr s ↦ elim (Option-cases (position (keys_of es) k)) [
    | inl n ↦ rw (s, find-position es k n)
    | inr (i, n) ↦ absurd (none≢some (sym (rw (s, n) at h)))
  ]
]

-- What stands in the place of a key, and what a new value changes.
pub record At (es : Entries) (k i : ℕ) (v : Value) : Type 0 where
  pub near : i < length (values_of es)
  pub held : find es k ≡ get_elem? (values_of es) i
  pub keys : keys_of (insert k v es) ≡ keys_of es
  pub values : values_of (insert k v es) ≡ set (values_of es) i v

pub position-At :
    (es : Entries) (k i : ℕ) (v : Value) → position (keys_of es) k ≡ some i → At es k i v
unfolding find position insert
position-At [] k i v h = absurd (none≢some h)
position-At (e ∷ es) k i v h = elim (Bool-cases (e.0 == k)) [
  | inl s ↦
      let first : 0 ≡ i = some-cancel (rw s at h) in
      subst (λ i. At (e ∷ es) k i v) first
        (record { near = omega arith; held = rw s; keys = rw s; values = rw s })
  | inr s ↦ elim (Option-cases (position (keys_of es) k)) [
    | inl n ↦ absurd (none≢some (rw (s, n) at h))
    | inr (j, n) ↦
        let next : suc j ≡ i = omega (arith, some-cancel (rw (s, n) at h)) in
        let a = position-At es k j v n in
        subst (λ i. At (e ∷ es) k i v) next
          (record {
            near = omega (arith, a.near);
            held = rw (s, a.held);
            keys = rw s (ap (λ ks. e.0 ∷ ks) a.keys);
            values = rw s (ap (λ vs. e.1 ∷ vs) a.values);
          })
  ]
]

pub insert-append :
    (es : Entries) (k : ℕ) (v : Value) → find es k ≡ none → insert k v es ≡ es ++ (k, v) ∷ []
unfolding find insert
insert-append [] k v h = refl
insert-append (e ∷ es) k v h = elim (Bool-cases (e.0 == k)) [
  | inl s ↦ absurd (none≢some (sym (rw s at h)))
  | inr s ↦ rw (s, insert-append es k v (rw s at h))
]

pub find-insert :
    (es : Entries) (k j : ℕ) (v : Value)
    → find (insert k v es) j ≡ (if k == j then some v else find es j)
unfolding find insert
find-insert [] k j v = refl
find-insert (e ∷ es) k j v = elim (Bool-cases (e.0 == k)) [
  | inl s ↦ rw s (ground (arith, s))
  | inr s ↦ rw (s, find-insert es k j v) (ground (arith, s))
]

-- Erasing a key that is there once leaves none.
pub find-erase :
    (es : Entries) (k j : ℕ)
    → IsUnique es
    → find (erase k es) j ≡ (if k == j then none else find es j)
unfolding find erase
find-erase [] k j u = ground arith
find-erase (e ∷ es) k j (u, us) = elim (Bool-cases (e.0 == k)) [
  | inl s ↦ rw s (elim (Bool-cases (k == j)) [
    | inl t ↦ rw t (subst (λ j. find es j ≡ none) (same_key e.0 k s ∙ same_key k j t) u)
    | inr t ↦ ground (arith, s, t)
  ])
  | inr s ↦ rw (s, find-erase es k j us) (ground (arith, s))
]

pub insert-IsUnique : (es : Entries) (k : ℕ) (v : Value) → IsUnique es → IsUnique (insert k v es)
unfolding find insert
insert-IsUnique [] k v u = (refl, tt)
insert-IsUnique (e ∷ es) k v (u, us) = elim (Bool-cases (e.0 == k)) [
  | inl s ↦ rw s (u, us)
  | inr s ↦
      let other : (k == e.0) ≡ false = ground (arith, s) in
      rw s (find-insert es k e.0 v ∙ rw other u, insert-IsUnique es k v us)
]

pub erase-IsUnique : (es : Entries) (k : ℕ) → IsUnique es → IsUnique (erase k es)
unfolding find erase
erase-IsUnique [] k u = tt
erase-IsUnique (e ∷ es) k (u, us) = elim (Bool-cases (e.0 == k)) [
  | inl s ↦ rw s us
  | inr s ↦
      let other : (k == e.0) ≡ false = ground (arith, s) in
      rw s (find-erase es k e.0 us ∙ rw other u, erase-IsUnique es k us)
]

pub keys_of-erase : (es : Entries) (k : ℕ) → keys_of (erase k es) ≡ remove_key k (keys_of es)
unfolding erase remove_key
keys_of-erase [] k = refl
keys_of-erase (e ∷ es) k = elim (Bool-cases (e.0 == k)) [
  | inl s ↦ rw s
  | inr s ↦ rw (s, keys_of-erase es k)
]

-- A key that is not there is not erased.
pub erase_absent : (es : Entries) (k : ℕ) → find es k ≡ none → erase k es ≡ es
unfolding find erase
erase_absent [] k h = refl
erase_absent (e ∷ es) k h = elim (Bool-cases (e.0 == k)) [
  | inl s ↦ absurd (none≢some (sym (rw s at h)))
  | inr s ↦ rw (s, erase_absent es k (rw s at h))
]

if-cons :
    (b : Bool) (n : ℕ) (xs ys : List ℕ)
    → (if b then n ∷ xs else n ∷ ys) ≡ n ∷ (if b then xs else ys)
if-cons true n xs ys = refl
if-cons false n xs ys = refl

-- Only a new key is added to the keys.
pub keys_of-insert :
    (es : Entries) (k : ℕ) (v : Value)
    → keys_of (insert k v es) ≡ (if is_absent (find es k) then keys_of es ++ k ∷ [] else keys_of es)
unfolding find insert
keys_of-insert [] k v = refl
keys_of-insert (e ∷ es) k v = elim (Bool-cases (e.0 == k)) [
  | inl s ↦ rw s
  | inr s ↦
      rw (s, keys_of-insert es k v)
        (sym (if-cons (is_absent (find es k)) e.0 (keys_of es ++ k ∷ []) (keys_of es)))
]
