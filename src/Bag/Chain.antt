-- ===== src/Bag/Chain.antt =====
-- src/runtime/object_bag.c: prototypes. A prototype is the place of an object in the list of all of them;
-- the loops along a chain run on fuel.
use cscript.Prelude.{
  ℕ, zero, suc, ◌<◌, ◌≤◌, ◌≡◌, ◌⊎◌, refl, sym, ◌∙◌, arith, ◌==◌, ==_iff, if◌then◌else◌, inl, inr,
  Bool-cases, Bool, true, false, List, length, length-set, set, get_elem?, get_elem?-set_self,
  get_elem?-set_ne, fetch_some, ◌>>=◌, Option, none, some,
}
use mathlib.Core.Path.{subst}
use cscript.Value.{Value}
use cscript.Table.Find.{true≢false}
use cscript.Shape.{Shape}
use cscript.Bag.{Object, get_property}

-- The loop of `csObjectSetPrototype` along the chain of the prototype.
unfoldable pub reaches : ℕ → List Object → ℕ → Option ℕ → Option Bool
reaches zero objects target at = none
reaches (suc fuel) objects target none = some false
reaches (suc fuel) objects target (some a) = do
  o ← get_elem? objects a
  let rest = reaches fuel objects target o.prototype
  if a == target then some true else rest

-- `csObjectSetPrototype`
unfoldable pub set_prototype : ℕ → List Object → ℕ → Option ℕ → Option (Bool × List Object)
set_prototype fuel objects target prototype = do
  cyclic ← reaches fuel objects target prototype
  o ← get_elem? objects target
  some (
      if cyclic
      then (false, objects)
      else (true, set objects target (record o { prototype = prototype })))

module _ (hash from_double : ℕ → ℕ) (heap : List Shape) (objects : List Object) (key : ℕ) where
  -- `csObjectGetInherited`
  unfoldable pub get_inherited : ℕ → Option ℕ → Option (Option Value)
  get_inherited zero at = none
  get_inherited (suc fuel) none = some none
  get_inherited (suc fuel) (some a) = do
    o ← get_elem? objects a
    found ← get_property hash from_double heap o.storage key
    elim found [ some v ↦ some (some v) | none ↦ get_inherited fuel o.prototype ]

-- A chain of prototypes that ends.
pub data Chain (objects : List Object) : Option ℕ → Type 0 where
  root : Chain objects none
  up :
      (a : ℕ) (o : Object)
      → get_elem? objects a ≡ some o
      → Chain objects o.prototype
      → Chain objects (some a)

-- Every chain ends.
abbrev pub IsAcyclic : List Object → Type 0
IsAcyclic objects = (a : ℕ) → a < length objects → Chain objects (some a)

-- A prototype is one of the objects.
abbrev pub IsIn : List Object → Option ℕ → Type 0
IsIn objects none = Unit {0}
IsIn objects (some a) = a < length objects

pub Chain-start :
    (objects : List Object) (p : Option ℕ) → IsAcyclic objects → IsIn objects p → Chain objects p
Chain-start objects none h i = root
Chain-start objects (some a) h i = h a i

module _ (objects : List Object) (target : ℕ) (new_object : Object) where
  abbrev changed : List Object
  changed = set objects target new_object

  -- What the loop finds of a chain that ends, on any fuel from some point on.
  Walks : Option ℕ → Type 0
  Walks at =
      (n : ℕ) × (((fuel : ℕ) → n ≤ fuel → reaches fuel objects target at ≡ some true)
        ⊎ (((fuel : ℕ) → n ≤ fuel → reaches fuel objects target at ≡ some false)
            × Chain changed at))

  elsewhere : (a : ℕ) → (a == target) ≡ false → get_elem? changed a ≡ get_elem? objects a
  elsewhere a e =
      get_elem?-set_ne objects new_object (λ k. true≢false (sym ((==_iff a target).1 (sym k)) ∙ e))

  walks : (at : Option ℕ) → Chain objects at → Walks at
  unfolding reaches Walks
  walks none root = (1, inr (λ fuel l. start fuel l, root))
    where
      start : (fuel : ℕ) → 1 ≤ fuel → reaches fuel objects target none ≡ some false
      start zero l = absurd (omega arith)
      start (suc fuel) l = refl
  walks (some _) (up a o at rest) =
      let (n, outcome) = walks o.prototype rest in
      elim (Bool-cases (a == target)) [
        | inl e ↦ (1, inl (λ fuel l. here fuel e l))
        | inr e ↦ elim outcome [
          | inl hits ↦ (suc n, inl (λ fuel l. next fuel n true e hits l))
          | inr (misses, c) ↦
              (suc n, inr (λ fuel l. next fuel n false e misses l, up a o (elsewhere a e ∙ at) c))
        ]
      ]
    where
      here :
          (fuel : ℕ)
          → (a == target) ≡ true
          → 1 ≤ fuel
          → reaches fuel objects target (some a) ≡ some true
      here zero e l = absurd (omega arith)
      here (suc fuel) e l = rw (at, ◌>>=◌, e)

      next :
          (fuel n : ℕ) (b : Bool)
          → (a == target) ≡ false
          → ((fuel : ℕ) → n ≤ fuel → reaches fuel objects target o.prototype ≡ some b)
          → suc n ≤ fuel
          → reaches fuel objects target (some a) ≡ some b
      next zero n b e h l = absurd (omega arith)
      next (suc fuel) n b e h l = rw (at, ◌>>=◌, e) (h fuel (omega (arith, l)))

  -- Every chain ends still, once that of the changed object does.
  rechain : (at : Option ℕ) → Chain objects at → Chain changed (some target) → Chain changed at
  rechain none root c = root
  rechain (some _) (up a o at rest) c = elim (Bool-cases (a == target)) [
    | inl e ↦ subst (λ a. Chain changed (some a)) (sym ((==_iff a target).0 e)) c
    | inr e ↦ up a o (elsewhere a e ∙ at) (rechain o.prototype rest c)
  ]

-- What `csObjectSetPrototype` leaves: all chains end, and a refusal changes nothing.
pub record Links (objects : List Object) (target : ℕ) (p : Option ℕ) (r : Bool × List Object)
    : Type 0 where
  pub acyclic : IsAcyclic r.1
  pub refused : r.0 ≡ false → r.1 ≡ objects
  pub linked : r.0 ≡ true → (o : Object) × (get_elem? r.1 target ≡ some o) × (o.prototype ≡ p)

-- Where every chain of prototypes ends, `csObjectSetPrototype` of an object to one of the objects or to
-- none ends, and every chain ends afterwards.
pub set_prototype-Links :
    (objects : List Object) (target : ℕ) (p : Option ℕ)
    → IsAcyclic objects
    → target < length objects
    → IsIn objects p
    → (r : Bool × List Object) × Links objects target p r
      × ((n : ℕ) × ((fuel : ℕ) → n ≤ fuel → set_prototype fuel objects target p ≡ some r))
unfolding set_prototype Walks
set_prototype-Links objects target p h near i =
    let (o, at) = fetch_some objects target near in
    let after : Object = record o { prototype = p } in
    let (n, outcome) = walks objects target after p (Chain-start objects p h i) in
    elim outcome [
      | inl hits ↦ (
        (false, objects),
        record { acyclic = h; refused = λ e. refl; linked = λ e. absurd (true≢false (sym e)) },
        (n, λ fuel l. rw (hits fuel l, ◌>>=◌, at)),
      )
      | inr (misses, c) ↦
          let out = set objects target after in
          let here : get_elem? out target ≡ some after =
            get_elem?-set_self objects target after near in
          (
            (true, out),
            record {
              acyclic = λ a l.
                  rechain objects target after (some a)
                    (h a (omega (arith, l, length-set objects target after)))
                    (up target after here c);
              refused = λ e. absurd (true≢false e);
              linked = λ e. (after, here, refl);
            },
            (n, λ fuel l. rw (misses fuel l, ◌>>=◌, at)),
          )
    ]

module _ (hash from_double : ℕ → ℕ) (heap : List Shape) (objects : List Object) (key : ℕ) where
  -- The value of the nearest object of a chain that has the key.
  pub data Inherits : Option ℕ → Option Value → Type 0 where
    nothing : Inherits none none
    own :
        (a : ℕ) (o : Object) (v : Value)
        → get_elem? objects a ≡ some o
        → get_property hash from_double heap o.storage key ≡ some (some v)
        → Inherits (some a) (some v)
    above :
        (a : ℕ) (o : Object) (r : Option Value)
        → get_elem? objects a ≡ some o
        → get_property hash from_double heap o.storage key ≡ some none
        → Inherits o.prototype r
        → Inherits (some a) r

  -- Where a chain ends and every object on it can be read, `csObjectGetInherited` ends, with the value of
  -- the nearest object that has the key.
  pub get_inherited-Inherits :
      (at : Option ℕ)
      → Chain objects at
      → ((a : ℕ) (o : Object)
          → get_elem? objects a ≡ some o
          → (found : Option Value) × (get_property hash from_double heap o.storage key
              ≡ some found))
      → (r : Option Value) × Inherits at r
        × ((n : ℕ) × ((fuel : ℕ)
              → n ≤ fuel
              → get_inherited hash from_double heap objects key fuel at ≡ some r))
  unfolding get_inherited
  get_inherited-Inherits none root reads = (none, nothing, (1, λ fuel l. start fuel l))
    where
      start :
          (fuel : ℕ)
          → 1 ≤ fuel
          → get_inherited hash from_double heap objects key fuel none ≡ some none
      start zero l = absurd (omega arith)
      start (suc fuel) l = refl
  get_inherited-Inherits (some _) (up a o at rest) reads =
      let (r, found, (n, run)) = get_inherited-Inherits o.prototype rest reads in
      let (own_value, read) = reads a o at in answer r found n run own_value read
    where
      answer :
          (r : Option Value)
          → Inherits o.prototype r
          → (n : ℕ)
          → ((fuel : ℕ)
              → n ≤ fuel
              → get_inherited hash from_double heap objects key fuel o.prototype ≡ some r)
          → (own_value : Option Value)
          → get_property hash from_double heap o.storage key ≡ some own_value
          → (r : Option Value) × Inherits (some a) r
            × ((n : ℕ) × ((fuel : ℕ)
                  → n ≤ fuel
                  → get_inherited hash from_double heap objects key fuel (some a) ≡ some r))
      answer r found n run (some v) read =
          (some v, own a o v at read, (1, λ fuel l. here fuel v read l))
        where
          here :
              (fuel : ℕ) (v : Value)
              → get_property hash from_double heap o.storage key ≡ some (some v)
              → 1 ≤ fuel
              → get_inherited hash from_double heap objects key fuel (some a) ≡ some (some v)
          here zero v read l = absurd (omega arith)
          here (suc fuel) v read l = rw (at, ◌>>=◌, read)
      answer r found n run none read =
          (r, above a o r at read found, (suc n, λ fuel l. next fuel l))
        where
          next :
              (fuel : ℕ)
              → suc n ≤ fuel
              → get_inherited hash from_double heap objects key fuel (some a) ≡ some r
          next zero l = absurd (omega arith)
          next (suc fuel) l = rw (at, ◌>>=◌, read) (run fuel (omega (arith, l)))
