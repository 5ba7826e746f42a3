-- ===== src/Bag/Attributes.antt =====
-- src/runtime/object_bag.c: the private names of an object and the attributes of its properties, each in a
-- table that is made when it is first written.
use cscript.Prelude.{
  ℕ, ◌/◌, ◌%◌, ◌≡◌, refl, sym, ap, ◌∙◌, ◌==◌, ==_iff, if◌then◌else◌, Bool, false, Option, none,
  some, ◌>>=◌, inl, inr, Bool-cases,
}
use mathlib.Core.Path.{subst}
use cscript.Value.{Value, number}
use cscript.Table.{Table, new, get, set_value, delete}
use cscript.Table.Slots.{scan}
use cscript.Table.Methods.{IsValid, new-IsValid, get-scan, set_value-Sets}
use cscript.Bag.{Object}

-- `CS_PROP_DEFAULT`: writable, enumerable and configurable.
abbrev pub default_attributes : ℕ
default_attributes = 7

-- The table, or an empty one that is made.
abbrev pub made : Option Table → Table
made none = new
made (some t) = t

module _ (hash : ℕ → ℕ) where
  -- `csObjectGetPrivate`
  unfoldable pub get_private : Object → ℕ → Option (Option Value)
  get_private o key = elim o.privates [ none ↦ some none | some t ↦ get hash t key ]

  -- `csObjectPutPrivate`
  unfoldable pub put_private : Object → ℕ → Value → Option Object
  put_private o key v = do
    r ← set_value hash (made o.privates) key v
    some (record o { privates = some r.1 })

  -- `csObjectDeletePrivate`
  unfoldable pub delete_private : Object → ℕ → Option (Bool × Object)
  delete_private o key = elim o.privates [
    | none ↦ some (false, o)
    | some t ↦ do r ← delete hash t key; some (r.0, record o { privates = some r.1 })
  ]

  -- `csObjectAttributes`
  module _ (from_double : ℕ → ℕ) where
    abbrev pub attributes_in : Option Value → Option ℕ
    attributes_in none = some default_attributes
    attributes_in (some (number d)) = some (from_double d)
    attributes_in (some v) = none

    unfoldable pub attributes_at : Option Table → ℕ → Option ℕ
    attributes_at none key = some default_attributes
    attributes_at (some t) key = do found ← get hash t key; attributes_in found

    abbrev pub get_attributes : Object → ℕ → Option ℕ
    get_attributes o key = attributes_at o.attributes key

    -- `csObjectIsEnumerable`
    unfoldable pub is_enumerable : Object → ℕ → Option Bool
    is_enumerable o key = do flags ← get_attributes o key; some (flags / 2 % 2 == 1)

  -- `csObjectSetAttributes`
  module _ (to_double : ℕ → ℕ) where
    unfoldable pub write_attributes : Object → Table → ℕ → ℕ → Option Object
    write_attributes o t key flags = do
      r ← set_value hash t key (number (to_double flags))
      some (record o { attributes = some r.1 })

    unfoldable pub set_at : Object → Option Table → ℕ → ℕ → Option Object
    set_at o none key flags =
        let written = write_attributes o new key flags in
        if flags == default_attributes then some o else written
    set_at o (some t) key flags = write_attributes o t key flags

    abbrev pub set_attributes : Object → ℕ → ℕ → Option Object
    set_attributes o key flags = set_at o o.attributes key flags

  -- A table that is valid where there is one.
  abbrev pub IsMade : Option Table → Type 0
  IsMade none = Unit {0}
  IsMade (some t) = IsValid hash t

  -- What an object says of each private name.
  abbrev pub private_of : Option Table → ℕ → Option Value
  private_of none k = none
  private_of (some t) k = scan t.entries k

  made-IsValid : (p : Option Table) → IsMade p → IsValid hash (made p)
  made-IsValid none h = new-IsValid hash
  made-IsValid (some t) h = h

  made-scan : (p : Option Table) (j : ℕ) → scan (made p).entries j ≡ private_of p j
  unfolding scan
  made-scan none j = refl
  made-scan (some t) j = refl

  -- Writing a private name of an object ends: reading that name afterwards finds the value, and reading
  -- any other finds what it found before.
  pub get_private-put_private :
      (o : Object) (key : ℕ) (v : Value)
      → IsMade o.privates
      → (r : Object) × (put_private o key v ≡ some r)
        × IsMade r.privates
        × ((j : ℕ) → get_private r j ≡ some (if key == j then some v else private_of o.privates j))
  unfolding put_private get_private
  get_private-put_private o key v h =
      let (r, run, sets) =
        set_value-Sets hash (made o.privates) key v (made-IsValid o.privates h) in
      (
        record o { privates = some r.1 },
        rw run,
        sets.valid,
        λ j.
            get-scan hash r.1 j sets.valid
            ∙ ap some
                (sets.reads j ∙ ap (λ u. if key == j then some v else u) (made-scan o.privates j)),
      )

  module _ (to_double from_double : ℕ → ℕ) where
    attributes_at-private_of :
        (p : Option Table) (j : ℕ)
        → IsMade p
        → attributes_at from_double p j ≡ attributes_in from_double (private_of p j)
    unfolding attributes_at
    attributes_at-private_of none j h = refl
    attributes_at-private_of (some t) j h = rw (get-scan hash t j h)

    attributes_at-new :
        (j : ℕ) → attributes_at from_double (some new) j ≡ attributes_at from_double none j
    unfolding attributes_at scan
    attributes_at-new j = rw (get-scan hash new j (new-IsValid hash))

    -- What giving attributes to a property leaves.
    pub record Gives (p : Option Table) (key flags : ℕ) (r : Object) : Type 0 where
      pub made : IsMade r.attributes
      pub given : get_attributes from_double r key ≡ some flags
      pub others :
          (j : ℕ)
          → (key == j) ≡ false
          → get_attributes from_double r j ≡ attributes_at from_double p j

    write_attributes-Gives :
        (o : Object) (t : Table) (key flags : ℕ)
        → from_double (to_double flags) ≡ flags
        → IsValid hash t
        → (r : Object) × (write_attributes to_double o t key flags ≡ some r)
          × Gives (some t) key flags r
    unfolding write_attributes
    write_attributes-Gives o t key flags exact h =
        let (r, run, sets) = set_value-Sets hash t key (number (to_double flags)) h in
        let out : Object = record o { attributes = some r.1 } in
        let here : scan r.1.entries key ≡ some (number (to_double flags)) =
          sets.reads key ∙ rw ((==_iff key key).1 refl) in
        let there : (j : ℕ) → (key == j) ≡ false → scan r.1.entries j ≡ scan t.entries j =
          λ j e. sets.reads j ∙ rw e in
        (
          out,
          rw run,
          record {
            made = sets.valid;
            given =
                attributes_at-private_of out.attributes key sets.valid
                ∙ (ap (attributes_in from_double) here ∙ ap some exact);
            others = λ j e.
                attributes_at-private_of out.attributes j sets.valid
                ∙ (ap (attributes_in from_double) (there j e)
                    ∙ sym (attributes_at-private_of (some t) j h));
          },
        )

    set_at-Gives :
        (o : Object) (p : Option Table) (key flags : ℕ)
        → from_double (to_double flags) ≡ flags
        → o.attributes ≡ p
        → IsMade p
        → (r : Object) × (set_at to_double o p key flags ≡ some r) × Gives p key flags r
    unfolding set_at attributes_at
    set_at-Gives o (some t) key flags exact e h = write_attributes-Gives o t key flags exact h
    set_at-Gives o none key flags exact e h = elim (Bool-cases (flags == default_attributes)) [
      | inl d ↦ (
        o,
        rw d,
        record {
          made = subst IsMade (sym e) tt;
          given =
              ap (λ p. attributes_at from_double p key) e
              ∙ ap some (sym ((==_iff flags default_attributes).0 d));
          others = λ j n. ap (λ p. attributes_at from_double p j) e;
        },
      )
      | inr d ↦
          let (r, run, gives) = write_attributes-Gives o new key flags exact (new-IsValid hash) in
          (
            r,
            rw d run,
            record {
              made = gives.made;
              given = gives.given;
              others = λ j n. gives.others j n ∙ attributes_at-new j;
            },
          )
    ]

    -- Attributes given to a property of an object are read back, and those of any other property stay.
    pub set_attributes-Gives :
        (o : Object) (key flags : ℕ)
        → from_double (to_double flags) ≡ flags
        → IsMade o.attributes
        → (r : Object) × (set_attributes to_double o key flags ≡ some r)
          × Gives o.attributes key flags r
    set_attributes-Gives o key flags exact h = set_at-Gives o o.attributes key flags exact refl h
