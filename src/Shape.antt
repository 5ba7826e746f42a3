-- ===== src/Shape.antt =====
-- src/runtime/shape.c: hidden classes. Shapes stand in a heap and are named by their place in it. A slot
-- is kept as a double: `to_double` and `from_double` are the conversions of C. A loop that does not end,
-- and a value that is no object where one is read, are `none`. No collection runs between the allocations
-- of a transition.
pub mod Slots
pub mod Heap
pub mod Edges
mod Tests
use cscript.Prelude.{
  ℕ, ◌+◌, Bool, true, false, List, [], ◌∷◌, ◌++◌, length, set, leb, if◌then◌else◌, Option, none,
  some, get_elem?,
}
use cscript.Value.{Value, undefined, null, boolean, number, object}
use cscript.Table.{Table, new, get, set_value}
use cscript.Table.Merge.{add_all}
use cscript.Table.Sweep.{sweep, is_white}

-- `Shape`; `slotCount` is the length of `keys`.
pub record Shape : Type 0 where
  pub parent : Option ℕ
  pub key : Option ℕ
  pub indices : Table
  pub keys : List ℕ
  pub transitions : Table

-- `CS_SHAPE_MAX_SLOTS`
abbrev pub max_slots : ℕ
max_slots = 64

-- `allocateShape`
abbrev pub fresh : Shape
fresh = record { parent = none; key = none; indices = new; keys = []; transitions = new }

-- `csShapeNewRoot`
abbrev pub new_root : List Shape → ℕ × List Shape
new_root heap = (length heap, heap ++ fresh ∷ [])

-- `AS_OBJ`
abbrev pub as_object : Value → Option ℕ
as_object (object a) = some a
as_object v = none

module _ (hash : ℕ → ℕ) where
  -- `csShapePruneTransitions`, with the mark of each shape.
  unfoldable pub prune_transitions : (ℕ → Bool) → Shape → Option Shape
  prune_transitions marked s = elim (sweep hash (λ k v. is_white marked v) s.transitions) [
    | none ↦ none
    | some edges ↦ some (record s { transitions = edges })
  ]

  module _ (from_double : ℕ → ℕ) where
    -- `AS_NUMBER` of what stands in `indices`.
    abbrev pub slot_in : Option Value → Option (Option ℕ)
    slot_in none = some none
    slot_in (some (number d)) = some (some (from_double d))
    slot_in (some v) = none

    -- `csShapeLookup`
    unfoldable pub lookup : Shape → ℕ → Option (Option ℕ)
    lookup s key = elim (get hash s.indices key) [ none ↦ none | some found ↦ slot_in found ]

  module _ (to_double : ℕ → ℕ) where
    -- The new shape of `csShapeTransition`.
    unfoldable pub child : ℕ → Shape → ℕ → Option Shape
    child a s key = elim (add_all hash s.indices new) [
      | none ↦ none
      | some copied ↦ elim (set_value hash copied key (number (to_double (length s.keys)))) [
        | none ↦ none
        | some r ↦ some (record {
          parent = some a;
          key = some key;
          indices = r.1;
          keys = s.keys ++ key ∷ [];
          transitions = new;
        })
      ]
    ]

    -- Its edge from the parent, and its place in the heap.
    unfoldable pub grow : List Shape → ℕ → Shape → ℕ → Option (Option ℕ × List Shape)
    grow heap a s key = elim (child a s key) [
      | none ↦ none
      | some c ↦ elim (set_value hash s.transitions key (object (length heap))) [
        | none ↦ none
        | some r ↦
            some (some (length heap), set (heap ++ c ∷ []) a (record s { transitions = r.1 }))
      ]
    ]

    unfoldable pub follow_edge :
        List Shape → ℕ → Shape → ℕ → Option Value → Option (Option ℕ × List Shape)
    follow_edge heap a s key (some v) = elim (as_object v) [
      | none ↦ none
      | some b ↦ some (some b, heap)
    ]
    follow_edge heap a s key none =
        let grown = grow heap a s key in
        if leb max_slots (length s.keys) then some (none, heap) else grown

    -- `csShapeTransition`: the shape reached from the one at `a`, and the heap.
    unfoldable pub transition : List Shape → ℕ → ℕ → Option (Option ℕ × List Shape)
    transition heap a key = elim (get_elem? heap a) [
      | none ↦ none
      | some s ↦ elim (get hash s.transitions key) [
        | none ↦ none
        | some found ↦ follow_edge heap a s key found
      ]
    ]
