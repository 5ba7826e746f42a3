-- ===== src/Bag/Tests.antt =====
-- An object that grows from the empty shape, and the theorems there.
use cscript.Prelude.{
  ℕ, ◌≡◌, ◌≤◌, refl, List, [], ◌∷◌, Bool, not, Option, none, some, get_elem?, none≢some,
  some-cancel, ◌>>=◌, arith, zero, suc,
}
use mathlib.Core.Path.{subst}
use cscript.Value.{Value, number}
use cscript.Table.{
  look, find_loop, find_entry, move_entry, move_entries, adjust_capacity, get, set_slot, set_value,
  delete,
}
use cscript.Table.Methods.{is_absent}
use cscript.Table.Merge.{add_entry, add_entries}
use cscript.Table.Slots.{scan}
use cscript.Shape.{Shape, fresh, lookup, child, grow, follow_edge, transition}
use cscript.Shape.Slots.{position}
use cscript.Shape.Heap.{IsHeap, new_root-IsHeap}
use cscript.Bag.{
  Storage, slots, Object, new_object, grow_to, ensure_slots, remove_key, put_all, convert,
  dictionary_put, dictionary_delete, get_property, delete_property, adopt, put_property,
  leave_shape_mode, count_properties, key_at, value_at,
}
use cscript.Bag.Entries.{find, insert, erase}
use cscript.Bag.Holds.{Holds}
use cscript.Bag.Methods.{get_property-find, Puts, put_property-Puts, delete_property-Holds}
use cscript.Bag.Order.{key_at-Holds}
use cscript.Bag.Chain.{
  set_prototype, IsAcyclic, Links, set_prototype-Links, root, up, get_inherited, Inherits,
  get_inherited-Inherits,
}
use cscript.Bag.Attributes.{set_attributes, Gives, set_attributes-Gives}

program : Unit {0}
unfolding look find_loop find_entry move_entry move_entries adjust_capacity get set_slot set_value
    delete add_entry add_entries scan lookup child grow follow_edge transition position grow_to
    ensure_slots remove_key put_all convert dictionary_put dictionary_delete get_property
    delete_property adopt put_property leave_shape_mode count_properties key_at value_at find insert
    erase
program = tt

abbrev same : ℕ → ℕ
same n = n

abbrev heap : List Shape
heap = fresh ∷ []

heap-IsHeap : IsHeap same same heap
heap-IsHeap = new_root-IsHeap same same [] (λ a s f. absurd (none≢some f))

empty-Holds : Holds same heap (slots 0 []) []
empty-Holds = record {
  unique = tt;
  inside = record { spare = []; stands = (fresh, refl, refl); joined = refl };
}

get_property-find_example : get_property same same heap (slots 0 []) 7 ≡ some (find [] 7)
get_property-find_example =
    get_property-find same same same (λ i h. refl) heap heap-IsHeap (slots 0 []) [] 7 empty-Holds

put_property-Puts_example :
    (r : Storage × List Shape) × (put_property same same same heap (slots 0 []) 7 (number 70)
      ≡ some r)
    × Puts same same same (λ i h. refl) heap heap-IsHeap [] 7 (number 70) r
put_property-Puts_example =
    put_property-Puts same same same (λ i h. refl) heap heap-IsHeap (slots 0 []) [] 7 (number 70)
      empty-Holds

delete_property-Holds_example :
    (r : Bool × Storage) × (delete_property same same heap (slots 0 []) 7 ≡ some r)
    × (r.0 ≡ not (is_absent (find [] 7)))
    × Holds same heap r.1 (erase 7 [])
delete_property-Holds_example =
    delete_property-Holds same same same (λ i h. refl) heap heap-IsHeap (slots 0 []) [] 7
      empty-Holds

key_at-Holds_example :
    (count_properties same heap (slots 0 []) ≡ some 0)
    × ((i : ℕ) (e : ℕ × Value)
        → get_elem? [] i ≡ some e
        → (key_at same heap (slots 0 []) i ≡ some e.0)
          × (value_at same heap (slots 0 []) i ≡ some e.1))
key_at-Holds_example = key_at-Holds same heap (slots 0 []) [] empty-Holds

-- Two keys are put and the first deleted: the object is in a table, and the second key comes first.
abbrev put : Option (Storage × List Shape) → ℕ → ℕ → Option (Storage × List Shape)
put none k v = none
put (some (st, h)) k v = put_property same same same h st k (number v)

abbrev first_key : Option (Storage × List Shape) → Option (ℕ × Value)
first_key none = none
first_key (some (st, h)) = do
  r ← delete_property same same h st 7
  k ← key_at same h r.1 0
  v ← value_at same h r.1 0
  some (k, v)

second_first : first_key (put (put (some (slots 0 [], heap)) 7 70) 9 90) ≡ some (9, number 90)
unfolding program
second_first = refl

-- Two objects, the second with the first for its prototype.
abbrev objects : List Object
objects = new_object 0 1 ∷ record (new_object 0 1) { prototype = some 0 } ∷ []

objects-IsAcyclic : IsAcyclic objects
objects-IsAcyclic zero h = up 0 (new_object 0 1) refl root
objects-IsAcyclic (suc zero) h =
    up 1 (record (new_object 0 1) { prototype = some 0 }) refl (up 0 (new_object 0 1) refl root)
objects-IsAcyclic (suc (suc a)) h = absurd (omega arith)

set_prototype-Links_example :
    (r : Bool × List Object) × Links objects 0 (some 1) r
    × ((n : ℕ) × ((fuel : ℕ) → n ≤ fuel → set_prototype fuel objects 0 (some 1) ≡ some r))
set_prototype-Links_example =
    set_prototype-Links objects 0 (some 1) objects-IsAcyclic (omega arith) (omega arith)

get_inherited-Inherits_example :
    (r : Option Value) × Inherits same same heap objects 7 (some 1) r
    × ((n : ℕ) × ((fuel : ℕ)
          → n ≤ fuel
          → get_inherited same same heap objects 7 fuel (some 1) ≡ some r))
unfolding find
get_inherited-Inherits_example =
    get_inherited-Inherits same same heap objects 7 (some 1) (objects-IsAcyclic 1 (omega arith))
      (λ a o f. reads a o f)
  where
    reads :
        (a : ℕ) (o : Object)
        → get_elem? objects a ≡ some o
        → (found : Option Value) × (get_property same same heap o.storage 7 ≡ some found)
    reads zero o f =
        subst
          (λ (o : Object).
            (found : Option Value) × (get_property same same heap o.storage 7 ≡ some found))
          (some-cancel f) (none, get_property-find_example)
    reads (suc zero) o f =
        subst
          (λ (o : Object).
            (found : Option Value) × (get_property same same heap o.storage 7 ≡ some found))
          (some-cancel f) (none, get_property-find_example)
    reads (suc (suc a)) o f = absurd (none≢some f)

set_attributes-Gives_example :
    (r : Object) × (set_attributes same same (new_object 0 1) 7 5 ≡ some r)
    × Gives same same same none 7 5 r
set_attributes-Gives_example = set_attributes-Gives same same same (new_object 0 1) 7 5 refl tt
