-- ===== src/Shape/Tests.antt =====
-- Shapes grown from a root, and the theorems there.
use cscript.Prelude.{ℕ, ◌≡◌, refl, none≢some, List, [], ◌∷◌, false, Option, none, some}
use cscript.Table.{
  look, find_loop, find_entry, move_entry, move_entries, adjust_capacity, get, set_slot, set_value,
  delete,
}
use cscript.Table.Merge.{add_entry, add_entries}
use cscript.Table.Slots.{scan}
use cscript.Table.Sweep.{sweep_entry, sweep_slots, kept, is_white}
use cscript.Shape.{Shape, fresh, lookup, child, grow, follow_edge, transition, prune_transitions}
use cscript.Shape.Slots.{position, lookup-position, fresh-IsIndexed}
use cscript.Shape.Heap.{IsShape, IsHeap, Reaches, new_root-IsHeap}
use cscript.Shape.Edges.{transition-Reaches, prune_transitions-kept}

program : Unit {0}
unfolding look find_loop find_entry move_entry move_entries adjust_capacity get set_slot set_value
    delete add_entry add_entries scan sweep_entry sweep_slots lookup child grow follow_edge
    transition prune_transitions position
program = tt

abbrev same : ℕ → ℕ
same n = n

abbrev root : List Shape
root = fresh ∷ []

root-IsHeap : IsHeap same same root
root-IsHeap = new_root-IsHeap same same [] (λ a s f. absurd (none≢some f))

abbrev reached : Option (Option ℕ × List Shape) → List Shape
reached none = []
reached (some r) = r.1

-- The heap once a key is added to the root.
abbrev after : List Shape
after = reached (transition same same root 0 7)

after_lem : transition same same root 0 7 ≡ some (some 1, after)
unfolding program
after_lem = refl

transition-Reaches_example :
    (r : Option ℕ × List Shape) × (transition same same root 0 7 ≡ some r)
    × Reaches same same root 0 fresh 7 r
unfolding program
transition-Reaches_example = transition-Reaches same same root root-IsHeap 0 fresh 7 refl refl

lookup-position_example : lookup same same fresh 7 ≡ some (position fresh.keys 7)
lookup-position_example =
    lookup-position same same same (λ i h. refl) fresh 7 (fresh-IsIndexed same same)

-- Two keys in turn, and each is found in its slot; a third is not.
abbrev found : List Shape → ℕ → Option (Option ℕ)
found (a ∷ b ∷ c ∷ heap) k = lookup same same c k
found heap k = none

two_keys :
    (found (reached (transition same same after 1 9)) 7 ≡ some (some 0))
    × (found (reached (transition same same after 1 9)) 9 ≡ some (some 1))
    × (found (reached (transition same same after 1 9)) 8 ≡ some none)
unfolding program
two_keys = (refl, refl, refl)

prune_transitions-kept_example :
    (t : Shape) × (prune_transitions same (λ a. false) fresh ≡ some t)
    × IsShape same same root t
    × (t.keys ≡ fresh.keys)
    × ((k : ℕ)
        → scan t.transitions.entries k
          ≡ kept same (λ k v. is_white (λ a. false) v) k (scan fresh.transitions.entries k))
prune_transitions-kept_example =
    prune_transitions-kept same same root (λ a. false) fresh (root-IsHeap 0 fresh refl)
