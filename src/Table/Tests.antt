-- ===== src/Table/Tests.antt =====
-- A table at eight slots where every key begins at slot 1, and the theorems there.
use cscript.Prelude.{ℕ, List, [], ◌∷◌, ◌≡◌, refl, Bool, false, some, none, Option, if◌then◌else◌}
use cscript.Value.{Value, number}
use cscript.Table.{
  Table, new, free, look, find_loop, find_entry, move_entry, move_entries, adjust_capacity, get,
  set_slot, set_value, delete,
}
use cscript.Table.Slots.{scan}
use cscript.Table.Merge.{add_all, Covers, add_all-Covers}
use cscript.Table.Strings.{
  probe_slot, string_loop, find_string, is_string, Finds, find_string-Finds,
}
use cscript.Table.Sweep.{remove_white, remove_white-scan}
use cscript.Table.Methods.{
  IsValid, Sets, Deletes, new-IsValid, get-scan, set_value-Sets, delete-Deletes,
}

program : Unit {0}
unfolding look find_loop find_entry move_entry move_entries adjust_capacity get set_slot set_value
    delete scan probe_slot string_loop find_string
program = tt

abbrev collide : ℕ → ℕ
collide k = 1

set_value-Sets_example :
    (r : Bool × Table) × (set_value collide new 7 (number 70) ≡ some r)
    × Sets collide new 7 (number 70) r
set_value-Sets_example = set_value-Sets collide new 7 (number 70) (new-IsValid collide)

abbrev one : Table
one = set_value-Sets_example.0.1

one-IsValid : IsValid collide one
one-IsValid = set_value-Sets_example.2.valid

get-scan_example : get collide one 9 ≡ some (scan one.entries 9)
get-scan_example = get-scan collide one 9 one-IsValid

delete-Deletes_example :
    (r : Bool × Table) × (delete collide one 7 ≡ some r) × Deletes collide one 7 r
delete-Deletes_example = delete-Deletes collide one 7 one-IsValid

-- A key behind a tombstone is still found.
abbrev step : Option (Bool × Table) → (Table → Option (Bool × Table)) → Option (Bool × Table)
step none f = none
step (some (b, t)) f = f t

abbrev answer : Option (Bool × Table) → Option (Option Value)
answer none = none
answer (some (b, t)) = get collide t 9

walks :
    answer (
      step
        (step (set_value collide new 7 (number 70)) (λ t. set_value collide t 9 (number 90)))
        (λ t. delete collide t 7))
    ≡ some (some (number 90))
unfolding program
walks = refl

add_all-Covers_example :
    (out : Table) × (add_all collide one new ≡ some out) × Covers collide (scan one.entries) new out
add_all-Covers_example = add_all-Covers collide one new one-IsValid (new-IsValid collide)

remove_white-scan_example :
    (out : Table) × (remove_white collide (λ k. false) one ≡ some out)
    × IsValid collide out
    × ((j : ℕ) → scan out.entries j ≡ (if false then scan one.entries j else none))
remove_white-scan_example = remove_white-scan collide (λ k. false) one one-IsValid

abbrev text : ℕ → List ℕ
text k = k ∷ []

find_string-Finds_example :
    (r : Option ℕ) × (find_string collide text one (7 ∷ []) 1 ≡ some r)
    × Finds one.entries (is_string collide text (7 ∷ []) 1) r
find_string-Finds_example = find_string-Finds collide text one (7 ∷ []) 1 one-IsValid

abbrev searched : Option (Bool × Table) → List ℕ → ℕ → Option (Option ℕ)
searched none chars h = none
searched (some (b, t)) chars h = find_string collide text t chars h

-- The string is found by its bytes, not by others and not under another hash, and not in a freed table.
by_bytes :
    (searched (set_value collide new 7 (number 70)) (7 ∷ []) 1 ≡ some (some 7))
    × (searched (set_value collide new 7 (number 70)) (8 ∷ []) 1 ≡ some none)
    × (searched (set_value collide new 7 (number 70)) (7 ∷ []) 2 ≡ some none)
    × (find_string collide text (free one) (7 ∷ []) 1 ≡ some none)
unfolding program
by_bytes = (refl, refl, refl, refl)
