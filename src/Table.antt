-- ===== src/Table.antt =====
-- src/runtime/table.c: the open-addressing hash table of globals, shapes and property bags. Keys are
-- interned, so a key is the address of its string and comparison is that of addresses; `hash` is the
-- hash that each string carries. The probe loop has no exit of its own, so it runs on fuel, one round
-- for each slot: `none` is a loop that does not end.
pub mod Probe
pub mod Slots
pub mod Find
pub mod Write
pub mod Resize
pub mod Methods
pub mod Merge
pub mod Sweep
pub mod Strings
mod Tests
use cscript.Prelude.{
  ℕ, zero, suc, ◌+◌, ◌*◌, ◌%◌, ◌^◌, Bool, true, false, List, [], ◌∷◌, length, get_or, set,
  replicate, ltb, ◌==◌, if◌then◌else◌, Option, none, some,
}
use cscript.Value.{Value, null, boolean, is_null}

-- `Entry`; a NULL key is `none`.
pub record Entry : Type 0 where
  pub key : Option ℕ
  pub value : Value

-- `Table`; the capacity is the length of `entries`.
pub record Table : Type 0 where
  pub count : ℕ
  pub entries : List Entry
  pub version : ℕ

abbrev pub empty_slot : Entry
empty_slot = record { key = none; value = null }

abbrev pub tombstone : Entry
tombstone = record { key = none; value = boolean true }

-- `csTableInit`
abbrev pub new : Table
new = record { count = 0; entries = []; version = 0 }

-- `csTableFree`; the memory is not modelled.
abbrev pub free : Table → Table
free t = new

-- The slot at an index.
abbrev pub slot : List Entry → ℕ → Entry
slot entries i = get_or entries i empty_slot

-- `tombstone != NULL ? tombstone : entry`
abbrev pub first : Option ℕ → ℕ → ℕ
first none i = i
first (some t) i = t

-- What one round of the loop of `findEntry` finds: the end at an index, or the first tombstone so far.
pub data Round : Type 0 where
  found : ℕ → Round
  onward : Option ℕ → Round

unfoldable pub look : Option ℕ → Value → ℕ → ℕ → Option ℕ → Round
look none v key i grave = if is_null v then found (first grave i) else onward (some (first grave i))
look (some k) v key i grave = if k == key then found i else onward grave

-- The loop of `findEntry`. The capacity is a power of two, so that `& (capacity - 1)` is `%`.
unfoldable pub find_loop : ℕ → List Entry → ℕ → ℕ → Option ℕ → Option ℕ
find_loop zero entries key i grave = none
find_loop (suc fuel) entries key i grave =
    let e = slot entries i in
    elim (look e.key e.value key i grave) [
      | found j ↦ some j
      | onward g ↦ find_loop fuel entries key ((i + 1) % length entries) g
    ]

-- `CS_GROW_CAPACITY`
abbrev pub grow_capacity : ℕ → ℕ
grow_capacity cap = if ltb cap 8 then 8 else cap * 2

abbrev pub is_live : Option ℕ → Bool
is_live none = false
is_live (some k) = true

module _ (hash : ℕ → ℕ) where
  -- `findEntry`
  unfoldable pub find_entry : List Entry → ℕ → Option ℕ
  find_entry entries key = find_loop (length entries) entries key (hash key % length entries) none

  -- One round of the second loop of `adjustCapacity`; `count` is that of the new entries.
  unfoldable pub move_entry : Option ℕ → Value → List Entry × ℕ → Option (List Entry × ℕ)
  move_entry none v (fresh, count) = some (fresh, count)
  move_entry (some k) v (fresh, count) = elim (find_entry fresh k) [
    | none ↦ none
    | some i ↦ some (set fresh i (record { key = some k; value = v }), count + 1)
  ]

  unfoldable pub move_entries : List Entry → List Entry × ℕ → Option (List Entry × ℕ)
  move_entries [] state = some state
  move_entries (e ∷ es) state = elim (move_entry e.key e.value state) [
    | none ↦ none
    | some next ↦ move_entries es next
  ]

  -- `adjustCapacity`
  unfoldable pub adjust_capacity : Table → ℕ → Option Table
  adjust_capacity t capacity = elim (move_entries t.entries (replicate capacity empty_slot, 0)) [
    | none ↦ none
    | some (entries, count) ↦
        some (record { count = count; entries = entries; version = (t.version + 1) % 2 ^ 32 })
  ]

  -- `csTableGet`
  unfoldable pub get : Table → ℕ → Option (Option Value)
  get t key = if t.count == 0 then some none else elim (find_entry t.entries key) [
    | none ↦ none
    | some i ↦ let e = slot t.entries i in some (if is_live e.key then some e.value else none)
  ]

  -- `csTableSet`, behind the growth: whether the key is new, and the table.
  unfoldable pub set_slot : Table → ℕ → Value → Option (Bool × Table)
  set_slot t key v = elim (find_entry t.entries key) [
    | none ↦ none
    | some i ↦
        let e = slot t.entries i in
        let entries = set t.entries i (record { key = some key; value = v }) in
        some (
          if is_live e.key then (false, record t { entries = entries }) else (
            true,
            record t {
              count = if is_null e.value then t.count + 1 else t.count;
              entries = entries;
            },
          ))
  ]

  -- The test `count + 1 > capacity * 0.75` is between numbers that a double holds.
  unfoldable pub set_value : Table → ℕ → Value → Option (Bool × Table)
  set_value t key v =
      let capacity = length t.entries in
      if ltb (capacity * 3) ((t.count + 1) * 4)
      then elim (adjust_capacity t (grow_capacity capacity)) [
        | none ↦ none
        | some grown ↦ set_slot grown key v
      ]
      else set_slot t key v

  -- `csTableDelete`
  unfoldable pub delete : Table → ℕ → Option (Bool × Table)
  delete t key = if t.count == 0 then some (false, t) else elim (find_entry t.entries key) [
    | none ↦ none
    | some i ↦ some (
        if is_live (slot t.entries i).key
        then (
          true,
          record t { entries = set t.entries i tombstone; version = (t.version + 1) % 2 ^ 32 },
        )
        else (false, t))
  ]
