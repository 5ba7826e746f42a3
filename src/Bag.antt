-- ===== src/Bag.antt =====
-- src/runtime/object_bag.c: the properties of an object, in slots while its layout is a shared shape, and
-- in a table of its own from then on. Slots are a list as long as their capacity; `undefined` stands for
-- storage that is not written yet. A read or a write behind the storage is `none`.
pub mod Entries
pub mod Capacity
pub mod Holds
pub mod Methods
pub mod Order
pub mod Chain
pub mod Attributes
mod Tests
use cscript.Prelude.{
  ℕ, zero, suc, ◌+◌, ◌-◌, ◌*◌, ◌%◌, ◌/◌, Bool, true, false, not, List, [], ◌∷◌, ◌++◌, length, set,
  ltb, leb, replicate, ◌>>=◌, ◌==◌, if◌then◌else◌, Option, none, some, get_elem?,
}
use cscript.Value.{Value, undefined, number}
use cscript.Table.{Table, new, get, set_value, delete}
use cscript.Shape.{Shape, lookup, transition}

-- The union `as`: the address of the shape with the slots, or the table with the keys in order.
pub data Storage : Type 0 where
  slots : ℕ → List Value → Storage
  dictionary : Table → List ℕ → Storage

-- `ObjObject`
pub record Object : Type 0 where
  pub name : ℕ
  pub klass : Option ℕ
  pub frozen : Bool
  pub built_by_constructor : Bool
  pub prototype : Option ℕ
  pub privates : Option Table
  pub attributes : Option Table
  pub storage : Storage

-- `csObjectNew`, with the address of the empty shape.
abbrev pub new_object : ℕ → ℕ → Object
new_object empty_shape name = record {
  name = name;
  klass = none;
  frozen = false;
  built_by_constructor = false;
  prototype = none;
  privates = none;
  attributes = none;
  storage = slots empty_shape [];
}

-- The loop of `ensureSlots` over the capacities.
unfoldable pub grow_to : ℕ → ℕ → ℕ → ℕ
grow_to zero capacity needed = capacity
grow_to (suc fuel) capacity needed =
    let rest = grow_to fuel (capacity * 2) needed in if ltb capacity needed then rest else capacity

-- `ensureSlots`
unfoldable pub ensure_slots : List Value → ℕ → List Value
ensure_slots values needed =
    let old = length values in
    let capacity = grow_to needed (if ltb old 4 then 4 else old) needed in
    if leb needed old then values else values ++ replicate (capacity - old) undefined

-- `csObjectReserveSlots`
unfoldable pub reserve_slots : Storage → ℕ → Storage
reserve_slots (slots a values) needed = slots a (ensure_slots values needed)
reserve_slots (dictionary t keys) needed = dictionary t keys

-- A write to a slot.
abbrev pub store : List Value → ℕ → Value → Option (List Value)
store values i v = if ltb i (length values) then some (set values i v) else none

-- The loop of `csObjectDelete` that takes a key out of the list.
unfoldable pub remove_key : ℕ → List ℕ → List ℕ
remove_key key [] = []
remove_key key (k ∷ keys) = let rest = remove_key key keys in if k == key then keys else k ∷ rest

module _ (hash : ℕ → ℕ) where
  -- The loop of `convertToDictionary`.
  unfoldable pub put_all : List ℕ → List Value → Table → Option Table
  put_all [] values t = some t
  put_all (k ∷ keys) [] t = none
  put_all (k ∷ keys) (v ∷ values) t = do r ← set_value hash t k v; put_all keys values r.1

  -- `convertToDictionary`: the table and the keys.
  unfoldable pub convert : Shape → List Value → Option (Table × List ℕ)
  convert s values = do t ← put_all s.keys values new; some (t, s.keys)

  -- `dictionaryPut`
  unfoldable pub dictionary_put : Table → List ℕ → ℕ → Value → Option Storage
  dictionary_put t keys key v = do
    r ← set_value hash t key v
    some (dictionary r.1 (if r.0 then keys ++ key ∷ [] else keys))

  -- The end of `csObjectDelete`, in a table.
  unfoldable pub dictionary_delete : Table → List ℕ → ℕ → Option (Bool × Storage)
  dictionary_delete t keys key = do
    r ← delete hash t key
    some (r.0, dictionary r.1 (if r.0 then remove_key key keys else keys))

  module _ (from_double : ℕ → ℕ) where
    -- `csObjectGet`
    unfoldable pub get_property : List Shape → Storage → ℕ → Option (Option Value)
    get_property heap (dictionary t keys) key = get hash t key
    get_property heap (slots a values) key = do
      s ← get_elem? heap a
      slot ← lookup hash from_double s key
      elim slot [ none ↦ some none | some i ↦ do v ← get_elem? values i; some (some v) ]

    -- `csObjectDelete`
    unfoldable pub delete_property : List Shape → Storage → ℕ → Option (Bool × Storage)
    delete_property heap (dictionary t keys) key = dictionary_delete t keys key
    delete_property heap (slots a values) key = do
      s ← get_elem? heap a
      slot ← lookup hash from_double s key
      elim slot [
        | none ↦ some (false, slots a values)
        | some i ↦ do (t, keys) ← convert s values; dictionary_delete t keys key
      ]

    module _ (to_double : ℕ → ℕ) where
      -- The end of `csObjectPut`, behind the transition: a table, or the next shape with one more slot.
      unfoldable pub adopt :
          List Shape → Shape → List Value → ℕ → Value → Option ℕ → Option (Storage × List Shape)
      adopt heap s values key v none = do
        (t, keys) ← convert s values
        out ← dictionary_put t keys key v
        some (out, heap)
      adopt heap s values key v (some b) = do
        c ← get_elem? heap b
        out ← store (ensure_slots values (length c.keys)) (length c.keys - 1) v
        some (slots b out, heap)

      -- `csObjectPut`
      unfoldable pub put_property : List Shape → Storage → ℕ → Value → Option (Storage × List Shape)
      put_property heap (dictionary t keys) key v = do
        out ← dictionary_put t keys key v
        some (out, heap)
      put_property heap (slots a values) key v = do
        s ← get_elem? heap a
        slot ← lookup hash from_double s key
        elim slot [
          | none ↦ do
            (next, grown) ← transition hash to_double heap a key
            adopt grown s values key v next
          | some i ↦ do out ← store values i v; some (slots a out, heap)
        ]

  -- `csObjectLeaveShapeMode`
  unfoldable pub leave_shape_mode : List Shape → Storage → Option Storage
  leave_shape_mode heap (dictionary t keys) = some (dictionary t keys)
  leave_shape_mode heap (slots a values) = do
    s ← get_elem? heap a
    (t, keys) ← convert s values
    some (dictionary t keys)

  -- `csObjectCount`
  unfoldable pub count_properties : List Shape → Storage → Option ℕ
  count_properties heap (dictionary t keys) = some (length keys)
  count_properties heap (slots a values) = do s ← get_elem? heap a; some (length s.keys)

  -- `csObjectKeyAt`
  unfoldable pub key_at : List Shape → Storage → ℕ → Option ℕ
  key_at heap (dictionary t keys) i = get_elem? keys i
  key_at heap (slots a values) i = do s ← get_elem? heap a; get_elem? s.keys i

  -- `csObjectValueAt`
  unfoldable pub value_at : List Shape → Storage → ℕ → Option Value
  value_at heap (dictionary t keys) i = do
    k ← get_elem? keys i
    found ← get hash t k
    some (elim found [ none ↦ undefined | some v ↦ v ])
  value_at heap (slots a values) i = get_elem? values i
