-- ===== src/Bag/Capacity.antt =====
-- src/runtime/object_bag.c: `ensureSlots` keeps the slots and makes room.
use cscript.Prelude.{
  ℕ, zero, suc, ◌+◌, ◌-◌, ◌*◌, ◌<◌, ◌≤◌, ◌≡◌, refl, sym, arith, if◌then◌else◌, inl, inr, Bool-cases,
  List, [], ◌++◌, length, length-append, length-replicate, ltb, leb, leb→le, replicate,
}
use mathlib.Core.List.{append-nil}
use cscript.Value.{Value, undefined}
use cscript.Bag.{grow_to, ensure_slots}

-- The doubling ends at a capacity that suffices.
grow_to-le :
    (fuel capacity needed : ℕ)
    → 0 < capacity
    → needed ≤ capacity + fuel
    → needed ≤ grow_to fuel capacity needed
unfolding grow_to
grow_to-le zero capacity needed h l = omega arith
grow_to-le (suc fuel) capacity needed h l = elim (Bool-cases (ltb capacity needed)) [
  | inl e ↦ rw e (grow_to-le fuel (capacity * 2) needed (omega arith) (omega arith))
  | inr e ↦ rw e (ground (arith, e))
]

-- The slots so far stand in front of the new ones, and there are as many as needed.
pub record Makes (values : List Value) (needed : ℕ) (out : List Value) : Type 0 where
  pub spare : List Value
  pub joined : out ≡ values ++ spare
  pub room : needed ≤ length out

pub ensure_slots-Makes :
    (values : List Value) (needed : ℕ) → Makes values needed (ensure_slots values needed)
unfolding ensure_slots
ensure_slots-Makes values needed = elim (Bool-cases (leb needed (length values))) [
  | inl e ↦ rw e (record {
    spare = [];
    joined = sym (append-nil values);
    room = leb→le needed (length values) e;
  })
  | inr e ↦
      let start = if ltb (length values) 4 then 4 else length values in
      let capacity = grow_to needed start needed in
      let enough : needed ≤ capacity =
        grow_to-le needed start needed (ground arith) (omega arith) in
      let spare = replicate (capacity - length values) undefined in
      rw e (record {
        spare = spare;
        joined = refl;
        room = omega (
          arith,
          enough,
          length-append values spare,
          length-replicate (capacity - length values) undefined,
        );
      })
]
