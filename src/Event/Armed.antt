-- ===== src/Event/Armed.antt =====
-- src/native/native_promise.c and src/runtime/vm_event.c: what each operation on the timers keeps.
use cscript.Prelude.{
  ℕ, suc, ◌<◌, ◌≤◌, ◌≡◌, refl, ap, arith, tests, Bool, false, not, ◌&&◌, List, [], ◌∷◌, length, ltb,
  ◌==◌, Option, none, some, inl, inr, Bool-cases, ==_iff, ltb→lt, ◌⊎◌,
}
use mathlib.Core.Path.{subst}
use cscript.Value.{Value, undefined, null, boolean, number, object}
use cscript.Event.{Timer, Timers}
use cscript.Event.Quiet.{Every}
use cscript.Event.Timing.{
  timers_max, seat, insert, schedule, remove, clear_id, clear, take_first, rearm,
}
use cscript.Event.Sorted.{
  Before, IsSorted, Fresh, Holds, Every-map, Every-insert_at, length-insert_at, insert-Inserts,
  both_true,
}

-- A timer with the next number inserted below the bound.
insert-Holds :
    (new : Timer) (ts out : Timers)
    → Holds ts
    → length ts.entries < timers_max
    → new.sequence ≡ ts.next_sequence
    → out.entries ≡ insert new ts.entries
    → out.next_sequence ≡ suc ts.next_sequence
    → Holds out
insert-Holds new ts out h l s e n =
    let older : Every (Fresh new.sequence) ts.entries =
      Every-map (λ t f. omega (arith, s, f)) ts.entries h.fresh in
    record {
      sorted = rw e ((insert-Inserts new ts.entries h.sorted older).sorted);
      fresh =
          rw (e, n)
            (Every-insert_at (Fresh (suc ts.next_sequence))
              (seat new ts.entries (length ts.entries)) new ts.entries (omega (arith, s))
              (Every-map (λ t f. omega (arith, f)) ts.entries h.fresh));
      bound = omega (
        arith,
        l,
        ap length e,
        length-insert_at (seat new ts.entries (length ts.entries)) new ts.entries,
      );
    }

-- What scheduling does: an error without a function, or at the limit, and else a timer with a new handle.
abbrev pub Schedules : List Value → Timers → Option (Timers × ℕ) → Type 0
Schedules args ts none = (args ≡ []) ⊎ (length ts.entries ≡ timers_max)
Schedules args ts (some (out, id)) =
    Holds out × (id ≡ ts.next_id) × (length out.entries ≡ suc (length ts.entries))

pub schedule-Schedules :
    (add : ℕ → ℕ → ℕ) (now : ℕ) (repeating : Bool) (args : List Value) (ts : Timers)
    → Holds ts
    → Schedules args ts (schedule add now repeating args ts)
unfolding schedule
schedule-Schedules add now repeating [] ts h = inl refl
schedule-Schedules add now repeating (callback ∷ args) ts h =
    elim (Bool-cases (length ts.entries == timers_max)) [
      | inl e ↦ rw e (inr ((==_iff (length ts.entries) timers_max).0 e))
      | inr e ↦ rw e (
        insert-Holds _ ts _ h (below (length ts.entries) e h.bound) refl refl refl,
        refl,
        length-insert_at _ _ ts.entries,
      )
    ]
  where
    below : (n : ℕ) → (n == timers_max) ≡ false → n ≤ timers_max → n < timers_max
    below n e h = grind tests

Every-remove : (P : Timer → Type 0) (id : ℕ) (xs : List Timer) → Every P xs → Every P (remove id xs)
unfolding remove
Every-remove P id [] h = h
Every-remove P id (x ∷ xs) (p, h) = elim (Bool-cases (x.id == id)) [
  | inl e ↦ rw e h
  | inr e ↦ rw e (p, Every-remove P id xs h)
]

remove-IsSorted : (id : ℕ) (xs : List Timer) → IsSorted xs → IsSorted (remove id xs)
unfolding remove
remove-IsSorted id [] h = h
remove-IsSorted id (x ∷ xs) (p, h) = elim (Bool-cases (x.id == id)) [
  | inl e ↦ rw e h
  | inr e ↦ rw e (Every-remove (Before x) id xs p, remove-IsSorted id xs h)
]

length-remove : (id : ℕ) (xs : List Timer) → length (remove id xs) ≤ length xs
unfolding remove
length-remove id [] = omega arith
length-remove id (x ∷ xs) = elim (Bool-cases (x.id == id)) [
  | inl e ↦ rw e (omega arith)
  | inr e ↦ rw e (omega (arith, length-remove id xs))
]

clear_id-Holds : (o : Option ℕ) (ts : Timers) → Holds ts → Holds (clear_id o ts)
clear_id-Holds none ts h = h
clear_id-Holds (some id) ts h = record {
  sorted = remove-IsSorted id ts.entries h.sorted;
  fresh = Every-remove (Fresh ts.next_sequence) id ts.entries h.fresh;
  bound = omega (arith, h.bound, length-remove id ts.entries);
}

pub clear-Holds :
    (to_int : ℕ → Option ℕ) (args : List Value) (ts : Timers)
    → Holds ts
    → Holds (clear to_int args ts)
unfolding clear
clear-Holds to_int [] ts h = h
clear-Holds to_int (undefined ∷ args) ts h = h
clear-Holds to_int (null ∷ args) ts h = h
clear-Holds to_int (boolean b ∷ args) ts h = h
clear-Holds to_int (number bits ∷ args) ts h = clear_id-Holds (to_int bits) ts h
clear-Holds to_int (object a ∷ args) ts h = h

-- The first timer is taken, and it is to fire before every other.
pub take_first-Holds :
    (t : Timer) (rest : List Timer) (ts : Timers)
    → ts.entries ≡ t ∷ rest
    → Holds ts
    → Holds (take_first t rest ts) × Every (Before t) rest
take_first-Holds t rest ts e h =
    let (before, sorted) = subst IsSorted e h.sorted in
    let (f, fresh) = subst (Every (Fresh ts.next_sequence)) e h.fresh in
    (record { sorted = sorted; fresh = fresh; bound = omega (arith, h.bound, ap length e) }, before)

pub rearm-Holds :
    (add : ℕ → ℕ → ℕ) (now : ℕ) (t : Timer) (ts : Timers) → Holds ts → Holds (rearm add now t ts)
unfolding rearm
rearm-Holds add now t ts h =
    elim (Bool-cases
      (ltb 0 t.repeat && (not ts.firing_cancelled && ltb (length ts.entries) timers_max))) [
        | inl e ↦
            let (_, both) = both_true (ltb 0 t.repeat) _ e in
            let (_, room) = both_true (not ts.firing_cancelled) _ both in
            rw e (insert-Holds _ ts _ h (ltb→lt (length ts.entries) timers_max room) refl refl refl)
        | inr e ↦ rw e (record { sorted = h.sorted; fresh = h.fresh; bound = h.bound })
      ]
