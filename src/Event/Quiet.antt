-- ===== src/Event/Quiet.antt =====
-- src/runtime/vm_event.c: a queue in which no program code runs is drained in as many runs as its tasks and
-- the reactions that wait have turns.
use cscript.Prelude.{
  ℕ, zero, suc, ◌+◌, ◌≤◌, ◌≡◌, refl, sym, ap, arith, Bool, true, false, List, [], ◌∷◌, ◌++◌, map,
  set, get_or, Option, none, if◌then◌else◌,
}
use mathlib.Core.Path.{subst}
use cscript.Value.{Value}
use cscript.Event.{
  State, Reaction, Microtask, Promise, World, Machine, is_rejected, as_promise, task_of, task_by,
}
use cscript.Event.Runs.{is_missing}

module _ {ℓ} {A : Type ℓ} where
  abbrev pub Every : (A → Type 0) → List A → Type 0
  Every P [] = Unit
  Every P (x ∷ xs) = P x × Every P xs

  pub Every-append :
      (P : A → Type 0) (xs ys : List A) → Every P xs → Every P ys → Every P (xs ++ ys)
  Every-append P [] ys h g = g
  Every-append P (x ∷ xs) ys (p, h) g = (p, Every-append P xs ys h g)

  pub Every-set :
      (P : A → Type 0) (xs : List A) (i : ℕ) (y : A) → P y → Every P xs → Every P (set xs i y)
  Every-set P [] i y p h = h
  Every-set P (x ∷ xs) zero y p (q, h) = (p, h)
  Every-set P (x ∷ xs) (suc i) y p (q, h) = (q, Every-set P xs i y p h)

  pub Every-get_or :
      (P : A → Type 0) (xs : List A) (i : ℕ) (d : A) → P d → Every P xs → P (get_or xs i d)
  Every-get_or P [] i d p h = p
  Every-get_or P (x ∷ xs) zero d p (q, h) = q
  Every-get_or P (x ∷ xs) (suc i) d p (q, h) = Every-get_or P xs i d p h

  abbrev pub total : (A → ℕ) → List A → ℕ
  total f [] = 0
  total f (x ∷ xs) = f x + total f xs

  pub total-append : (f : A → ℕ) (xs ys : List A) → total f (xs ++ ys) ≡ total f xs + total f ys
  total-append f [] ys = omega arith
  total-append f (x ∷ xs) ys = omega (arith, total-append f xs ys)

  pub total-set :
      (f : A → ℕ) (xs : List A) (i : ℕ) (y d : A)
      → f d ≡ 0
      → total f (set xs i y) + f (get_or xs i d) ≤ total f xs + f y
  total-set f [] i y d h = omega (arith, h)
  total-set f (x ∷ xs) zero y d h = omega arith
  total-set f (x ∷ xs) (suc i) y d h = omega (arith, total-set f xs i y d h)

-- The turns that a task, a reaction, a promise and a world still have.
abbrev pub turns : Microtask → ℕ
turns t = suc t.extra_hops

abbrev pub reaction_turns : Reaction → ℕ
reaction_turns r = suc r.extra_hops

abbrev pub promise_turns : Promise → ℕ
promise_turns q = total reaction_turns q.reactions

abbrev pub all_turns : World → ℕ
all_turns w = total turns w.queue + total promise_turns w.promises

-- No code of the program runs: no fiber, no combinator and no handler, and no value is a promise.
pub record QuietTask (m : Machine) (t : Microtask) : Type 0 where
  pub no_fiber : t.fiber ≡ none
  pub no_combine : t.combine_state ≡ none
  pub no_handler : is_missing t.callback ≡ true
  pub flat : as_promise m t.argument ≡ none

pub record QuietReaction (r : Reaction) : Type 0 where
  pub no_fiber : r.fiber ≡ none
  pub no_combine : r.combine_state ≡ none
  pub no_fulfilled : is_missing r.on_fulfilled ≡ true
  pub no_rejected : is_missing r.on_rejected ≡ true

abbrev pub QuietPromise : Promise → Type 0
QuietPromise q = Every QuietReaction q.reactions

pub record Quiet (m : Machine) (w : World) : Type 0 where
  pub tasks : Every (QuietTask m) w.queue
  pub promises : Every QuietPromise w.promises

task_by-quiet :
    (st : State) (v : Value) (r : Reaction) (f c : Option ℕ)
    → f ≡ none
    → c ≡ none
    → task_by st v r f c ≡ task_by st v r none none
task_by-quiet st v r f c e g = rw (e, g) refl

missing-if :
    (b : Bool) (x y : Value)
    → is_missing x ≡ true
    → is_missing y ≡ true
    → is_missing (if b then x else y) ≡ true
missing-if true x y h g = h
missing-if false x y h g = g

-- The tasks that settling queues are quiet, and have the turns of the reactions.
pub queued-QuietTask :
    (m : Machine) (st : State) (v : Value) (rs : List Reaction)
    → as_promise m v ≡ none
    → Every QuietReaction rs
    → Every (QuietTask m) (map (task_of st v) rs)
queued-QuietTask m st v [] f h = h
queued-QuietTask m st v (r ∷ rs) f (q, h) = (
  subst (QuietTask m) (sym (task_by-quiet st v r r.fiber r.combine_state q.no_fiber q.no_combine))
      (record {
        no_fiber = refl;
        no_combine = refl;
        no_handler =
            missing-if (is_rejected st) r.on_rejected r.on_fulfilled q.no_rejected q.no_fulfilled;
        flat = f;
      }),
  queued-QuietTask m st v rs f h,
)

pub queued-turns :
    (st : State) (v : Value) (rs : List Reaction)
    → Every QuietReaction rs
    → total turns (map (task_of st v) rs) ≡ total reaction_turns rs
queued-turns st v [] h = refl
queued-turns st v (r ∷ rs) (q, h) = omega (
  arith,
  queued-turns st v rs h,
  ap turns (task_by-quiet st v r r.fiber r.combine_state q.no_fiber q.no_combine),
)
