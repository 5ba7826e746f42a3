-- ===== src/Event/Combined.antt =====
-- src/native/native_promise.c and src/runtime/vm_event.c: the tasks of `Promise.all` for plain values, and the
-- run of one of them.
use cscript.Prelude.{
  ℕ, suc, ◌-◌, ◌<◌, ◌≡◌, refl, sym, ap, ◌∙◌, arith, false, List, [], ◌∷◌, ◌++◌, length, set, get_or,
  map, append-append, none, some, ◌==◌, inl, inr, Bool-cases, if◌then◌else◌,
}
use mathlib.Core.List.{append-nil}
use cscript.Value.{Value, undefined}
use cscript.Event.{
  State, fulfilled, Microtask, Promise, new_promise, World, Machine, all, Combine, promise,
  is_pending, as_promise, queue_task, task_of, settle, fulfill,
}
use cscript.Event.Onward.{get_or-set_self, settle-Settles}
use cscript.Event.Runs.{combine, no_combine, collect, conclude, run_combine}
use cscript.Event.Quiet.{Every}
use cscript.Event.Natives.{combine_task, attach}

abbrev pub Plain : Machine → Value → Type 0
Plain m v = as_promise m v ≡ none

abbrev pub blank : List Value → List Value
blank vs = map (λ v. undefined) vs

-- The tasks of a combinator for plain values, from an index on.
abbrev pub tasks_of : ℕ → ℕ → List Value → List Microtask
tasks_of c i [] = []
tasks_of c i (v ∷ vs) = combine_task c (some i) v false ∷ tasks_of c (suc i) vs

pub attach-tasks :
    (m : Machine) (c i : ℕ) (vs : List Value) (w : World)
    → Every (Plain m) vs
    → attach m all c i vs w ≡ record w { queue = w.queue ++ tasks_of c i vs }
unfolding attach
attach-tasks m c i [] w h = ap (λ q. record w { queue = q }) (sym (append-nil w.queue))
attach-tasks m c i (v ∷ vs) w (p, h) = rw p (
    attach-tasks m c (suc i) vs (queue_task (combine_task c (some i) v false) w) h
    ∙ ap (λ q. record w { queue = q })
        (append-append w.queue (combine_task c (some i) v false ∷ []) _))

abbrev pub state_of : ℕ → Value → List Value → List Value → Combine
state_of target array done rest = record {
  results_array = array;
  results = done ++ blank rest;
  remaining = length rest;
  target = target;
  mode = all;
}

-- A combinator that waits for the rest of its values.
pub record Collecting (c target : ℕ) (array : Value) (done rest : List Value) (w : World)
    : Type 0 where
  pub queue : w.queue ≡ tasks_of c (length done) rest
  pub slot : c < length w.combines
  pub state : combine w c ≡ state_of target array done rest
  pub known : target < length w.promises
  pub waiting : promise w target ≡ new_promise

-- One that has its values.
pub record All (c target : ℕ) (array : Value) (values : List Value) (w : World) : Type 0 where
  pub state : (promise w target).state ≡ fulfilled
  pub value : (promise w target).value ≡ array
  pub results : (combine w c).results ≡ values
  pub queue : w.queue ≡ []

set-blank :
    (done : List Value) (v : Value) (rest : List Value)
    → set (done ++ undefined ∷ blank rest) (length done) v ≡ (done ++ v ∷ []) ++ blank rest
set-blank [] v rest = refl
set-blank (x ∷ done) v rest = ap (λ xs. x ∷ xs) (set-blank done v rest)

-- One more value is in; the last one settles the promise.
abbrev pub told : Machine → ℕ → ℕ → Value → List Value → List Value → World → World
told m c target array done rest w =
    let w' : World = record w { combines = set w.combines c (state_of target array done rest) } in
    if suc (length rest) == 1 then fulfill m target array w' else w'

told_state :
    (target : ℕ) (array v : Value) (done rest : List Value)
    → record (state_of target array done (v ∷ rest)) {
      results = set (done ++ undefined ∷ blank rest) (length done) v;
      remaining = suc (length rest) - 1;
    }
      ≡ state_of target array (done ++ v ∷ []) rest
told_state target array v done rest =
    let with_both : List Value → ℕ → Combine =
      λ xs n. record (state_of target array done rest) { results = xs; remaining = n } in
    ap (λ xs. with_both xs (suc (length rest) - 1)) (set-blank done v rest)
    ∙ ap (λ n. with_both ((done ++ v ∷ []) ++ blank rest) n) (omega arith)

collect-told :
    (m : Machine) (c target : ℕ) (array v : Value) (done rest : List Value) (w : World)
    → combine w c ≡ state_of target array done (v ∷ rest)
    → collect m (combine_task c (some (length done)) v false) c v w
      ≡ told m c target array (done ++ v ∷ []) rest w
unfolding collect
collect-told m c target array v done rest w e =
    let finish : Combine → World = λ s.
      if suc (length rest) == 1
      then conclude m all s (record w { combines = set w.combines c s })
      else record w { combines = set w.combines c s } in
    rw e (ap finish (told_state target array v done rest))

pub run_combine-told :
    (m : Machine) (c target : ℕ) (array v : Value) (done rest : List Value) (w : World)
    → combine w c ≡ state_of target array done (v ∷ rest)
    → promise w target ≡ new_promise
    → run_combine m (combine_task c (some (length done)) v false) c w
      ≡ told m c target array (done ++ v ∷ []) rest w
unfolding run_combine
run_combine-told m c target array v done rest w e p =
    rw (e, p) (collect-told m c target array v done rest w e)

settled_same :
    (p : ℕ) (st : State) (v : Value) (w : World)
    → is_pending (promise w p).state ≡ false
    → settle p st v w ≡ w
unfolding settle
settled_same p st v w e = rw e refl

fulfill-plain :
    (m : Machine) (p : ℕ) (v : Value) (w : World)
    → as_promise m v ≡ none
    → fulfill m p v w ≡ settle p fulfilled v w
unfolding fulfill
fulfill-plain m p v w h = elim (Bool-cases (is_pending (promise w p).state)) [
  | inl e ↦ rw (e, h) refl
  | inr e ↦ rw e (sym (settled_same p fulfilled v w e))
]

settle-combines :
    (p : ℕ) (st : State) (v : Value) (w : World) → (settle p st v w).combines ≡ w.combines
unfolding settle
settle-combines p st v w = elim (Bool-cases (is_pending (promise w p).state)) [
  | inl e ↦ rw e refl
  | inr e ↦ rw e refl
]

-- The last value.
pub told-All :
    (m : Machine) (c target : ℕ) (array : Value) (done : List Value) (w : World)
    → as_promise m array ≡ none
    → c < length w.combines
    → target < length w.promises
    → promise w target ≡ new_promise
    → w.queue ≡ []
    → All c target array done (told m c target array done [] w)
told-All m c target array done w flat h k p q =
    let w' : World = record w { combines = set w.combines c (state_of target array done []) } in
    let at =
      settle-Settles target fulfilled array w' k (ap (λ (q : Promise). is_pending q.state) p) in
    let same = get_or-set_self w.combines c (state_of target array done []) no_combine h in
    rw (fulfill-plain m target array w' flat) (record {
      state = at.state;
      value = at.value;
      results =
          ap (λ cs. (get_or cs c no_combine).results) (settle-combines target fulfilled array w')
          ∙ (ap (λ (s : Combine). s.results) same ∙ append-nil done);
      queue =
          at.queued
          ∙ (ap (λ (r : Promise). w.queue ++ map (task_of fulfilled array) r.reactions) p
              ∙ (append-nil w.queue ∙ q));
    })
