-- ===== src/Event.antt =====
-- src/runtime/vm_event.c and src/runtime/object_new.c: promises and the queue of microtasks. The queue is
-- the list of the tasks that have not run, and the task that runs is no longer in it. Promises and the
-- states of combinators are named by their place in a list; no pointer dangles. Which address of the heap
-- is that of a promise is a parameter, and so are the calls of program code and the clock.
pub mod Onward
pub mod Natives
pub mod Runs
pub mod Acts
pub mod Running
pub mod Drain
pub mod Passing
pub mod Delivery
pub mod Noted
pub mod Report
pub mod Quiet
pub mod Ending
pub mod Timing
pub mod Sorted
pub mod Armed
pub mod Loop
pub mod Finished
pub mod Combined
pub mod Gathered
mod Tests
use cscript.Prelude.{
  ℕ, zero, suc, ◌+◌, ◌-◌, Bool, true, false, not, ◌&&◌, ◌||◌, List, [], ◌∷◌, ◌++◌, map, length, set,
  get_or, ltb, ◌==◌, if◌then◌else◌, Option, none, some,
}
use cscript.Value.{Value, undefined, null, object}

-- `PromiseState`
pub data State : Type 0 where
  pending : State
  fulfilled : State
  rejected : State

abbrev pub is_pending : State → Bool
is_pending pending = true
is_pending s = false

abbrev pub is_rejected : State → Bool
is_rejected rejected = true
is_rejected s = false

-- `Reaction`; an index of -1 is `none`.
pub record Reaction : Type 0 where
  pub on_fulfilled : Value
  pub on_rejected : Value
  pub result : Option ℕ
  pub fiber : Option ℕ
  pub is_finally : Bool
  pub extra_hops : ℕ
  pub combine_state : Option ℕ
  pub combine_index : Option ℕ

-- `Microtask`
pub record Microtask : Type 0 where
  pub callback : Value
  pub argument : Value
  pub result : Option ℕ
  pub is_rejection : Bool
  pub fiber : Option ℕ
  pub is_finally : Bool
  pub extra_hops : ℕ
  pub combine_state : Option ℕ
  pub combine_index : Option ℕ

-- `ObjPromise`
pub record Promise : Type 0 where
  pub state : State
  pub value : Value
  pub reactions : List Reaction
  pub handled : Bool

-- `CombineMode`
pub data Mode : Type 0 where
  all : Mode
  race : Mode
  all_settled : Mode
  any : Mode

-- The array of `combineState`, with the array of its results.
pub record Combine : Type 0 where
  pub results_array : Value
  pub results : List Value
  pub remaining : ℕ
  pub target : ℕ
  pub mode : Mode

-- `Timer`; a time is the bit pattern of a double that is not below zero, and such patterns are ordered as
-- the doubles are.
pub record Timer : Type 0 where
  pub due : ℕ
  pub sequence : ℕ
  pub id : ℕ
  pub callback : Value
  pub cancelled : Bool
  pub repeat : ℕ

-- The timers of `VM`, with the counts they are numbered by.
pub record Timers : Type 0 where
  pub entries : List Timer
  pub next_sequence : ℕ
  pub next_id : ℕ
  pub firing : Option ℕ
  pub firing_cancelled : Bool

-- What the event loop keeps of the virtual machine; `noted` are the rejections noted so far.
pub record World : Type 0 where
  pub promises : List Promise
  pub queue : List Microtask
  pub noted : List ℕ
  pub combines : List Combine
  pub timers : Timers

-- What the machine is to promises: which address is that of a promise, and the calls of program code.
-- `settlementRecord` and `csAggregateError` only make an object, of which no more is known here.
pub data Called : Type 0 where
  returned : Value → World → Called
  threw : Value → World → Called
  stopped : World → Called

pub record Machine : Type 0 where
  pub promise_at : ℕ → Option ℕ
  pub settled_record : Value → Bool → Value
  pub aggregate : List Value → Value
  pub resume : ℕ → Value → Bool → World → World
  pub call : Value → List Value → World → Called

-- `csPromiseNew`
abbrev pub new_promise : Promise
new_promise = record { state = pending; value = undefined; reactions = []; handled = false }

abbrev pub promise : World → ℕ → Promise
promise w p = get_or w.promises p new_promise

abbrev pub change : ℕ → Promise → World → World
change p q w = record w { promises = set w.promises p q }

abbrev pub plain_task : Value → Value → Option ℕ → Bool → Microtask
plain_task callback argument result is_rejection = record {
  callback = callback;
  argument = argument;
  result = result;
  is_rejection = is_rejection;
  fiber = none;
  is_finally = false;
  extra_hops = 0;
  combine_state = none;
  combine_index = none;
}

abbrev pub queue_task : Microtask → World → World
queue_task t w = record w { queue = w.queue ++ t ∷ [] }

-- `csVMQueueMicrotask`
abbrev pub queue_microtask : Value → Value → Option ℕ → Bool → World → World
queue_microtask callback argument result is_rejection w =
    queue_task (plain_task callback argument result is_rejection) w

-- A change of the last entry, which has just been added.
unfoldable pub map_last {ℓ} : {A : Type ℓ} → (A → A) → List A → List A
map_last f [] = []
map_last f (x ∷ []) = f x ∷ []
map_last f (x ∷ y ∷ xs) = x ∷ map_last f (y ∷ xs)

-- What `settle` queues for a reaction.
abbrev pub task_by : State → Value → Reaction → Option ℕ → Option ℕ → Microtask
task_by state value r (some fiber) combine =
    record (plain_task undefined value none (is_rejected state)) { fiber = some fiber }
task_by state value r none (some c) = record (plain_task undefined value none (is_rejected state)) {
  combine_state = some c;
  combine_index = r.combine_index;
}
task_by state value r none none =
    record (plain_task (if is_rejected state then r.on_rejected else r.on_fulfilled) value r.result
      (is_rejected state)) { is_finally = r.is_finally; extra_hops = r.extra_hops }

abbrev pub task_of : State → Value → Reaction → Microtask
task_of state value r = task_by state value r r.fiber r.combine_state

-- `settle`
unfoldable pub settle : ℕ → State → Value → World → World
settle p state value w =
    let q = promise w p in
    if is_pending q.state
    then record w {
      promises =
          set w.promises p
            (record { state = state; value = value; reactions = []; handled = q.handled });
      queue = w.queue ++ map (task_of state value) q.reactions;
      noted = if is_rejected state && not q.handled then w.noted ++ p ∷ [] else w.noted;
    }
    else w

-- `csPromiseReject`
abbrev pub reject : ℕ → Value → World → World
reject p reason w = settle p rejected reason w

-- `csPromiseAddReaction`
unfoldable pub add_reaction : ℕ → Value → Value → Option ℕ → World → World
add_reaction p on_fulfilled on_rejected result w =
    let q = promise w p in
    let r : Reaction = record {
      on_fulfilled = on_fulfilled;
      on_rejected = on_rejected;
      result = result;
      fiber = none;
      is_finally = false;
      extra_hops = 0;
      combine_state = none;
      combine_index = none;
    } in
    if is_pending q.state
    then change p (record q { reactions = q.reactions ++ r ∷ []; handled = true }) w
    else queue_microtask (if is_rejected q.state then on_rejected else on_fulfilled) q.value result
        (is_rejected q.state) (change p (record q { handled = true }) w)

-- The turn that adopting another promise costs.
abbrev pub hop_reaction : Reaction → Reaction
hop_reaction r = record r { extra_hops = 1 }

abbrev pub hop_task : Microtask → Microtask
hop_task t = record t { extra_hops = 1 }

-- A change of what `csPromiseAddReaction` has just added for a promise: the last reaction of one that is
-- pending, and else the last task.
unfoldable pub amend : (Reaction → Reaction) → (Microtask → Microtask) → ℕ → World → World
amend f g p w =
    let q = promise w p in
    if is_pending q.state
    then change p (record q { reactions = map_last f q.reactions }) w
    else record w { queue = map_last g w.queue }

-- The part of `csPromiseFulfill` for a promise `inner`.
abbrev pub adopt_promise : ℕ → ℕ → World → World
adopt_promise p inner w =
    amend hop_reaction hop_task inner (add_reaction inner undefined undefined (some p) w)

-- `IS_PROMISE` and `AS_PROMISE`
abbrev pub as_promise : Machine → Value → Option ℕ
as_promise m (object a) = m.promise_at a
as_promise m v = none

abbrev pub fulfill_by : ℕ → Value → Option ℕ → World → World
fulfill_by p v none w = settle p fulfilled v w
fulfill_by p v (some inner) w = adopt_promise p inner w

-- `csPromiseFulfill`
unfoldable pub fulfill : Machine → ℕ → Value → World → World
fulfill m p v w = if is_pending (promise w p).state then fulfill_by p v (as_promise m v) w else w
