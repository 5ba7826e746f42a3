-- ===== src/Event/Natives.antt =====
-- src/native/native_promise.c: what a program calls: the methods of a promise, the constructor, and the
-- combinators. `none` is an error reported, and a new promise is the next of the list.
use cscript.Prelude.{
  ℕ, suc, Bool, true, false, List, [], ◌∷◌, ◌++◌, length, map, Option, none, some, if◌then◌else◌,
}
use cscript.Value.{Value, undefined}
use cscript.Event.{
  Reaction, Microtask, World, Machine, Mode, all, race, all_settled, any, Combine, Called, returned,
  threw, stopped, amend, new_promise, promise, change, plain_task, queue_task, queue_microtask,
  reject, add_reaction, as_promise, fulfill,
}

-- The first and the second argument, or `undefined`.
abbrev pub first : List Value → Value
first [] = undefined
first (v ∷ args) = v

abbrev pub second : List Value → Value
second (u ∷ v ∷ args) = v
second args = undefined

abbrev pub allocate : World → World
allocate w = record w { promises = w.promises ++ new_promise ∷ [] }

abbrev pub next_promise : World → ℕ
next_promise w = length w.promises

abbrev pub derive : Value → Value → Option ℕ → World → Option (World × ℕ)
derive on_fulfilled on_rejected none w = none
derive on_fulfilled on_rejected (some p) w =
    let derived = next_promise w in
    some (add_reaction p on_fulfilled on_rejected (some derived) (allocate w), derived)

-- `promiseThen`
abbrev pub promise_then : Machine → Value → List Value → World → Option (World × ℕ)
promise_then m receiver args w = derive (first args) (second args) (as_promise m receiver) w

-- `promiseCatch`
abbrev pub promise_catch : Machine → Value → List Value → World → Option (World × ℕ)
promise_catch m receiver args w = derive undefined (first args) (as_promise m receiver) w

abbrev pub finally_reaction : Reaction → Reaction
finally_reaction r = record r { is_finally = true }

abbrev pub finally_task : Microtask → Microtask
finally_task t = record t { is_finally = true }

abbrev pub finally_by : Value → Option ℕ → World → Option (World × ℕ)
finally_by handler none w = none
finally_by handler (some p) w =
    let derived = next_promise w in
    some (
      amend finally_reaction finally_task p
          (add_reaction p handler handler (some derived) (allocate w)),
      derived,
    )

-- `promiseFinally`
abbrev pub promise_finally : Machine → Value → List Value → World → Option (World × ℕ)
promise_finally m receiver args w = finally_by (first args) (as_promise m receiver) w

abbrev pub resolve_by : Machine → Value → Option ℕ → World → World × ℕ
resolve_by m v (some p) w = (w, p)
resolve_by m v none w = (fulfill m (next_promise w) v (allocate w), next_promise w)

-- `promiseResolve`
abbrev pub promise_resolve : Machine → List Value → World → World × ℕ
promise_resolve m args w = resolve_by m (first args) (as_promise m (first args)) w

-- `promiseRejectStatic`
abbrev pub promise_reject : List Value → World → World × ℕ
promise_reject args w = (reject (next_promise w) (first args) (allocate w), next_promise w)

-- `resolveFunction` and `rejectFunction`, bound to a promise
abbrev pub resolve_function : Machine → ℕ → List Value → World → World
resolve_function m p args w = fulfill m p (first args) w

abbrev pub reject_function : ℕ → List Value → World → World
reject_function p args w = reject p (first args) w

abbrev pub constructed : ℕ → Called → Option (World × ℕ)
constructed p (returned v w) = some (w, p)
constructed p (threw v w) = none
constructed p (stopped w) = none

-- `promiseConstruct`, with the test for a function and the two functions made for a promise
abbrev pub promise_construct :
    Machine → (Value → Bool) → (ℕ → Value × Value) → List Value → World → Option (World × ℕ)
promise_construct m is_function bind (executor ∷ []) w =
    let p = next_promise w in
    let (resolve, reject) = bind p in
    if is_function executor
    then constructed p (m.call executor (resolve ∷ reject ∷ []) (allocate w))
    else none
promise_construct m is_function bind args w = none

-- `queueMicrotaskNative`
abbrev pub queue_microtask_native : List Value → World → Option World
queue_microtask_native [] w = none
queue_microtask_native (callback ∷ args) w = some (queue_microtask callback undefined none false w)

-- `csVMQueueCombine`
abbrev pub combine_task : ℕ → Option ℕ → Value → Bool → Microtask
combine_task c index v is_rejection = record (plain_task undefined v none is_rejection) {
  combine_state = some c;
  combine_index = index;
}

abbrev pub attach_by : Machine → ℕ → Option ℕ → Value → Option ℕ → World → World
attach_by m c index v none w = queue_task (combine_task c index v false) w
attach_by m c index v (some p) w =
    amend (λ r. record r { combine_state = some c; combine_index = index })
      (λ t. record t { combine_state = some c; combine_index = index }) p
      (add_reaction p undefined undefined none
        (change p (record (promise w p) { handled = true }) w))

-- The loop over the inputs; `race` has no index.
abbrev pub index_of : Mode → ℕ → Option ℕ
index_of race i = none
index_of mode i = some i

unfoldable pub attach : Machine → Mode → ℕ → ℕ → List Value → World → World
attach m mode c i [] w = w
attach m mode c i (v ∷ vs) w =
    attach m mode c (suc i) vs (attach_by m c (index_of mode i) v (as_promise m v) w)

abbrev pub slots_of : Mode → List Value → List Value
slots_of race inputs = []
slots_of mode inputs = map (λ v. undefined) inputs

-- `combineState`
abbrev pub new_combine : Mode → Value → List Value → ℕ → Combine
new_combine mode array inputs target = record {
  results_array = array;
  results = slots_of mode inputs;
  remaining = length (slots_of mode inputs);
  target = target;
  mode = mode;
}

abbrev pub combine_none : Machine → Mode → Value → ℕ → World → World
combine_none m all array target w = fulfill m target array w
combine_none m all_settled array target w = fulfill m target array w
combine_none m any array target w = reject target (m.aggregate []) w
combine_none m race array target w = w

abbrev pub combine_inputs : Machine → Mode → Value → List Value → ℕ → World → World
combine_inputs m mode array [] target w = combine_none m mode array target w
combine_inputs m mode array (v ∷ vs) target w =
    attach m mode (length w.combines) 0 (v ∷ vs)
      (record w { combines = w.combines ++ new_combine mode array (v ∷ vs) target ∷ [] })

-- `combinator`, with the elements of its argument if that is one array, and the array made for the results
unfoldable pub combinator :
    Machine → Mode → Value → Option (List Value) → World → Option (World × ℕ)
combinator m mode array none w = none
combinator m mode array (some inputs) w =
    some (combine_inputs m mode array inputs (next_promise w) (allocate w), next_promise w)

-- The part of `OP_AWAIT` for promises; the fiber that waits is an argument.
abbrev pub await_promise : ℕ → ℕ → World → World
await_promise fiber p w =
    amend (λ r. record r { fiber = some fiber }) (λ t. record t { fiber = some fiber }) p
      (add_reaction p undefined undefined none
        (change p (record (promise w p) { handled = true }) w))

abbrev pub await_by : Machine → ℕ → Value → Option ℕ → World → World
await_by m fiber v (some p) w = await_promise fiber p w
await_by m fiber v none w =
    await_promise fiber (next_promise w) (fulfill m (next_promise w) v (allocate w))

abbrev pub await : Machine → ℕ → Value → World → World
await m fiber v w = await_by m fiber v (as_promise m v) w
