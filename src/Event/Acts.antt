-- ===== src/Event/Acts.antt =====
-- src/native/native_promise.c and src/runtime/vm_ops_class.inc: what program code can do to promises, by what
-- it calls and by waiting.
use cscript.Prelude.{
  ℕ, suc, ◌≡◌, ap, Bool, true, List, [], ◌∷◌, Option, none, some, some-cancel, none≢some,
}
use mathlib.Core.Path.{subst}
use cscript.Value.{Value, undefined}
use cscript.Event.{
  State, rejected, Reaction, Microtask, World, Machine, Mode, all, race, all_settled, any, Combine,
  Timers, promise, change, queue_task, settle, add_reaction, amend, as_promise, fulfill,
}
use cscript.Event.Natives.{
  allocate, next_promise, derive, promise_then, promise_catch, promise_finally, finally_by,
  promise_resolve, resolve_by, promise_reject, resolve_function, reject_function,
  queue_microtask_native, combinator, combine_inputs, combine_none, attach, attach_by, index_of,
  await, await_by, first,
}
use cscript.Event.Runs.{world_of}
use cscript.Event.Timing.{schedule, clear}

-- One act of program code: a native function that it calls, an `await`, or a timer set or cleared.
pub data Act (m : Machine) (w : World) : World → Type 0 where
  thens :
      (receiver : Value) (args : List Value) (out : World) (id : ℕ)
      → promise_then m receiver args w ≡ some (out, id)
      → Act m w out
  catches :
      (receiver : Value) (args : List Value) (out : World) (id : ℕ)
      → promise_catch m receiver args w ≡ some (out, id)
      → Act m w out
  finallies :
      (receiver : Value) (args : List Value) (out : World) (id : ℕ)
      → promise_finally m receiver args w ≡ some (out, id)
      → Act m w out
  makes : Act m w (allocate w)
  resolves : (args : List Value) → Act m w (promise_resolve m args w).0
  rejects : (args : List Value) → Act m w (promise_reject args w).0
  calls_resolve : (p : ℕ) (args : List Value) → Act m w (resolve_function m p args w)
  calls_reject : (p : ℕ) (args : List Value) → Act m w (reject_function p args w)
  queues :
      (args : List Value) (out : World) → queue_microtask_native args w ≡ some out → Act m w out
  combines :
      (mode : Mode) (array : Value) (inputs : Option (List Value)) (out : World) (id : ℕ)
      → combinator m mode array inputs w ≡ some (out, id)
      → Act m w out
  awaits : (fiber : ℕ) (v : Value) → Act m w (await m fiber v w)
  schedules :
      (add : ℕ → ℕ → ℕ) (now : ℕ) (repeating : Bool) (args : List Value) (ts : Timers) (id : ℕ)
      → schedule add now repeating args w.timers ≡ some (ts, id)
      → Act m w (record w { timers = ts })
  clears :
      (to_int : ℕ → Option ℕ) (args : List Value)
      → Act m w (record w { timers = clear to_int args w.timers })

pub data Acts (m : Machine) : World → World → Type 0 where
  idle : {w : World} → Acts m w w
  act : {a b c : World} → Act m a b → Acts m b c → Acts m a c

-- Program code changes promises by such acts alone.
pub record Lawful (m : Machine) : Type 0 where
  pub resumes : (f : ℕ) (v : Value) (b : Bool) (w : World) → Acts m w (m.resume f v b w)
  pub calls : (f : Value) (args : List Value) (w : World) → Acts m w (world_of (m.call f args w))

-- What a relation between worlds needs of the operations.
pub record Steps (m : Machine) (R : World → World → Type 0) : Type 0 where
  pub still : (w : World) → R w w
  pub chain : (a b c : World) → R a b → R b c → R a c
  pub settles : (p : ℕ) (st : State) (v : Value) (w : World) → R w (settle p st v w)
  pub fulfills : (p : ℕ) (v : Value) (w : World) → R w (fulfill m p v w)
  pub tasks : (t : Microtask) (w : World) → R w (queue_task t w)
  pub records : (cs : List Combine) (w : World) → R w (record w { combines = cs })
  pub adds :
      (p : ℕ) (f r : Value) (result : Option ℕ) (w : World) → R w (add_reaction p f r result w)
  pub amends :
      (f : Reaction → Reaction) (g : Microtask → Microtask) (p : ℕ)
      (on_fulfilled on_rejected : Value) (result : Option ℕ) (w : World)
      → R w (amend f g p (add_reaction p on_fulfilled on_rejected result w))
  pub handles : (p : ℕ) (w : World) → R w (change p (record (promise w p) { handled = true }) w)
  pub allocates : (w : World) → R w (allocate w)
  pub times : (ts : Timers) (w : World) → R w (record w { timers = ts })

module _ {m : Machine} {R : World → World → Type 0} (s : Steps m R) where
  derive-Step :
      (f r : Value) (o : Option ℕ) (w out : World) (id : ℕ)
      → derive f r o w ≡ some (out, id)
      → R w out
  derive-Step f r none w out id e = absurd (none≢some e)
  derive-Step f r (some p) w out id e =
      subst (R w) (ap (λ (x : World × ℕ). x.0) (some-cancel e))
        (s.chain w _ _ (s.allocates w) (s.adds p f r _ (allocate w)))

  finally_by-Step :
      (f : Value) (o : Option ℕ) (w out : World) (id : ℕ)
      → finally_by f o w ≡ some (out, id)
      → R w out
  finally_by-Step f none w out id e = absurd (none≢some e)
  finally_by-Step f (some p) w out id e =
      subst (R w) (ap (λ (x : World × ℕ). x.0) (some-cancel e))
        (s.chain w _ _ (s.allocates w) (s.amends _ _ p f f _ (allocate w)))

  resolve_by-Step : (v : Value) (o : Option ℕ) (w : World) → R w (resolve_by m v o w).0
  resolve_by-Step v (some p) w = s.still w
  resolve_by-Step v none w = s.chain w _ _ (s.allocates w) (s.fulfills _ v (allocate w))

  listening-Step :
      (f : Reaction → Reaction) (g : Microtask → Microtask) (p : ℕ) (w : World)
      → R w (
          amend f g p (
            add_reaction p undefined undefined none
              (change p (record (promise w p) { handled = true }) w)))
  listening-Step f g p w = s.chain w _ _ (s.handles p w) (s.amends f g p _ _ none _)

  attach_by-Step :
      (c : ℕ) (index : Option ℕ) (v : Value) (o : Option ℕ) (w : World)
      → R w (attach_by m c index v o w)
  attach_by-Step c index v none w = s.tasks _ w
  attach_by-Step c index v (some p) w = listening-Step _ _ p w

  attach-Step : (mode : Mode) (c i : ℕ) (vs : List Value) (w : World) → R w (attach m mode c i vs w)
  unfolding attach
  attach-Step mode c i [] w = s.still w
  attach-Step mode c i (v ∷ vs) w =
      s.chain w _ _ (attach_by-Step c (index_of mode i) v (as_promise m v) w)
        (attach-Step mode c (suc i) vs _)

  combine_none-Step :
      (mode : Mode) (array : Value) (target : ℕ) (w : World)
      → R w (combine_none m mode array target w)
  combine_none-Step all array target w = s.fulfills target array w
  combine_none-Step all_settled array target w = s.fulfills target array w
  combine_none-Step any array target w = s.settles target rejected _ w
  combine_none-Step race array target w = s.still w

  combine_inputs-Step :
      (mode : Mode) (array : Value) (inputs : List Value) (target : ℕ) (w : World)
      → R w (combine_inputs m mode array inputs target w)
  combine_inputs-Step mode array [] target w = combine_none-Step mode array target w
  combine_inputs-Step mode array (v ∷ vs) target w =
      s.chain w _ _ (s.records _ w) (attach-Step mode _ 0 (v ∷ vs) _)

  combinator-Step :
      (mode : Mode) (array : Value) (o : Option (List Value)) (w out : World) (id : ℕ)
      → combinator m mode array o w ≡ some (out, id)
      → R w out
  unfolding combinator
  combinator-Step mode array none w out id e = absurd (none≢some e)
  combinator-Step mode array (some inputs) w out id e =
      subst (R w) (ap (λ (x : World × ℕ). x.0) (some-cancel e))
        (s.chain w _ _ (s.allocates w) (combine_inputs-Step mode array inputs _ (allocate w)))

  queues-Step :
      (args : List Value) (w out : World) → queue_microtask_native args w ≡ some out → R w out
  queues-Step [] w out e = absurd (none≢some e)
  queues-Step (callback ∷ args) w out e = subst (R w) (some-cancel e) (s.tasks _ w)

  await_by-Step : (fiber : ℕ) (v : Value) (o : Option ℕ) (w : World) → R w (await_by m fiber v o w)
  await_by-Step fiber v (some p) w = listening-Step _ _ p w
  await_by-Step fiber v none w = s.chain w _ _ (s.allocates w) (
      s.chain (allocate w) _ _ (s.fulfills (next_promise w) v (allocate w))
        (listening-Step _ _ _ _))

  Act-Step : (w out : World) → Act m w out → R w out
  Act-Step w _ (thens receiver args out id e) = derive-Step _ _ (as_promise m receiver) w out id e
  Act-Step w _ (catches receiver args out id e) = derive-Step _ _ (as_promise m receiver) w out id e
  Act-Step w _ (finallies receiver args out id e) =
      finally_by-Step _ (as_promise m receiver) w out id e
  Act-Step w _ makes = s.allocates w
  Act-Step w _ (resolves args) = resolve_by-Step (first args) (as_promise m (first args)) w
  Act-Step w _ (rejects args) = s.chain w _ _ (s.allocates w) (s.settles _ rejected _ (allocate w))
  Act-Step w _ (calls_resolve p args) = s.fulfills p _ w
  Act-Step w _ (calls_reject p args) = s.settles p rejected _ w
  Act-Step w _ (queues args out e) = queues-Step args w out e
  Act-Step w _ (combines mode array inputs out id e) = combinator-Step mode array inputs w out id e
  Act-Step w _ (awaits fiber v) = await_by-Step fiber v (as_promise m v) w
  Act-Step w _ (schedules add now repeating args ts id e) = s.times ts w
  Act-Step w _ (clears to_int args) = s.times _ w

  pub Acts-Step : (w out : World) → Acts m w out → R w out
  Acts-Step w _ idle = s.still w
  Acts-Step w out (act g rest) = s.chain w _ out (Act-Step w _ g) (Acts-Step _ out rest)
