-- ===== src/Event/Tests.antt =====
-- src/runtime/vm_event.c, src/runtime/object_new.c and src/native/native_promise.c: runs on small worlds.
use cscript.Prelude.{
  ℕ, zero, suc, ◌+◌, ◌-◌, ◌≡◌, refl, sym, arith, Bool, true, false, List, [], ◌∷◌, ltb, ◌==◌,
  if◌then◌else◌, Option, none, some, inl, inr, map,
}
use mathlib.Core.Path.{subst}
use cscript.Table.Find.{true≢false}
use cscript.Value.{Value, undefined, number, object}
use cscript.Event.{
  State, fulfilled, rejected, Promise, new_promise, Timer, Timers, World, Machine, Called, returned,
  threw, promise, plain_task, settle, add_reaction, amend, fulfill, map_last, all,
}
use cscript.Event.Runs.{ran, world_of, run_microtask}
use cscript.Event.Acts.{Acts, Lawful, idle}
use cscript.Event.Natives.{allocate, first, combinator}
use cscript.Event.Drain.{drain, drain_from, drain-Lasting, Lasting, report_from, report_unhandled}
use cscript.Event.Delivery.{Delivers, drain-Delivers}
use cscript.Event.Noted.{Noted, Listed, is_lost}
use cscript.Event.Report.{Reports, report_unhandled-Reports}
use cscript.Event.Quiet.{Quiet, all_turns}
use cscript.Event.Ending.{drain-ends}
use cscript.Event.Timing.{schedule, seat, insert_at, rearm}
use cscript.Event.Sorted.{Holds}
use cscript.Event.Armed.{Schedules, schedule-Schedules}
use cscript.Event.Loop.{event_loop, fire}
use cscript.Event.Finished.{Finished, event_loop-Finished}
use cscript.Event.Gathered.{Collects, combinator-all}

-- A program whose function at address 2 throws, and whose other functions return their argument; promise
-- `p` is at address 1000 + p.
abbrev called_by : Bool → List Value → World → Called
called_by true args w = threw (number 9) w
called_by false args w = returned (first args) w

abbrev call : Value → List Value → World → Called
call (object a) args w = called_by (a == 2) args w
call f args w = called_by false args w

abbrev machine : Machine
machine = record {
  promise_at = λ a. if ltb a 1000 then none else some (a - 1000);
  settled_record = λ v b. v;
  aggregate = λ vs. object 7;
  resume = λ f v b w. w;
  call = call;
}

same_world : (b : Bool) (args : List Value) (w : World) → w ≡ world_of (called_by b args w)
same_world true args w = refl
same_world false args w = refl

call_lem : (f : Value) (args : List Value) (w : World) → w ≡ world_of (call f args w)
call_lem (object a) args w = same_world (a == 2) args w
call_lem f args w = refl

-- Its code does nothing to promises.
machine-Lawful : Lawful machine
machine-Lawful = record {
  resumes = λ f v b w. idle;
  calls = λ f args w. subst (Acts machine w) (call_lem f args w) idle;
}

abbrev idle_timers : Timers
idle_timers = record {
  entries = [];
  next_sequence = 0;
  next_id = 1;
  firing = none;
  firing_cancelled = false;
}

abbrev empty : World
empty = record { promises = []; queue = []; noted = []; combines = []; timers = idle_timers }

abbrev settled_as : State → Value → Promise
settled_as st v = record { state = st; value = v; reactions = []; handled = true }

-- Promise 1 waits for the outcome of promise 0, which is queued.
abbrev waiting : World
waiting = record empty {
  promises = settled_as fulfilled (number 3) ∷ new_promise ∷ [];
  queue = plain_task undefined (number 3) (some 1) false ∷ [];
}

abbrev delivered : World
delivered = record empty {
  promises =
      settled_as fulfilled (number 3)
      ∷ record { state = fulfilled; value = number 3; reactions = []; handled = false }
      ∷ [];
}

drained : drain machine 2 waiting ≡ some (ran delivered)
unfolding drain_from run_microtask fulfill settle
drained = refl

drain-Lasting_example : Lasting waiting delivered
drain-Lasting_example = drain-Lasting machine 2 waiting (ran delivered) machine-Lawful drained

drain-Delivers_example : Delivers machine 1 waiting
drain-Delivers_example =
    drain-Delivers machine 1 (plain_task undefined (number 3) (some 1) false) [] [] waiting
      machine-Lawful (omega arith)
      (record { no_fiber = refl; no_combine = refl; no_handler = refl; to = refl; flat = refl })
      refl

waiting-Quiet : Quiet machine waiting
waiting-Quiet = record {
  tasks = (record { no_fiber = refl; no_combine = refl; no_handler = refl; flat = refl }, tt);
  promises = (tt, (tt, tt));
}

drain-ends_example :
    (out : World) × (drain machine (all_turns waiting) waiting ≡ some (ran out)) × (out.queue ≡ [])
drain-ends_example = drain-ends machine waiting waiting-Quiet

-- A rejection that nobody listens to.
abbrev lost : World
lost = record empty {
  promises = record { state = rejected; value = number 4; reactions = []; handled = false } ∷ [];
  noted = 0 ∷ [];
}

lost-Noted : Noted lost
lost-Noted = record { lost = noted }
  where
    noted : (p : ℕ) → is_lost (promise lost p) ≡ true → Listed p (0 ∷ [])
    noted zero h = inl refl
    noted (suc p) h = absurd (true≢false (sym h))

report_unhandled-Reports_example : Reports lost (report_unhandled lost)
report_unhandled-Reports_example = report_unhandled-Reports lost lost-Noted

-- A timer that is due at 5, whose callback answers, and one at the same time behind it.
abbrev timer_of : ℕ → ℕ → Timer
timer_of sequence id = record {
  due = 5;
  sequence = sequence;
  id = id;
  callback = object 1;
  cancelled = false;
  repeat = 0;
}

abbrev two_timers : Timers
two_timers = record idle_timers {
  entries = timer_of 0 1 ∷ timer_of 1 2 ∷ [];
  next_sequence = 2;
  next_id = 3;
}

two_timers-Holds : Holds two_timers
two_timers-Holds = record {
  sorted = ((inr (refl, omega arith), tt), (tt, tt));
  fresh = (omega arith, (omega arith, tt));
  bound = omega arith;
}

schedule-Schedules_example :
    Schedules (object 1 ∷ []) two_timers (schedule ◌+◌ 4 false (object 1 ∷ []) two_timers)
schedule-Schedules_example =
    schedule-Schedules ◌+◌ 4 false (object 1 ∷ []) two_timers two_timers-Holds

entries_of : Option (Timers × ℕ) → List ℕ
entries_of none = []
entries_of (some (ts, id)) = map (λ (t : Timer). t.id) ts.entries

-- The new timer is the first, as it is due at 4, and the last, when it is due at 5.
scheduled : entries_of (schedule ◌+◌ 4 false (object 1 ∷ []) two_timers) ≡ 3 ∷ 1 ∷ 2 ∷ []
unfolding entries_of schedule seat insert_at
scheduled = refl

scheduled_last : entries_of (schedule ◌+◌ 5 false (object 1 ∷ []) two_timers) ≡ 1 ∷ 2 ∷ 3 ∷ []
unfolding entries_of schedule seat insert_at
scheduled_last = refl

abbrev timed : World
timed = record waiting { timers = two_timers }

abbrev fired : World
fired = record delivered { timers = record two_timers { entries = [] } }

looped : event_loop machine ◌+◌ (λ n. 5) 4 timed ≡ some (ran fired)
unfolding event_loop drain_from run_microtask fulfill settle report_from fire rearm
looped = refl

timed-Noted : Noted timed
timed-Noted = record { lost = noted }
  where
    noted : (p : ℕ) → is_lost (promise timed p) ≡ true → Listed p []
    noted zero h = true≢false (sym h)
    noted (suc zero) h = true≢false (sym h)
    noted (suc (suc p)) h = true≢false (sym h)

event_loop-Finished_example : Finished fired
event_loop-Finished_example =
    event_loop-Finished machine ◌+◌ (λ n. 5) 4 timed fired machine-Lawful timed-Noted looped

combinator-all_example :
    (called : World) × (combinator machine all (object 50) (some (number 1 ∷ number 2 ∷ [])) empty
      ≡ some (called, 0))
    × Collects machine 0 0 (object 50) [] (number 1 ∷ number 2 ∷ []) called
combinator-all_example =
    combinator-all machine (object 50) (number 1) (number 2 ∷ []) empty refl (refl, (refl, tt)) refl

-- A promise resolved with itself waits for itself: the queue is empty, and it is never settled.
itself :
    drain machine 9 (fulfill machine 0 (object 1000) (allocate empty))
    ≡ some (
        ran (record empty {
          promises =
              record new_promise {
                reactions =
                    record {
                      on_fulfilled = undefined;
                      on_rejected = undefined;
                      result = some 0;
                      fiber = none;
                      is_finally = false;
                      extra_hops = 1;
                      combine_state = none;
                      combine_index = none;
                    }
                    ∷ [];
                handled = true;
              }
              ∷ [];
        }))
unfolding fulfill amend add_reaction map_last drain_from
itself = refl

-- A promise resolved with a pending one is settled all the same by a second call.
resolved_twice :
    (promise
      (fulfill machine 0 (number 5) (fulfill machine 0 (object 1001) (allocate (allocate empty))))
      0).value
    ≡ number 5
unfolding fulfill amend add_reaction map_last settle
resolved_twice = refl
