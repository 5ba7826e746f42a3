-- ===== src/Event/Ending.antt =====
-- src/runtime/vm_event.c: the drain of a quiet queue ends.
use cscript.Prelude.{
  ℕ, zero, suc, ◌+◌, ◌≤◌, ◌≡◌, refl, ap, arith, Bool, true, false, List, [], ◌∷◌, map, Option, none,
  some, inl, inr, Bool-cases,
}
use mathlib.Core.Path.{subst}
use cscript.Value.{Value, undefined}
use cscript.Event.{
  State, fulfilled, rejected, Microtask, new_promise, World, Machine, promise, is_pending,
  as_promise, plain_task, settle, fulfill, task_of,
}
use cscript.Event.Runs.{Ran, ran, run_microtask, pass_by, settle_result}
use cscript.Event.Passing.{run_by-passes}
use cscript.Event.Drain.{drain_from, drain}
use cscript.Event.Quiet.{
  Every, Every-append, Every-set, Every-get_or, total, total-append, total-set, turns,
  promise_turns, all_turns, QuietTask, QuietPromise, Quiet, queued-QuietTask, queued-turns,
}

-- A quiet world whose turns are at most `n`.
record Calm (m : Machine) (w : World) (n : ℕ) : Type 0 where
  quiet : Quiet m w
  bound : all_turns w ≤ n

settle-Calm :
    (m : Machine) (p : ℕ) (st : State) (v : Value) (w : World)
    → Quiet m w
    → as_promise m v ≡ none
    → Calm m (settle p st v w) (all_turns w)
unfolding settle
settle-Calm m p st v w h f = elim (Bool-cases (is_pending (promise w p).state)) [
  | inl e ↦
      let waiting = Every-get_or QuietPromise w.promises p new_promise tt h.promises in
      rw e (record {
        quiet = record {
          tasks =
              Every-append (QuietTask m) w.queue _ h.tasks
                (queued-QuietTask m st v (promise w p).reactions f waiting);
          promises = Every-set QuietPromise w.promises p _ tt h.promises;
        };
        bound = omega (
          arith,
          total-append turns w.queue (map (task_of st v) (promise w p).reactions),
          queued-turns st v (promise w p).reactions waiting,
          total-set promise_turns w.promises p
              (record { state = st; value = v; reactions = []; handled = (promise w p).handled })
              new_promise refl,
        );
      })
  | inr e ↦ rw e (record { quiet = h; bound = omega arith })
]

settle_result-Calm :
    (m : Machine) (r : Option ℕ) (b : Bool) (v : Value) (w : World)
    → Quiet m w
    → as_promise m v ≡ none
    → Calm m (settle_result m r b v w) (all_turns w)
unfolding fulfill
settle_result-Calm m none b v w h f = record { quiet = h; bound = omega arith }
settle_result-Calm m (some p) true v w h f = settle-Calm m p rejected v w h f
settle_result-Calm m (some p) false v w h f = elim (Bool-cases (is_pending (promise w p).state)) [
  | inl e ↦ rw (e, f) (settle-Calm m p fulfilled v w h f)
  | inr e ↦ rw e (record { quiet = h; bound = omega arith })
]

pass_by-Calm :
    (m : Machine) (n : ℕ) (t : Microtask) (w : World)
    → Quiet m w
    → as_promise m t.argument ≡ none
    → Calm m (pass_by m n t w) (n + all_turns w)
pass_by-Calm m zero t w h f =
    let c = settle_result-Calm m t.result t.is_rejection t.argument w h f in
    record { quiet = c.quiet; bound = omega (arith, c.bound) }
pass_by-Calm m (suc n) t w h f =
    let again : Microtask = record (plain_task undefined t.argument t.result t.is_rejection) {
      extra_hops = n;
    } in
    record {
      quiet = record {
        tasks =
            Every-append (QuietTask m) w.queue _ h.tasks
              (record { no_fiber = refl; no_combine = refl; no_handler = refl; flat = f }, tt);
        promises = h.promises;
      };
      bound = omega (arith, total-append turns w.queue (again ∷ []));
    }

-- How a drain of a quiet queue ends.
abbrev Ended : Option Ran → Type 0
Ended o = (out : World) × (o ≡ some (ran out)) × (out.queue ≡ [])

drain_from-ends :
    (m : Machine) (n : ℕ) (ts : List Microtask) (w : World)
    → w.queue ≡ ts
    → Calm m w n
    → Ended (drain_from m n ts w)
unfolding drain_from run_microtask
drain_from-ends m n [] w e c = (w, refl, e)
drain_from-ends m zero (t ∷ ts) w e c = absurd (omega (arith, c.bound, ap (total turns) e))
drain_from-ends m (suc n) (t ∷ ts) w e c =
    let (q, tasks) = subst (Every (QuietTask m)) e c.quiet.tasks in
    let rest : World = record w { queue = ts } in
    let after =
      pass_by-Calm m t.extra_hops t rest (record { tasks = tasks; promises = c.quiet.promises })
        q.flat in
    let out = pass_by m t.extra_hops t rest in
    rw
      (
        run_by-passes m t t.fiber t.combine_state rest q.no_fiber q.no_combine q.no_handler,
        drain_from,
      )
      (drain_from-ends m n out.queue out refl (record {
        quiet = after.quiet;
        bound = omega (arith, after.bound, c.bound, ap (total turns) e);
      }))

-- When no task in the queue and no reaction that waits has a fiber, a combinator or a handler, and no task
-- carries a promise, as many runs as the tasks and the reactions have turns in all drain the queue: no run
-- fails, and the queue is empty.
pub drain-ends :
    (m : Machine) (w : World)
    → Quiet m w
    → (out : World) × (drain m (all_turns w) w ≡ some (ran out)) × (out.queue ≡ [])
drain-ends m w h =
    drain_from-ends m (all_turns w) w.queue w refl (record { quiet = h; bound = omega arith })
