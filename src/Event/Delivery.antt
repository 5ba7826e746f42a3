-- ===== src/Event/Delivery.antt =====
-- src/runtime/vm_event.c: an outcome that passes through a task settles its promise after finitely many runs
-- of the loop, whatever the tasks before it do, unless one of them fails.
use cscript.Prelude.{
  ℕ, zero, suc, ◌+◌, ◌<◌, ◌≡◌, refl, sym, ap, ◌∙◌, arith, false, List, [], ◌∷◌, ◌++◌, length, some,
  inl, inr, append-append,
}
use cscript.Value.{undefined}
use cscript.Event.{Microtask, World, Machine, promise, is_pending, plain_task}
use cscript.Event.Acts.{Lawful}
use cscript.Event.Runs.{ran, broke, run_microtask, world_after, pass_by}
use cscript.Event.Running.{run_microtask-Onward}
use cscript.Event.Drain.{drain_from, drain, drain_from-run, drain_from-broke, Ran-cases}
use cscript.Event.Passing.{Passes, run_by-passes, settle_result-settled}

-- After some number of runs, whatever the fuel that is left for the others, `p` is settled, or a run has
-- failed.
pub data Delivers (m : Machine) (p : ℕ) (w : World) : Type 0 where
  settles :
      (runs : ℕ) (out : World)
      → ((fuel : ℕ) → drain m (runs + fuel) w ≡ drain m fuel out)
      → is_pending (promise out p).state ≡ false
      → Delivers m p w
  fails :
      (runs : ℕ) (out : World)
      → ((fuel : ℕ) → drain m (runs + fuel) w ≡ some (broke out))
      → Delivers m p w

-- One more run before.
after_run :
    (m : Machine) (p : ℕ) (t : Microtask) (ts : List Microtask) (w out : World)
    → w.queue ≡ t ∷ ts
    → run_microtask m t (record w { queue = ts }) ≡ ran out
    → Delivers m p out
    → Delivers m p w
after_run m p t ts w out q e d =
    let first : (fuel : ℕ) → drain m (suc fuel) w ≡ drain m fuel out =
      λ fuel. ap (λ us. drain_from m (suc fuel) us w) q ∙ drain_from-run m fuel t ts w out e in
    elim d [
      | settles runs end same settled ↦
          settles (suc runs) end
            (λ fuel. ap (λ n. drain m n w) (omega arith) ∙ (first (runs + fuel) ∙ same fuel))
            settled
      | fails runs end same ↦
          fails (suc runs) end
            (λ fuel. ap (λ n. drain m n w) (omega arith) ∙ (first (runs + fuel) ∙ same fuel))
    ]

-- The task stands at the head of the queue.
abbrev AtHead : Machine → ℕ → Microtask → Type 0
AtHead m p t =
    (post : List Microtask) (w : World)
    → p < length w.promises
    → w.queue ≡ t ∷ post
    → Delivers m p w

-- The tasks before it run first, and what they queue comes behind it.
place-Delivers :
    (m : Machine) (p : ℕ) (t : Microtask)
    → Lawful m
    → AtHead m p t
    → (pre post : List Microtask) (w : World) → p < length w.promises
    → w.queue ≡ pre ++ t ∷ post
    → Delivers m p w
place-Delivers m p t h here [] post w l q = here post w l q
place-Delivers m p t h here (u ∷ pre) post w l q =
    let rest : World = record w { queue = pre ++ t ∷ post } in
    let g = run_microtask-Onward m u rest h in
    elim (Ran-cases (run_microtask m u rest)) [
      | inl (out, e) ↦ after_run m p u (pre ++ t ∷ post) w out q e (
          place-Delivers m p t h here pre (post ++ g.more) out
            (omega (arith, l, g.size, ap (λ r. length (world_after r).promises) e))
            (sym (ap (λ r. (world_after r).queue) e)
              ∙ (g.later ∙ append-append pre (t ∷ post) g.more)))
      | inr (out, e) ↦ fails 1 out (λ fuel.
          ap (λ n. drain m n w) (omega arith)
          ∙ (ap (λ us. drain_from m (suc fuel) us w) q
              ∙ drain_from-broke m fuel u (pre ++ t ∷ post) w out e))
    ]

-- The task at the head settles its promise, or waits for one turn fewer at the end of the queue.
head-Delivers :
    (m : Machine) (p turns : ℕ) (t : Microtask)
    → Lawful m
    → Passes m p t
    → t.extra_hops ≡ turns
    → AtHead m p t
unfolding run_microtask
head-Delivers m p zero t h g e post w l q =
    let rest : World = record w { queue = post } in
    let run = run_by-passes m t t.fiber t.combine_state rest g.no_fiber g.no_combine g.no_handler in
    let out = pass_by m zero t rest in
    after_run m p t post w out q (run ∙ ap (λ n. ran (pass_by m n t rest)) e) (
      settles 0 out (λ fuel. ap (λ n. drain m n out) (omega arith))
        (rw g.to (settle_result-settled m p t.is_rejection t.argument rest l g.flat)))
head-Delivers m p (suc turns) t h g e post w l q =
    let rest : World = record w { queue = post } in
    let run = run_by-passes m t t.fiber t.combine_state rest g.no_fiber g.no_combine g.no_handler in
    let later : Microtask = record (plain_task undefined t.argument t.result t.is_rejection) {
      extra_hops = turns;
    } in
    let passes : Passes m p later = record {
      no_fiber = refl;
      no_combine = refl;
      no_handler = refl;
      to = g.to;
      flat = g.flat;
    } in
    let out = pass_by m (suc turns) t rest in
    after_run m p t post w out q (run ∙ ap (λ n. ran (pass_by m n t rest)) e)
      (place-Delivers m p later h (head-Delivers m p turns later h passes refl) post [] out l refl)

-- If program code acts on promises by the native functions and by awaiting alone, and a task of the queue
-- without a fiber, a combinator or a handler passes an outcome that is not a promise to `p`, then there is a number of runs of the loop of `drainMicrotasks` after which `p` is settled,
-- or else one of these runs fails.
pub drain-Delivers :
    (m : Machine) (p : ℕ) (t : Microtask) (pre post : List Microtask) (w : World)
    → Lawful m
    → p < length w.promises
    → Passes m p t
    → w.queue ≡ pre ++ t ∷ post
    → Delivers m p w
drain-Delivers m p t pre post w h l g q =
    place-Delivers m p t h (head-Delivers m p t.extra_hops t h g refl) pre post w l q
