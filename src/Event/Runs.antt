-- ===== src/Event/Runs.antt =====
-- src/runtime/vm_event.c: the run of one microtask: a fiber resumed, a combinator told of a settlement, an
-- outcome passed through, or a handler called.
use cscript.Prelude.{
  ℕ, zero, suc, ◌-◌, ◌==◌, if◌then◌else◌, Bool, true, false, List, [], ◌∷◌, set, get_or, Option,
  none, some,
}
use cscript.Value.{Value, undefined, null}
use cscript.Event.{
  Microtask, World, Mode, all, race, all_settled, any, Combine, Called, returned, threw, stopped,
  Machine, promise, is_pending, plain_task, queue_task, fulfill, reject,
}

abbrev pub no_combine : Combine
no_combine = record {
  results_array = undefined;
  results = [];
  remaining = 0;
  target = 0;
  mode = race;
}

abbrev pub combine : World → ℕ → Combine
combine w c = get_or w.combines c no_combine

-- `IS_UNDEFINED` or `IS_NULL`
abbrev pub is_missing : Value → Bool
is_missing undefined = true
is_missing null = true
is_missing v = false

-- A result written at its index; `race`, whose index is -1, writes none.
abbrev pub write : Option ℕ → Value → List Value → List Value
write none v results = results
write (some i) v results = set results i v

-- Ends a combinator whose last result is in.
abbrev pub conclude : Machine → Mode → Combine → World → World
conclude m any s w = reject s.target (m.aggregate s.results) w
conclude m all s w = fulfill m s.target s.results_array w
conclude m race s w = fulfill m s.target s.results_array w
conclude m all_settled s w = fulfill m s.target s.results_array w

-- The last part of `runCombine`; a count that is at zero goes below it in the source, and there as here it
-- is never one again.
unfoldable pub collect : Machine → Microtask → ℕ → Value → World → World
collect m t c v w =
    let s = combine w c in
    let s' : Combine = record s {
      results = write t.combine_index v s.results;
      remaining = s.remaining - 1;
    } in
    let w' = record w { combines = set w.combines c s' } in
    if s.remaining == 1 then conclude m s.mode s' w' else w'

abbrev pub combine_by : Machine → Mode → Bool → Microtask → ℕ → ℕ → World → World
combine_by m race true t c target w = reject target t.argument w
combine_by m race false t c target w = fulfill m target t.argument w
combine_by m all true t c target w = reject target t.argument w
combine_by m all false t c target w = collect m t c t.argument w
combine_by m any true t c target w = collect m t c t.argument w
combine_by m any false t c target w = fulfill m target t.argument w
combine_by m all_settled is_rejection t c target w =
    collect m t c (m.settled_record t.argument is_rejection) w

-- `runCombine`
unfoldable pub run_combine : Machine → Microtask → ℕ → World → World
run_combine m t c w =
    let s = combine w c in
    if is_pending (promise w s.target).state
    then combine_by m s.mode t.is_rejection t c s.target w
    else w

-- What a task ends with: `CS_OK` or `CS_RUNTIME_ERROR`.
pub data Ran : Type 0 where
  ran : World → Ran
  broke : World → Ran

abbrev pub settle_result : Machine → Option ℕ → Bool → Value → World → World
settle_result m none is_rejection v w = w
settle_result m (some r) true v w = reject r v w
settle_result m (some r) false v w = fulfill m r v w

-- No handler: the outcome passes straight through, after the turns it still has to wait.
abbrev pub pass_by : Machine → ℕ → Microtask → World → World
pass_by m zero t w = settle_result m t.result t.is_rejection t.argument w
pass_by m (suc n) t w =
    queue_task (record (plain_task undefined t.argument t.result t.is_rejection) { extra_hops = n })
      w

abbrev pub handled_by : Machine → Option ℕ → Microtask → Value → World → World
handled_by m none t v w = w
handled_by m (some r) t v w =
    if t.is_finally
    then queue_task
        (record (plain_task undefined t.argument (some r) t.is_rejection) { extra_hops = 1 }) w
    else fulfill m r v w

abbrev pub thrown_by : Option ℕ → Value → World → Ran
thrown_by none v w = broke w
thrown_by (some r) v w = ran (reject r v w)

abbrev pub finish : Machine → Microtask → Called → Ran
finish m t (returned v w) = ran (handled_by m t.result t v w)
finish m t (threw v w) = thrown_by t.result v w
finish m t (stopped w) = broke w

abbrev pub run_callback : Machine → Microtask → World → Ran
run_callback m t w =
    if is_missing t.callback
    then ran (pass_by m t.extra_hops t w)
    else finish m t (m.call t.callback (t.argument ∷ []) w)

abbrev pub run_by : Machine → Microtask → Option ℕ → Option ℕ → World → Ran
run_by m t (some fiber) c w = ran (m.resume fiber t.argument t.is_rejection w)
run_by m t none (some c) w = ran (run_combine m t c w)
run_by m t none none w = run_callback m t w

-- `runMicrotask`
unfoldable pub run_microtask : Machine → Microtask → World → Ran
run_microtask m t w = run_by m t t.fiber t.combine_state w

abbrev pub world_of : Called → World
world_of (returned v w) = w
world_of (threw v w) = w
world_of (stopped w) = w

abbrev pub world_after : Ran → World
world_after (ran w) = w
world_after (broke w) = w
