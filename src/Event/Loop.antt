-- ===== src/Event/Loop.antt =====
-- src/runtime/vm_event.c: the event loop: the queue drained, the rejections reported, the next timer fired.
use cscript.Prelude.{ℕ, zero, suc, if◌then◌else◌, List, [], ◌∷◌, Option, none, some}
use cscript.Event.{Timer, World, Machine, Called, returned, threw, stopped}
use cscript.Event.Runs.{Ran, ran, broke}
use cscript.Event.Drain.{drain, report_unhandled}
use cscript.Event.Timing.{take_first, rearm}

-- How a turn of the loop goes on: the loop is left, or gone round again, or a callback has failed.
pub data Turn : Type 0 where
  over : World → Turn
  again : World → Turn
  failed : World → Turn

abbrev pub after_call : (ℕ → ℕ → ℕ) → ℕ → Timer → Called → Turn
after_call add now t (returned v w) = again (record w { timers = rearm add now t w.timers })
after_call add now t (threw v w) = failed w
after_call add now t (stopped w) = failed w

-- The part of the loop for the first timer; the time at which an interval is armed again is read after
-- its callback.
unfoldable pub fire : Machine → (ℕ → ℕ → ℕ) → ℕ → List Timer → World → Turn
fire m add now [] w = over w
fire m add now (t ∷ rest) w =
    if t.cancelled
    then again (record w { timers = record w.timers { entries = rest } })
    else after_call add now t
        (m.call t.callback [] (record w { timers = take_first t rest w.timers }))

abbrev pub after_fire : (World → Option Ran) → Turn → Option Ran
after_fire next (over w) = some (report_unhandled w)
after_fire next (again w) = next w
after_fire next (failed w) = some (broke w)

abbrev pub after_report : Machine → (ℕ → ℕ → ℕ) → ℕ → (World → Option Ran) → Ran → Option Ran
after_report m add now next (broke w) = some (broke w)
after_report m add now next (ran w) = after_fire next (fire m add now w.timers.entries w)

abbrev pub after_drain : Machine → (ℕ → ℕ → ℕ) → ℕ → (World → Option Ran) → Option Ran → Option Ran
after_drain m add now next none = none
after_drain m add now next (some (broke w)) = some (broke w)
after_drain m add now next (some (ran w)) = after_report m add now next (report_unhandled w)

-- `csVMRunEventLoop`; the fuel bounds the turns, and in each the tasks, and the clock is read by the turn.
unfoldable pub event_loop : Machine → (ℕ → ℕ → ℕ) → (ℕ → ℕ) → ℕ → World → Option Ran
event_loop m add clock zero w = none
event_loop m add clock (suc n) w =
    after_drain m add (clock n) (event_loop m add clock n) (drain m n w)
