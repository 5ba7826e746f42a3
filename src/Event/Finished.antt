-- ===== src/Event/Finished.antt =====
-- src/runtime/vm_event.c: what an event loop that ends well has done.
use cscript.Prelude.{
  ℕ, zero, suc, ◌≡◌, refl, sym, ap, ◌∙◌, if◌then◌else◌, Bool, true, false, List, [], ◌∷◌, Option,
  none, some, inl, inr, some-cancel, none≢some,
}
use mathlib.Core.Path.{subst}
use cscript.Event.{Timer, Microtask, World, Machine, Called, returned, threw, stopped, promise}
use cscript.Event.Runs.{Ran, ran, broke, run_microtask, world_of}
use cscript.Event.Drain.{drain_from, drain, report_unhandled, Ran-cases}
use cscript.Event.Passing.{broke≢ran}
use cscript.Event.Noted.{is_lost, Noted}
use cscript.Event.Acts.{Lawful}
use cscript.Event.Report.{call-Noted, Reports, drain-Noted, report_unhandled-Reports}
use cscript.Event.Loop.{Turn, after_call, fire, after_fire, after_report, after_drain, event_loop}

-- The loop ends well only with nothing left to do, and with no rejection that nobody has listened to.
pub record Finished (w : World) : Type 0 where
  pub queue : w.queue ≡ []
  pub timers : w.timers.entries ≡ []
  pub heard : (p : ℕ) → is_lost (promise w p) ≡ false

abbrev pub Answers : Option Ran → Type 0
Answers none = Unit {0}
Answers (some (broke w)) = Unit {0}
Answers (some (ran w)) = Finished w

-- A drain that ends well leaves an empty queue.
drain_from-empty :
    (m : Machine) (n : ℕ) (ts : List Microtask) (w out : World)
    → w.queue ≡ ts
    → drain_from m n ts w ≡ some (ran out)
    → out.queue ≡ []
unfolding drain_from
drain_from-empty m n [] w out h e = sym (ap queue_of (some-cancel e)) ∙ h
  where
    queue_of : Ran → List Microtask
    queue_of (ran w) = w.queue
    queue_of (broke w) = w.queue
drain_from-empty m zero (t ∷ ts) w out h e = absurd (none≢some e)
drain_from-empty m (suc n) (t ∷ ts) w out h e =
    elim (Ran-cases (run_microtask m t (record w { queue = ts }))) [
      | inl (next, f) ↦ drain_from-empty m n next.queue next out refl (rw (f, drain_from) at e)
      | inr (next, f) ↦ absurd (broke≢ran (some-cancel (rw (f, drain_from) at e)))
    ]

-- A report that is fine, with nothing in the queue and no timer, ends the loop.
report-Answers :
    (w : World)
    → Noted w
    → w.queue ≡ []
    → w.timers.entries ≡ []
    → Answers (some (report_unhandled w))
report-Answers w h q t = answers (report_unhandled w) (report_unhandled-Reports w h)
  where
    answers : (r : Ran) → Reports w r → Answers (some r)
    answers (broke out) g = tt
    answers (ran out) (n, heard, same) = record {
      queue = ap (λ (w : World). w.queue) same ∙ q;
      timers = ap (λ (w : World). w.timers.entries) same ∙ t;
      heard = heard;
    }

after_call-Answers :
    (add : ℕ → ℕ → ℕ) (now : ℕ) (t : Timer) (next : World → Option Ran) (c : Called)
    → Noted (world_of c)
    → ((w : World) → Noted w → Answers (next w))
    → Answers (after_fire next (after_call add now t c))
after_call-Answers add now t next (returned v w) h k = k _ (record { lost = h.lost })
after_call-Answers add now t next (threw v w) h k = tt
after_call-Answers add now t next (stopped w) h k = tt

turn-Answers :
    (next : World → Option Ran) (b : Bool) (x y : Turn)
    → Answers (after_fire next x)
    → Answers (after_fire next y)
    → Answers (after_fire next (if b then x else y))
turn-Answers next true x y h g = h
turn-Answers next false x y h g = g

fire-Answers :
    (m : Machine) (add : ℕ → ℕ → ℕ) (now : ℕ) (next : World → Option Ran) (ts : List Timer)
    (w : World)
    → Lawful m
    → Noted w
    → w.queue ≡ []
    → w.timers.entries ≡ ts
    → ((w : World) → Noted w → Answers (next w))
    → Answers (after_fire next (fire m add now ts w))
unfolding fire
fire-Answers m add now next [] w h n q t k = report-Answers w n q t
fire-Answers m add now next (t ∷ rest) w h n q e k =
    turn-Answers next t.cancelled _ _ (k _ (record { lost = n.lost })) (
      after_call-Answers add now t next _
        (call-Noted m t.callback [] _ h (record { lost = n.lost })) k)

after_report-Answers :
    (m : Machine) (add : ℕ → ℕ → ℕ) (now : ℕ) (next : World → Option Ran) (w : World) (r : Ran)
    → Lawful m
    → w.queue ≡ []
    → Reports w r
    → ((w : World) → Noted w → Answers (next w))
    → Answers (after_report m add now next r)
after_report-Answers m add now next w (broke out) h q g k = tt
after_report-Answers m add now next w (ran out) h q (n, heard, same) k =
    fire-Answers m add now next out.timers.entries out h n (ap (λ (w : World). w.queue) same ∙ q)
      refl k

after_drain-Answers :
    (m : Machine) (add : ℕ → ℕ → ℕ) (now : ℕ) (next : World → Option Ran) (n : ℕ) (w : World)
    (o : Option Ran)
    → Lawful m
    → Noted w
    → drain m n w ≡ o
    → ((w : World) → Noted w → Answers (next w))
    → Answers (after_drain m add now next o)
after_drain-Answers m add now next n w none h g e k = tt
after_drain-Answers m add now next n w (some (broke out)) h g e k = tt
after_drain-Answers m add now next n w (some (ran out)) h g e k =
    after_report-Answers m add now next out (report_unhandled out) h
      (drain_from-empty m n w.queue w out refl e)
      (report_unhandled-Reports out (drain-Noted m n w (ran out) h g e)) k

event_loop-Answers :
    (m : Machine) (add : ℕ → ℕ → ℕ) (clock : ℕ → ℕ) (n : ℕ) (w : World)
    → Lawful m
    → Noted w
    → Answers (event_loop m add clock n w)
unfolding event_loop
event_loop-Answers m add clock zero w h g = tt
event_loop-Answers m add clock (suc n) w h g =
    after_drain-Answers m add (clock n) (event_loop m add clock n) n w (drain m n w) h g refl
      (λ w g. event_loop-Answers m add clock n w h g)

-- If program code acts on promises by the native functions and by awaiting alone, and every rejection that
-- nobody listens to has been noted, an event loop that ends without an error has an empty queue and no
-- timer, and no promise is rejected that nobody has listened to.
pub event_loop-Finished :
    (m : Machine) (add : ℕ → ℕ → ℕ) (clock : ℕ → ℕ) (n : ℕ) (w out : World)
    → Lawful m
    → Noted w
    → event_loop m add clock n w ≡ some (ran out)
    → Finished out
event_loop-Finished m add clock n w out h g e =
    subst Answers e (event_loop-Answers m add clock n w h g)
