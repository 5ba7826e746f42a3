-- ===== src/Event/Drain.antt =====
-- src/runtime/vm_event.c: the queue drained, and what a drain keeps and brings about.
use cscript.Prelude.{
  ℕ, zero, suc, ◌≤◌, ◌≡◌, ◌⊎◌, refl, ap, ◌∙◌, arith, if◌then◌else◌, false, List, [], ◌∷◌, length,
  Option, none, some, inl, inr, some-cancel, none≢some,
}
use mathlib.Core.Path.{subst}
use cscript.Event.{Microtask, World, Machine, promise, is_pending}
use cscript.Event.Runs.{Ran, ran, broke, run_microtask, world_after}
use cscript.Event.Acts.{Lawful}
use cscript.Event.Running.{run_microtask-Onward}

-- `drainMicrotasks`; `none` is fuel that has run out.
unfoldable pub drain_from : Machine → ℕ → List Microtask → World → Option Ran
drain_from m n [] w = some (ran w)
drain_from m zero (t ∷ ts) w = none
drain_from m (suc n) (t ∷ ts) w = elim (run_microtask m t (record w { queue = ts })) [
  | ran out ↦ drain_from m n out.queue out
  | broke out ↦ some (broke out)
]

abbrev pub drain : Machine → ℕ → World → Option Ran
drain m n w = drain_from m n w.queue w

-- `reportUnhandledRejections` without its text
unfoldable pub report_from : List ℕ → World → Ran
report_from [] w = ran (record w { noted = [] })
report_from (p ∷ ps) w =
    if (promise w p).handled then report_from ps w else broke (record w { noted = [] })

abbrev pub report_unhandled : World → Ran
report_unhandled w = report_from w.noted w

-- What is settled stays settled, with its outcome.
pub record Lasting (w out : World) : Type 0 where
  pub stays :
      (p : ℕ)
      → is_pending (promise w p).state ≡ false
      → ((promise out p).state ≡ (promise w p).state)
        × ((promise out p).value ≡ (promise w p).value)
  pub size : length w.promises ≤ length out.promises

pub Lasting-trans : (a b c : World) → Lasting a b → Lasting b c → Lasting a c
Lasting-trans a b c g h = record {
  stays = λ p s.
      let (st, val) = g.stays p s in
      let (st', val') = h.stays p (ap is_pending st ∙ s) in (st' ∙ st, val' ∙ val);
  size = omega (arith, g.size, h.size);
}

-- A run of the head of the queue.
head-Lasting :
    (m : Machine) (t : Microtask) (ts : List Microtask) (w : World)
    → Lawful m
    → Lasting w (world_after (run_microtask m t (record w { queue = ts })))
head-Lasting m t ts w h =
    let g = run_microtask-Onward m t (record w { queue = ts }) h in
    record { stays = g.stays; size = g.size }

-- How a run of the head ends, and what is left to do.
pub Ran-cases : (r : Ran) → ((w : World) × (r ≡ ran w)) ⊎ ((w : World) × (r ≡ broke w))
Ran-cases (ran w) = inl (w, refl)
Ran-cases (broke w) = inr (w, refl)

-- One run of the loop, and its end.
pub drain_from-run :
    (m : Machine) (n : ℕ) (t : Microtask) (ts : List Microtask) (w out : World)
    → run_microtask m t (record w { queue = ts }) ≡ ran out
    → drain_from m (suc n) (t ∷ ts) w ≡ drain_from m n out.queue out
unfolding drain_from
drain_from-run m n t ts w out e = rw (e, drain_from) refl

pub drain_from-broke :
    (m : Machine) (n : ℕ) (t : Microtask) (ts : List Microtask) (w out : World)
    → run_microtask m t (record w { queue = ts }) ≡ broke out
    → drain_from m (suc n) (t ∷ ts) w ≡ some (broke out)
unfolding drain_from
drain_from-broke m n t ts w out e = rw (e, drain_from) refl

pub drain_from-nil :
    (m : Machine) (n : ℕ) (ts : List Microtask) (w : World)
    → ts ≡ []
    → drain_from m n ts w ≡ some (ran w)
unfolding drain_from
drain_from-nil m n ts w e = ap (λ ts. drain_from m n ts w) e

-- What every run of the head keeps, a drain keeps.
pub drain_from-Step :
    (m : Machine) (R : World → World → Type 0) (n : ℕ) (ts : List Microtask) (w : World) (r : Ran)
    → ((a b c : World) → R a b → R b c → R a c)
    → ((a : World) → R a a)
    → ((t : Microtask) (ts : List Microtask) (w : World)
        → R w (world_after (run_microtask m t (record w { queue = ts }))))
    → drain_from m n ts w ≡ some r
    → R w (world_after r)
unfolding drain_from
drain_from-Step m R n [] w r chain still head e =
    subst (λ r. R w (world_after r)) (some-cancel e) (still w)
drain_from-Step m R zero (t ∷ ts) w r chain still head e = absurd (none≢some e)
drain_from-Step m R (suc n) (t ∷ ts) w r chain still head e =
    elim (Ran-cases (run_microtask m t (record w { queue = ts }))) [
      | inl (out, f) ↦
          chain w out _ (subst (λ r. R w (world_after r)) f (head t ts w))
            (drain_from-Step m R n out.queue out r chain still head (rw (f, drain_from) at e))
      | inr (out, f) ↦
          subst (λ r. R w (world_after r)) (some-cancel (rw (f, drain_from) at e))
            (subst (λ r. R w (world_after r)) f (head t ts w))
    ]

-- If program code acts on promises by the native functions and by awaiting alone, a drain that ends, with
-- or without an error, leaves every promise that was settled with its state and its value.
pub drain-Lasting :
    (m : Machine) (n : ℕ) (w : World) (r : Ran)
    → Lawful m
    → drain m n w ≡ some r
    → Lasting w (world_after r)
drain-Lasting m n w r h e =
    drain_from-Step m Lasting n w.queue w r Lasting-trans
      (λ w. record { stays = λ p s. (refl, refl); size = omega arith })
      (λ t ts w. head-Lasting m t ts w h) e
