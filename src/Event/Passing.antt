-- ===== src/Event/Passing.antt =====
-- src/runtime/vm_event.c: a task without a handler, which passes an outcome on.
use cscript.Prelude.{
  ℕ, ◌<◌, ◌≡◌, refl, ap, ◌∙◌, Bool, true, false, length, Option, none, some, inl, inr, Bool-cases,
}
use cscript.Value.{Value}
use cscript.Event.{
  State, fulfilled, rejected, Microtask, World, Machine, promise, is_pending, as_promise, settle,
  fulfill,
}
use cscript.Event.Onward.{settle-Settles}
use cscript.Event.Runs.{ran, broke, run_by, is_missing, pass_by, settle_result}

-- A task that passes an outcome to promise `p`: no fiber, no combinator, no handler, and an outcome
-- that is not a promise.
pub record Passes (m : Machine) (p : ℕ) (t : Microtask) : Type 0 where
  pub no_fiber : t.fiber ≡ none
  pub no_combine : t.combine_state ≡ none
  pub no_handler : is_missing t.callback ≡ true
  pub to : t.result ≡ some p
  pub flat : as_promise m t.argument ≡ none

settle-settled :
    (p : ℕ) (st : State) (v : Value) (w : World)
    → p < length w.promises
    → is_pending st ≡ false
    → is_pending (promise (settle p st v w) p).state ≡ false
unfolding settle
settle-settled p st v w h f = elim (Bool-cases (is_pending (promise w p).state)) [
  | inl e ↦ ap is_pending ((settle-Settles p st v w h e).state) ∙ f
  | inr e ↦ rw e e
]

pub settle_result-settled :
    (m : Machine) (p : ℕ) (b : Bool) (v : Value) (w : World)
    → p < length w.promises
    → as_promise m v ≡ none
    → is_pending (promise (settle_result m (some p) b v w) p).state ≡ false
unfolding fulfill
settle_result-settled m p true v w h f = settle-settled p rejected v w h refl
settle_result-settled m p false v w h f = elim (Bool-cases (is_pending (promise w p).state)) [
  | inl e ↦ rw (e, f) (settle-settled p fulfilled v w h refl)
  | inr e ↦ rw e e
]

pub broke≢ran : {a b : World} → broke a ≡ ran b → ⊥
broke≢ran h = cc

pub run_by-passes :
    (m : Machine) (t : Microtask) (f c : Option ℕ) (w : World)
    → f ≡ none
    → c ≡ none
    → is_missing t.callback ≡ true
    → run_by m t f c w ≡ ran (pass_by m t.extra_hops t w)
run_by-passes m t f c w e g h = rw (e, g, h) refl
