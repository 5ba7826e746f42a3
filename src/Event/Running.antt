-- ===== src/Event/Running.antt =====
-- src/runtime/vm_event.c: what the run of a microtask keeps, whatever the program does: a relation between
-- worlds that holds of the operations on promises holds of the run.
use cscript.Prelude.{
  ◌≡◌, refl, sym, ap, get_or, ◌∙◌, length, length-append, ℕ, zero, suc, ◌==◌, if◌then◌else◌, Bool,
  true, false, [], ◌∷◌, set, Option, none, some, inl, inr, Bool-cases, arith,
}
use mathlib.Core.List.{append-nil}
use cscript.Value.{Value}
use cscript.Event.{
  Promise, new_promise, Microtask, World, Mode, all, race, all_settled, any, Combine, Called,
  returned, threw, stopped, Machine, promise, is_pending,
}
use cscript.Event.Onward.{
  add_reaction-Onward, amend-Onward, change-Onward, get_or-default, Onward, Onward-refl,
  Onward-trans, settle-Onward, fulfill-Onward, queue_task-Onward,
}
use cscript.Event.Natives.{allocate}
use cscript.Event.Acts.{Steps, Lawful, Acts-Step}
use cscript.Event.Runs.{
  combine, is_missing, conclude, collect, combine_by, run_combine, settle_result, pass_by,
  handled_by, thrown_by, finish, run_callback, run_by, run_microtask, world_of, world_after,
}

module _ {m : Machine} {R : World → World → Type 0} (s : Steps m R) (lawful : Lawful m) where
  either : (w : World) (b : Bool) (x y : World) → R w x → R w y → R w (if b then x else y)
  either w true x y g h = g
  either w false x y g h = h

  conclude-Step : (mode : Mode) (c : Combine) (w : World) → R w (conclude m mode c w)
  conclude-Step any c w = s.settles c.target _ _ w
  conclude-Step all c w = s.fulfills c.target _ w
  conclude-Step race c w = s.fulfills c.target _ w
  conclude-Step all_settled c w = s.fulfills c.target _ w

  collect-Step : (t : Microtask) (c : ℕ) (v : Value) (w : World) → R w (collect m t c v w)
  unfolding collect
  collect-Step t c v w =
      let kept = s.records (set w.combines c _) w in
      either w ((combine w c).remaining == 1) _ _
        (s.chain w _ _ kept (conclude-Step (combine w c).mode _ _)) kept

  combine_by-Step :
      (mode : Mode) (b : Bool) (t : Microtask) (c target : ℕ) (w : World)
      → R w (combine_by m mode b t c target w)
  combine_by-Step race true t c target w = s.settles target _ _ w
  combine_by-Step race false t c target w = s.fulfills target _ w
  combine_by-Step all true t c target w = s.settles target _ _ w
  combine_by-Step all false t c target w = collect-Step t c _ w
  combine_by-Step any true t c target w = collect-Step t c _ w
  combine_by-Step any false t c target w = s.fulfills target _ w
  combine_by-Step all_settled b t c target w = collect-Step t c _ w

  run_combine-Step : (t : Microtask) (c : ℕ) (w : World) → R w (run_combine m t c w)
  unfolding run_combine
  run_combine-Step t c w =
      either w (is_pending (promise w (combine w c).target).state) _ w
        (combine_by-Step (combine w c).mode t.is_rejection t c _ w) (s.still w)

  settle_result-Step :
      (r : Option ℕ) (b : Bool) (v : Value) (w : World) → R w (settle_result m r b v w)
  settle_result-Step none b v w = s.still w
  settle_result-Step (some r) true v w = s.settles r _ v w
  settle_result-Step (some r) false v w = s.fulfills r v w

  pass_by-Step : (n : ℕ) (t : Microtask) (w : World) → R w (pass_by m n t w)
  pass_by-Step zero t w = settle_result-Step t.result t.is_rejection t.argument w
  pass_by-Step (suc n) t w = s.tasks _ w

  handled_by-Step :
      (r : Option ℕ) (t : Microtask) (v : Value) (w : World) → R w (handled_by m r t v w)
  handled_by-Step none t v w = s.still w
  handled_by-Step (some r) t v w = either w t.is_finally _ _ (s.tasks _ w) (s.fulfills r v w)

  thrown_by-Step : (r : Option ℕ) (v : Value) (w : World) → R w (world_after (thrown_by r v w))
  thrown_by-Step none v w = s.still w
  thrown_by-Step (some r) v w = s.settles r _ v w

  finish-Step :
      (t : Microtask) (w : World) (c : Called) → R w (world_of c) → R w (world_after (finish m t c))
  finish-Step t w (returned v w') h = s.chain w w' _ h (handled_by-Step t.result t v w')
  finish-Step t w (threw v w') h = s.chain w w' _ h (thrown_by-Step t.result v w')
  finish-Step t w (stopped w') h = h

  run_callback-Step : (t : Microtask) (w : World) → R w (world_after (run_callback m t w))
  run_callback-Step t w = elim (Bool-cases (is_missing t.callback)) [
    | inl e ↦ rw e (pass_by-Step t.extra_hops t w)
    | inr e ↦ rw e (
        finish-Step t w (m.call t.callback (t.argument ∷ []) w)
          (Acts-Step s _ _ (lawful.calls t.callback (t.argument ∷ []) w)))
  ]

  run_by-Step : (t : Microtask) (f c : Option ℕ) (w : World) → R w (world_after (run_by m t f c w))
  run_by-Step t (some f) c w = Acts-Step s _ _ (lawful.resumes f t.argument t.is_rejection w)
  run_by-Step t none (some c) w = run_combine-Step t c w
  run_by-Step t none none w = run_callback-Step t w

  pub run_microtask-Step : (t : Microtask) (w : World) → R w (world_after (run_microtask m t w))
  unfolding run_microtask
  run_microtask-Step t w = run_by-Step t t.fiber t.combine_state w

-- A change of neither the promises nor the queue.
apart : (w out : World) → out.promises ≡ w.promises → out.queue ≡ w.queue → Onward w out
apart w out e q = record {
  stays = λ p h.
      let f = ap (λ ps. get_or ps p new_promise) e in
      (ap (λ (q : Promise). q.state) f, ap (λ (q : Promise). q.value) f);
  more = [];
  later = q ∙ sym (append-nil w.queue);
  size = omega (arith, ap length e);
}

allocate-Onward : (w : World) → Onward w (allocate w)
allocate-Onward w = record {
  stays = λ p h.
      let e = get_or-default w.promises p new_promise in
      (ap (λ (q : Promise). q.state) e, ap (λ (q : Promise). q.value) e);
  more = [];
  later = sym (append-nil w.queue);
  size = omega (arith, length-append w.promises (new_promise ∷ []));
}

pub Onward-Steps : (m : Machine) → Steps m Onward
Onward-Steps m = record {
  still = Onward-refl;
  chain = Onward-trans;
  settles = settle-Onward;
  fulfills = fulfill-Onward m;
  tasks = queue_task-Onward;
  records = λ cs w. apart w _ refl refl;
  adds = add_reaction-Onward;
  amends = amend-Onward;
  handles = λ p w. change-Onward p _ w (λ h. (refl, refl));
  allocates = allocate-Onward;
  times = λ ts w. apart w _ refl refl;
}

pub run_microtask-Onward :
    (m : Machine) (t : Microtask) (w : World)
    → Lawful m
    → Onward w (world_after (run_microtask m t w))
run_microtask-Onward m t w h = run_microtask-Step (Onward-Steps m) h t w
