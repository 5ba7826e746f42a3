-- ===== src/Event/Report.antt =====
-- src/runtime/vm_event.c: the report of the rejections that nobody has listened to.
use cscript.Prelude.{
  ℕ, ◌≡◌, refl, sym, ap, ◌∙◌, Bool, true, false, not, ◌&&◌, List, [], ◌∷◌, some, inl, inr,
  Bool-cases,
}
use cscript.Table.Find.{true≢false}
use cscript.Value.{Value}
use cscript.Event.{
  new_promise, change, State, pending, fulfilled, rejected, World, Machine, promise, is_rejected,
}
use cscript.Event.Runs.{Ran, ran, broke, world_of, world_after}
use cscript.Event.Natives.{allocate}
use cscript.Event.Onward.{get_or-default}
use cscript.Event.Acts.{Steps, Lawful, Acts-Step}
use cscript.Event.Running.{run_microtask-Step}
use cscript.Event.Drain.{drain, drain_from-Step, report_from, report_unhandled}
use cscript.Event.Noted.{
  add_reaction-Noted, amend-Noted, change-Noted, handled_lem, Listed, is_lost, Noted, settle-Noted,
  fulfill-Noted,
}

abbrev KeepsNoted : World → World → Type 0
KeepsNoted w out = Noted w → Noted out

handles-Noted :
    (p : ℕ) (w : World) → Noted w → Noted (change p (record (promise w p) { handled = true }) w)
handles-Noted p w h = change-Noted p _ w (λ e. absurd (handled_lem (promise w p).state e)) h

allocate-Noted : (w : World) → Noted w → Noted (allocate w)
allocate-Noted w h = record {
  lost = λ p e. h.lost p (sym (ap is_lost (get_or-default w.promises p new_promise)) ∙ e);
}

Noted-Steps : (m : Machine) → Steps m KeepsNoted
Noted-Steps m = record {
  still = λ w n. n;
  chain = λ a b c g h n. h (g n);
  settles = settle-Noted;
  fulfills = fulfill-Noted m;
  tasks = λ t w n. record { lost = n.lost };
  records = λ cs w n. record { lost = n.lost };
  adds = add_reaction-Noted;
  amends = λ f g p on_fulfilled on_rejected result w n.
      amend-Noted f g p _ (add_reaction-Noted p on_fulfilled on_rejected result w n);
  handles = handles-Noted;
  allocates = allocate-Noted;
  times = λ ts w n. record { lost = n.lost };
}

pub call-Noted :
    (m : Machine) (f : Value) (args : List Value) (w : World)
    → Lawful m
    → Noted w
    → Noted (world_of (m.call f args w))
call-Noted m f args w h = Acts-Step (Noted-Steps m) _ _ (h.calls f args w)

pub drain-Noted :
    (m : Machine) (n : ℕ) (w : World) (r : Ran)
    → Lawful m
    → Noted w
    → drain m n w ≡ some r
    → Noted (world_after r)
drain-Noted m n w r h g e =
    drain_from-Step m KeepsNoted n w.queue w r (λ a b c g h n. h (g n)) (λ w n. n)
      (λ t ts w n.
        run_microtask-Step (Noted-Steps m) h t (record w { queue = ts }) (record { lost = n.lost }))
      e g

-- A report that is fine leaves no promise that is lost; one that fails names a promise that was noted and
-- that nothing has listened to.
abbrev pub Reports : World → Ran → Type 0
Reports w (ran out) =
    Noted out × ((p : ℕ) → is_lost (promise out p) ≡ false) × (out ≡ record w { noted = [] })
Reports w (broke out) =
    (p : ℕ) × Listed p w.noted × ((promise w p).handled ≡ false) × (out ≡ record w { noted = [] })

-- The loop, with what is left of the list.
record Left (w : World) (ps : List ℕ) : Type 0 where
  lost : (p : ℕ) → is_lost (promise w p) ≡ true → Listed p ps
  known : (p : ℕ) → Listed p ps → Listed p w.noted

handled-lost : (st : State) (b : Bool) → b ≡ true → (is_rejected st && not b) ≡ false
handled-lost pending b e = refl
handled-lost fulfilled b e = refl
handled-lost rejected b e = rw e refl

report_from-Reports : (ps : List ℕ) (w : World) → Left w ps → Reports w (report_from ps w)
unfolding report_from
report_from-Reports [] w h = (
  record { lost = h.lost },
  λ p. elim (Bool-cases (is_lost (promise w p))) [ inl e ↦ absurd (h.lost p e) | inr e ↦ e ],
  refl,
)
report_from-Reports (p ∷ ps) w h = elim (Bool-cases (promise w p).handled) [
  | inl e ↦ rw e (
      report_from-Reports ps w (record {
        lost = λ j f. elim (h.lost j f) [
          | inl at ↦ absurd (
              true≢false (
                sym f
                ∙ (ap (λ j. is_lost (promise w j)) at ∙ handled-lost (promise w p).state _ e)))
          | inr g ↦ g
        ];
        known = λ j g. h.known j (inr g);
      }))
  | inr e ↦ rw e (p, h.known p (inl refl), e, refl)
]

-- When every promise that is rejected and not listened to has been noted, the report fails if there is
-- one, and is fine if there is none.
pub report_unhandled-Reports : (w : World) → Noted w → Reports w (report_unhandled w)
report_unhandled-Reports w h =
    report_from-Reports w.noted w (record { lost = h.lost; known = λ p g. g })
