-- ===== src/Event/Noted.antt =====
-- src/runtime/object_new.c and src/runtime/vm_event.c: a rejected promise that nobody has listened to is
-- among those noted, so that it is reported.
use cscript.Prelude.{
  ℕ, ◌≡◌, ◌⊎◌, refl, sym, ap, ◌∙◌, Bool, true, not, ◌&&◌, List, [], ◌∷◌, ◌++◌, Option, none, some,
  inl, inr, Bool-cases,
}
use mathlib.Core.Path.{subst}
use cscript.Table.Find.{true≢false}
use cscript.Value.{Value, undefined}
use cscript.Event.{
  hop_reaction, State, pending, fulfilled, rejected, Reaction, Promise, new_promise, World, Machine,
  promise, change, is_pending, is_rejected, settle, add_reaction, amend, Microtask, hop_task,
  as_promise, fulfill_by, fulfill,
}
use cscript.Event.Onward.{get_or-set}

abbrev pub Listed : ℕ → List ℕ → Type 0
Listed p [] = ⊥
Listed p (q ∷ qs) = (p ≡ q) ⊎ Listed p qs

Listed-append : (p : ℕ) (qs rs : List ℕ) → Listed p qs → Listed p (qs ++ rs)
Listed-append p [] rs h = absurd h
Listed-append p (q ∷ qs) rs h = elim h [ inl e ↦ inl e | inr g ↦ inr (Listed-append p qs rs g) ]

Listed-end : (p : ℕ) (qs : List ℕ) → Listed p (qs ++ p ∷ [])
Listed-end p [] = inl refl
Listed-end p (q ∷ qs) = inr (Listed-end p qs)

-- A promise that is rejected while nothing listens to it.
abbrev pub is_lost : Promise → Bool
is_lost q = is_rejected q.state && not q.handled

pub record Noted (w : World) : Type 0 where
  pub lost : (p : ℕ) → is_lost (promise w p) ≡ true → Listed p w.noted

-- A change of a promise that does not lose it.
pub change-Noted :
    (p : ℕ) (q : Promise) (w : World)
    → (is_lost q ≡ true → is_lost (promise w p) ≡ true)
    → Noted w
    → Noted (change p q w)
change-Noted p q w keep h = record {
  lost = λ j e. elim (get_or-set w.promises p j q new_promise) [
    | inl f ↦ h.lost j (sym (ap is_lost f) ∙ e)
    | inr (at, f) ↦ subst (λ j. Listed j w.noted) at (h.lost p (keep (sym (ap is_lost f) ∙ e)))
  ];
}

pub settle-Noted : (p : ℕ) (st : State) (v : Value) (w : World) → Noted w → Noted (settle p st v w)
unfolding settle
settle-Noted p st v w h = elim (Bool-cases (is_pending (promise w p).state)) [
  | inl e ↦ rw e (elim (Bool-cases (is_rejected st && not (promise w p).handled)) [
    | inl f ↦ rw f (record {
      lost = λ j g. elim (get_or-set w.promises p j _ new_promise) [
        | inl k ↦ Listed-append j w.noted (p ∷ []) (h.lost j (sym (ap is_lost k) ∙ g))
        | inr (at, k) ↦ subst (λ j. Listed j (w.noted ++ p ∷ [])) at (Listed-end p w.noted)
      ];
    })
    | inr f ↦ rw f (record {
      lost = λ j g. elim (get_or-set w.promises p j _ new_promise) [
        | inl k ↦ h.lost j (sym (ap is_lost k) ∙ g)
        | inr (at, k) ↦ absurd (true≢false (sym g ∙ (ap is_lost k ∙ f)))
      ];
    })
  ])
  | inr e ↦ rw e h
]

-- A promise that is listened to is not lost.
pub handled_lem : (st : State) → (is_rejected st && not true) ≡ true → ⊥
handled_lem pending e = true≢false (sym e)
handled_lem fulfilled e = true≢false (sym e)
handled_lem rejected e = true≢false (sym e)

pub add_reaction-Noted :
    (p : ℕ) (f r : Value) (result : Option ℕ) (w : World)
    → Noted w
    → Noted (add_reaction p f r result w)
unfolding add_reaction
add_reaction-Noted p f r result w h =
    let kept = λ (rs : List Reaction).
      change-Noted p (record (promise w p) { reactions = rs; handled = true }) w
        (λ e. absurd (handled_lem (promise w p).state e)) h in
    elim (Bool-cases (is_pending (promise w p).state)) [
      | inl e ↦ rw e (kept _)
      | inr e ↦ rw e (record { lost = (kept (promise w p).reactions).lost })
    ]

pub amend-Noted :
    (f : Reaction → Reaction) (g : Microtask → Microtask) (p : ℕ) (w : World)
    → Noted w
    → Noted (amend f g p w)
unfolding amend
amend-Noted f g p w h = elim (Bool-cases (is_pending (promise w p).state)) [
  | inl e ↦ rw e (change-Noted p _ w (λ l. l) h)
  | inr e ↦ rw e (record { lost = h.lost })
]

fulfill_by-Noted :
    (p : ℕ) (v : Value) (o : Option ℕ) (w : World) → Noted w → Noted (fulfill_by p v o w)
fulfill_by-Noted p v none w h = settle-Noted p fulfilled v w h
fulfill_by-Noted p v (some inner) w h =
    amend-Noted hop_reaction hop_task inner _
      (add_reaction-Noted inner undefined undefined (some p) w h)

pub fulfill-Noted :
    (m : Machine) (p : ℕ) (v : Value) (w : World) → Noted w → Noted (fulfill m p v w)
unfolding fulfill
fulfill-Noted m p v w h = elim (Bool-cases (is_pending (promise w p).state)) [
  | inl e ↦ rw e (fulfill_by-Noted p v (as_promise m v) w h)
  | inr e ↦ rw e h
]
