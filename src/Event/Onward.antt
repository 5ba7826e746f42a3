-- ===== src/Event/Onward.antt =====
-- src/runtime/object_new.c: what every operation on promises keeps: a settled promise stays as it is, and
-- the queue only grows at its end.
use cscript.Prelude.{
  ℕ, zero, suc, ◌<◌, ◌≤◌, ◌≡◌, ◌⊎◌, refl, sym, ap, ◌∙◌, arith, if◌then◌else◌, inl, inr, Bool-cases,
  Bool, true, false, List, [], ◌∷◌, ◌++◌, map, length, length-set, set, get_or, append-append,
  Option, none, some,
}
use mathlib.Core.Path.{subst}
use mathlib.Core.List.{append-nil}
use cscript.Table.Find.{true≢false}
use cscript.Value.{Value}
use cscript.Event.{
  Reaction, hop_reaction, State, fulfilled, is_pending, is_rejected, Microtask, Promise, World,
  Machine, new_promise, promise, change, plain_task, queue_task, map_last, task_of, settle,
  add_reaction, hop_task, amend, as_promise, fulfill_by, fulfill,
}

-- The entry at a place that is written, and at any other.
pub get_or-set {ℓ} :
    {A : Type ℓ} (xs : List A) (i j : ℕ) (v d : A)
    → (get_or (set xs i v) j d ≡ get_or xs j d) ⊎ ((i ≡ j) × (get_or (set xs i v) j d ≡ v))
get_or-set [] i j v d = inl refl
get_or-set (x ∷ xs) zero zero v d = inr (refl, refl)
get_or-set (x ∷ xs) zero (suc j) v d = inl refl
get_or-set (x ∷ xs) (suc i) zero v d = inl refl
get_or-set (x ∷ xs) (suc i) (suc j) v d = elim (get_or-set xs i j v d) [
  | inl e ↦ inl e
  | inr (e, f) ↦ inr (ap suc e, f)
]

pub get_or-set_self {ℓ} :
    {A : Type ℓ} (xs : List A) (i : ℕ) (v d : A) → i < length xs → get_or (set xs i v) i d ≡ v
get_or-set_self [] i v d h = absurd (omega arith)
get_or-set_self (x ∷ xs) zero v d h = refl
get_or-set_self (x ∷ xs) (suc i) v d h = get_or-set_self xs i v d (omega arith)

-- The entry of a new place is the default.
pub get_or-default {ℓ} :
    {A : Type ℓ} (xs : List A) (i : ℕ) (d : A) → get_or (xs ++ d ∷ []) i d ≡ get_or xs i d
get_or-default [] zero d = refl
get_or-default [] (suc i) d = refl
get_or-default (x ∷ xs) zero d = refl
get_or-default (x ∷ xs) (suc i) d = get_or-default xs i d

pub map_last-append {ℓ} :
    {A : Type ℓ} (f : A → A) (xs : List A) (x : A) → map_last f (xs ++ x ∷ []) ≡ xs ++ f x ∷ []
unfolding map_last
map_last-append f [] x = refl
map_last-append f (y ∷ []) x = refl
map_last-append f (y ∷ z ∷ xs) x = ap (λ zs. y ∷ zs) (map_last-append f (z ∷ xs) x)

pub record Onward (w out : World) : Type 0 where
  pub stays :
      (p : ℕ)
      → is_pending (promise w p).state ≡ false
      → ((promise out p).state ≡ (promise w p).state)
        × ((promise out p).value ≡ (promise w p).value)
  pub more : List Microtask
  pub later : out.queue ≡ w.queue ++ more
  pub size : length w.promises ≤ length out.promises

pub Onward-refl : (w : World) → Onward w w
Onward-refl w = record {
  stays = λ p h. (refl, refl);
  more = [];
  later = sym (append-nil w.queue);
  size = omega arith;
}

pub Onward-trans : (a b c : World) → Onward a b → Onward b c → Onward a c
Onward-trans a b c g h = record {
  stays = λ p s.
      let (st, val) = g.stays p s in
      let (st', val') = h.stays p (ap is_pending st ∙ s) in (st' ∙ st, val' ∙ val);
  more = g.more ++ h.more;
  later = h.later ∙ (ap (λ q. q ++ h.more) g.later ∙ append-append a.queue g.more h.more);
  size = omega (arith, g.size, h.size);
}

pub Onward-if :
    (w : World) (b : Bool) (x y : World)
    → (b ≡ true → Onward w x)
    → (b ≡ false → Onward w y)
    → Onward w (if b then x else y)
Onward-if w true x y hx hy = hx refl
Onward-if w false x y hx hy = hy refl

pub queue_task-Onward : (t : Microtask) (w : World) → Onward w (queue_task t w)
queue_task-Onward t w = record {
  stays = λ p h. (refl, refl);
  more = t ∷ [];
  later = refl;
  size = omega arith;
}

-- A promise replaced, which keeps its state and value unless it was pending.
stays_changed :
    (w : World) (p : ℕ) (q : Promise) (queue : List Microtask) (noted : List ℕ)
    → (is_pending (promise w p).state ≡ false
        → (q.state ≡ (promise w p).state) × (q.value ≡ (promise w p).value))
    → (j : ℕ) → is_pending (promise w j).state ≡ false
    → ((get_or (set w.promises p q) j new_promise).state ≡ (promise w j).state)
      × ((get_or (set w.promises p q) j new_promise).value ≡ (promise w j).value)
stays_changed w p q queue noted h j s = elim (get_or-set w.promises p j q new_promise) [
  | inl e ↦ (ap (λ (q : Promise). q.state) e, ap (λ (q : Promise). q.value) e)
  | inr (at, e) ↦
      let (st, val) = h (subst (λ j. is_pending (promise w j).state ≡ false) (sym at) s) in
      (
        ap (λ (q : Promise). q.state) e ∙ (st ∙ ap (λ j. (promise w j).state) at),
        ap (λ (q : Promise). q.value) e ∙ (val ∙ ap (λ j. (promise w j).value) at),
      )
]

pub change-Onward :
    (p : ℕ) (q : Promise) (w : World)
    → (is_pending (promise w p).state ≡ false
        → (q.state ≡ (promise w p).state) × (q.value ≡ (promise w p).value))
    → Onward w (change p q w)
change-Onward p q w h = record {
  stays = stays_changed w p q [] [] h;
  more = [];
  later = sym (append-nil w.queue);
  size = omega (arith, length-set w.promises p q);
}

-- Settling a promise, whatever its state, keeps what is settled, and queues the reactions at the end.
pub settle-Onward : (p : ℕ) (state : State) (v : Value) (w : World) → Onward w (settle p state v w)
unfolding settle
settle-Onward p state v w =
    Onward-if w (is_pending (promise w p).state) _ w
      (λ e. record {
        stays = stays_changed w p _ [] [] (λ n. absurd (true≢false (sym e ∙ n)));
        more = map (task_of state v) (promise w p).reactions;
        later = refl;
        size = omega (arith, length-set w.promises p _);
      })
      (λ e. Onward-refl w)

pub add_reaction-Onward :
    (p : ℕ) (f r : Value) (result : Option ℕ) (w : World) → Onward w (add_reaction p f r result w)
unfolding add_reaction
add_reaction-Onward p f r result w =
    Onward-if w (is_pending (promise w p).state) _ _ (λ e. change-Onward p _ w (λ n. (refl, refl)))
      (λ e. Onward-trans w _ _ (change-Onward p _ w (λ n. (refl, refl))) (queue_task-Onward _ _))

-- A reaction changes no state.
add_reaction-state :
    (p : ℕ) (f r : Value) (result : Option ℕ) (w : World)
    → (promise (add_reaction p f r result w) p).state ≡ (promise w p).state
unfolding add_reaction
add_reaction-state p f r result w = elim (Bool-cases (is_pending (promise w p).state)) [
  | inl e ↦ rw e (kept w p _ refl)
  | inr e ↦ rw e (kept w p _ refl)
]
  where
    kept :
        (w : World) (p : ℕ) (q : Promise)
        → q.state ≡ (promise w p).state
        → (get_or (set w.promises p q) p new_promise).state ≡ (promise w p).state
    kept w p q h = elim (get_or-set w.promises p p q new_promise) [
      | inl e ↦ ap (λ (q : Promise). q.state) e
      | inr (at, e) ↦ ap (λ (q : Promise). q.state) e ∙ h
    ]

-- What a reaction has just added may be changed: for a settled promise, the task at the end of the queue.
amended :
    (g : Microtask → Microtask) (p : ℕ) (on_fulfilled on_rejected : Value) (result : Option ℕ)
    (w : World)
    → is_pending (promise w p).state ≡ false
    → Onward w (record (add_reaction p on_fulfilled on_rejected result w) {
      queue = map_last g (add_reaction p on_fulfilled on_rejected result w).queue;
    })
unfolding add_reaction
amended g p on_fulfilled on_rejected result w e =
    let rejecting = is_rejected (promise w p).state in
    let t =
      plain_task (if rejecting then on_rejected else on_fulfilled) (promise w p).value result
        rejecting in
    rw e (record {
      stays = stays_changed w p _ [] [] (λ n. (refl, refl));
      more = g t ∷ [];
      later = map_last-append g w.queue t;
      size = omega (arith, length-set w.promises p _);
    })

pub amend-Onward :
    (f : Reaction → Reaction) (g : Microtask → Microtask) (p : ℕ) (on_fulfilled on_rejected : Value)
    (result : Option ℕ) (w : World)
    → Onward w (amend f g p (add_reaction p on_fulfilled on_rejected result w))
unfolding amend
amend-Onward f g p on_fulfilled on_rejected result w =
    let waiting = add_reaction p on_fulfilled on_rejected result w in
    Onward-if w (is_pending (promise waiting p).state) _ _
      (λ e.
        Onward-trans w waiting _ (add_reaction-Onward p on_fulfilled on_rejected result w)
          (change-Onward p _ waiting (λ n. absurd (true≢false (sym e ∙ n)))))
      (λ e.
        amended g p on_fulfilled on_rejected result w
          (sym (ap is_pending (add_reaction-state p on_fulfilled on_rejected result w)) ∙ e))

fulfill_by-Onward : (p : ℕ) (v : Value) (o : Option ℕ) (w : World) → Onward w (fulfill_by p v o w)
fulfill_by-Onward p v none w = settle-Onward p fulfilled v w
fulfill_by-Onward p v (some inner) w = amend-Onward hop_reaction hop_task inner _ _ (some p) w

pub fulfill-Onward : (m : Machine) (p : ℕ) (v : Value) (w : World) → Onward w (fulfill m p v w)
unfolding fulfill
fulfill-Onward m p v w =
    Onward-if w (is_pending (promise w p).state) _ w (λ e. fulfill_by-Onward p v (as_promise m v) w)
      (λ e. Onward-refl w)

-- Settling a promise that is pending settles it with the value, and queues its reactions in the order in
-- which they were added.
pub record Settles (p : ℕ) (st : State) (v : Value) (w out : World) : Type 0 where
  pub state : (promise out p).state ≡ st
  pub value : (promise out p).value ≡ v
  pub reactions : (promise out p).reactions ≡ []
  pub queued : out.queue ≡ w.queue ++ map (task_of st v) (promise w p).reactions

pub settle-Settles :
    (p : ℕ) (state : State) (v : Value) (w : World)
    → p < length w.promises
    → is_pending (promise w p).state ≡ true
    → Settles p state v w (settle p state v w)
unfolding settle
settle-Settles p state v w h e =
    let q : Promise = record {
      state = state;
      value = v;
      reactions = [];
      handled = (promise w p).handled;
    } in
    let at = get_or-set_self w.promises p q new_promise h in
    rw e (record {
      state = ap (λ (q : Promise). q.state) at;
      value = ap (λ (q : Promise). q.value) at;
      reactions = ap (λ (q : Promise). q.reactions) at;
      queued = refl;
    })
