-- ===== src/Event/Gathered.antt =====
-- src/native/native_promise.c and src/runtime/vm_event.c: `Promise.all` of plain values, from the call to the
-- end of the drain.
use cscript.Prelude.{
  ℕ, suc, ◌≡◌, refl, ap, ◌∙◌, arith, false, List, [], ◌∷◌, ◌++◌, length, length-append, length-set,
  set, get_or, append-append, none, some, ◌==◌,
}
use mathlib.Core.Path.{subst}
use cscript.Value.{Value}
use cscript.Event.{new_promise, World, Machine, all, as_promise}
use cscript.Event.Onward.{get_or-set_self}
use cscript.Event.Runs.{ran, no_combine, run_microtask}
use cscript.Event.Drain.{drain_from, drain_from-run, drain_from-nil}
use cscript.Event.Quiet.{Every}
use cscript.Event.Natives.{allocate, next_promise, new_combine, combinator}
use cscript.Event.Combined.{
  Plain, tasks_of, blank, state_of, Collecting, All, told, told-All, run_combine-told, attach-tasks,
}

last_run :
    (m : Machine) (c target : ℕ) (array : Value) (v : Value) (done rest : List Value) (w : World)
    → Collecting c target array done (v ∷ rest) w
    → (out : World)
    → told m c target array
        (done ++ v ∷ [])
        rest
        (record w { queue = tasks_of c (suc (length done)) rest })
      ≡ out
    → (n : ℕ)
    → drain_from m (suc n) (tasks_of c (length done) (v ∷ rest)) w ≡ drain_from m n out.queue out
unfolding run_microtask
last_run m c target array v done rest w h out e n =
    let w0 : World = record w { queue = tasks_of c (suc (length done)) rest } in
    drain_from-run m n _ _ w out
      (ap ran (run_combine-told m c target array v done rest w0 h.state h.waiting ∙ e))

not_last : (n : ℕ) → (suc (suc n) == 1) ≡ false
not_last n = ground arith

-- The run for a value that is not the last.
next_Collecting :
    (c target : ℕ) (array u v : Value) (done rest : List Value) (w : World)
    → Collecting c target array done (v ∷ u ∷ rest) w
    → Collecting c target array (done ++ v ∷ []) (u ∷ rest) (record w {
      queue = tasks_of c (suc (length done)) (u ∷ rest);
      combines = set w.combines c (state_of target array (done ++ v ∷ []) (u ∷ rest));
    })
next_Collecting c target array u v done rest w h =
    let s = state_of target array (done ++ v ∷ []) (u ∷ rest) in
    record {
      queue = ap (λ i. tasks_of c i (u ∷ rest)) (omega (arith, length-append done (v ∷ [])));
      slot = omega (arith, h.slot, length-set w.combines c s);
      state = get_or-set_self w.combines c s no_combine h.slot;
      known = h.known;
      waiting = h.waiting;
    }

-- How the values that are left are collected.
abbrev pub Collects : Machine → ℕ → ℕ → Value → List Value → List Value → World → Type 0
Collects m c target array done rest w =
    (out : World) × (drain_from m (length rest) w.queue w ≡ some (ran out))
    × All c target array (done ++ rest) out

length-blank : (vs : List Value) → length (blank vs) ≡ length vs
length-blank [] = refl
length-blank (v ∷ vs) = ap suc (length-blank vs)

get_or-last {ℓ} : {A : Type ℓ} (xs : List A) (x d : A) → get_or (xs ++ x ∷ []) (length xs) d ≡ x
get_or-last [] x d = refl
get_or-last (y ∷ xs) x d = get_or-last xs x d

collected :
    (m : Machine) (c target : ℕ) (array : Value) (rest : List Value) (v : Value) (done : List Value)
    (w : World)
    → as_promise m array ≡ none
    → Collecting c target array done (v ∷ rest) w
    → Collects m c target array done (v ∷ rest) w
collected m c target array [] v done w flat h =
    let w0 : World = record w { queue = [] } in
    let out = told m c target array (done ++ v ∷ []) [] w0 in
    let last = told-All m c target array (done ++ v ∷ []) w0 flat h.slot h.known h.waiting refl in
    (
      out,
      ap (λ ts. drain_from m 1 ts w) h.queue
          ∙ (last_run m c target array v done [] w h out refl 0
              ∙ drain_from-nil m 0 out.queue out last.queue),
      last,
    )
collected m c target array (u ∷ rest) v done w flat h =
    let w0 : World = record w { queue = tasks_of c (suc (length done)) (u ∷ rest) } in
    let w1 : World = record w0 {
      combines = set w.combines c (state_of target array (done ++ v ∷ []) (u ∷ rest));
    } in
    let told_w1 : told m c target array (done ++ v ∷ []) (u ∷ rest) w0 ≡ w1 =
      rw (not_last (length rest)) refl in
    let (out, e, got) =
      collected m c target array rest u (done ++ v ∷ []) w1 flat
        (next_Collecting c target array u v done rest w h) in
    (
      out,
      ap (λ ts. drain_from m (suc (suc (length rest))) ts w) h.queue
          ∙ (last_run m c target array v done (u ∷ rest) w h w1 told_w1 (suc (length rest)) ∙ e),
      subst (λ vs. All c target array vs out) (append-append done (v ∷ []) (u ∷ rest)) got,
    )

-- `Promise.all` of one plain value or more, called when the queue is empty, gives a new promise, which the
-- drain, in as many runs as there are values, fulfils with the array of the results; those are the values
-- in their order.
pub combinator-all :
    (m : Machine) (array v : Value) (vs : List Value) (w : World)
    → as_promise m array ≡ none
    → Every (Plain m) (v ∷ vs)
    → w.queue ≡ []
    → (called : World) × (combinator m all array (some (v ∷ vs)) w ≡ some (called, next_promise w))
      × Collects m (length w.combines) (next_promise w) array [] (v ∷ vs) called
unfolding combinator
combinator-all m array v vs w flat plain q =
    let s = new_combine all array (v ∷ vs) (next_promise w) in
    let fresh : World = record (allocate w) { combines = w.combines ++ s ∷ [] } in
    let called : World = record fresh {
      queue = w.queue ++ tasks_of (length w.combines) 0 (v ∷ vs);
    } in
    (
      called,
      ap (λ w'. some (w', next_promise w))
          (attach-tasks m (length w.combines) 0 (v ∷ vs) fresh plain),
      collected m (length w.combines) (next_promise w) array vs v [] called flat (record {
        queue = ap (λ ts. ts ++ tasks_of (length w.combines) 0 (v ∷ vs)) q;
        slot = omega (arith, length-append w.combines (s ∷ []));
        state =
            get_or-last w.combines s no_combine
            ∙ ap (λ n. record s { remaining = n }) (length-blank (v ∷ vs));
        known = omega (arith, length-append w.promises (new_promise ∷ []));
        waiting = get_or-last w.promises new_promise new_promise;
      }),
    )
