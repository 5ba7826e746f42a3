-- ===== src/Event/Sorted.antt =====
-- src/native/native_promise.c and src/runtime/vm_event.c: the array of timers stays sorted, by the time they
-- are due and then by the order in which they were registered, and within its bound.
use cscript.Prelude.{
  ℕ, zero, suc, ◌<◌, ◌≤◌, ◌≡◌, ◌⊎◌, refl, sym, ap, arith, Bool, true, false, ◌&&◌, List, [], ◌∷◌,
  length, get_or, tests, if◌then◌else◌, inl, inr, Bool-cases,
}
use mathlib.Core.Path.{subst}
use cscript.Table.Find.{true≢false}
use cscript.Event.{Timer, Timers}
use cscript.Event.Quiet.{Every}
use cscript.Event.Timing.{timers_max, is_after, no_timer, seat, insert_at, insert}

-- One timer fires before another.
abbrev pub Before : Timer → Timer → Type 0
Before t u = (t.due < u.due) ⊎ ((t.due ≡ u.due) × (t.sequence < u.sequence))

abbrev pub IsSorted : List Timer → Type 0
IsSorted [] = Unit
IsSorted (t ∷ ts) = Every (Before t) ts × IsSorted ts

abbrev pub Fresh : ℕ → Timer → Type 0
Fresh n t = t.sequence < n

pub record Holds (ts : Timers) : Type 0 where
  pub sorted : IsSorted ts.entries
  pub fresh : Every (Fresh ts.next_sequence) ts.entries
  pub bound : length ts.entries ≤ timers_max

pub Every-map {ℓ} :
    {A : Type ℓ} {P Q : A → Type 0} (f : (x : A) → P x → Q x) (xs : List A)
    → Every P xs
    → Every Q xs
Every-map f [] h = tt
Every-map f (x ∷ xs) (p, h) = (f x p, Every-map f xs h)

is_after-Before : (t new : Timer) → is_after t new ≡ true → Before new t
is_after-Before t new h = grind tests

-- A timer with a new sequence goes behind one that it does not go before.
Before_not_after :
    (t u new : Timer)
    → is_after u new ≡ false
    → t.due ≤ u.due
    → t.sequence < new.sequence
    → u.sequence < new.sequence
    → Before t new
Before_not_after t u new h d s r = grind tests

Before-le : (t u : Timer) → Before t u → t.due ≤ u.due
Before-le t u h = grind arith

Every-get_or_lt :
    (P : Timer → Type 0) (xs : List Timer) (i : ℕ) (d : Timer)
    → i < length xs
    → Every P xs
    → P (get_or xs i d)
Every-get_or_lt P [] i d l h = absurd (omega arith)
Every-get_or_lt P (x ∷ xs) zero d l (p, h) = p
Every-get_or_lt P (x ∷ xs) (suc i) d l (p, h) = Every-get_or_lt P xs i d (omega arith) h

pub Every-insert_at :
    (P : Timer → Type 0) (n : ℕ) (new : Timer) (xs : List Timer)
    → P new
    → Every P xs
    → Every P (insert_at n new xs)
unfolding insert_at
Every-insert_at P zero new xs p h = (p, h)
Every-insert_at P (suc n) new [] p h = (p, tt)
Every-insert_at P (suc n) new (x ∷ xs) p (q, h) = (q, Every-insert_at P n new xs p h)

pub length-insert_at :
    (n : ℕ) (new : Timer) (xs : List Timer) → length (insert_at n new xs) ≡ suc (length xs)
unfolding insert_at
length-insert_at zero new xs = refl
length-insert_at (suc n) new [] = refl
length-insert_at (suc n) new (x ∷ xs) = ap suc (length-insert_at n new xs)

-- Where the loop stops: at the front, or at a timer that the new one does not go before.
abbrev Stops : Timer → List Timer → ℕ → Type 1
Stops new xs n =
    (n ≡ 0) ⊎ ((u : Timer) × (is_after u new ≡ false) × ((P : Timer → Type 0) → Every P xs → P u))

seat-Stops : (new : Timer) (xs : List Timer) (k : ℕ) → k ≤ length xs → Stops new xs (seat new xs k)
unfolding seat
seat-Stops new xs zero h = inl refl
seat-Stops new xs (suc k) h = elim (Bool-cases (is_after (get_or xs k no_timer) new)) [
  | inl e ↦ rw e (seat-Stops new xs k (omega arith))
  | inr e ↦ inr (get_or xs k no_timer, e, λ P g. Every-get_or_lt P xs k no_timer (omega arith) g)
]

abbrev is_front : ℕ → Bool
is_front zero = true
is_front (suc n) = false

is_front-zero : (n : ℕ) → is_front n ≡ true → n ≡ 0
is_front-zero zero h = refl
is_front-zero (suc n) h = absurd (true≢false (sym h))

pub both_true : (a b : Bool) → (a && b) ≡ true → (a ≡ true) × (b ≡ true)
both_true true b h = (refl, h)
both_true false b h = absurd (true≢false (sym h))

not_front : (n k : ℕ) (b : Bool) → n ≡ (if b then 0 else suc k) → b ≡ false → n ≡ 0 → ⊥
not_front n k true h e x = true≢false e
not_front n k false h e x = omega (arith, h, x)

-- The loop over a list with one more timer at its front.
seat-cons :
    (new t : Timer) (xs : List Timer) (k : ℕ)
    → seat new (t ∷ xs) (suc k)
      ≡ (if is_front (seat new xs k) && is_after t new then 0 else suc (seat new xs k))
unfolding seat
seat-cons new t xs zero = refl
seat-cons new t xs (suc k) = elim (Bool-cases (is_after (get_or xs k no_timer) new)) [
  | inl e ↦ rw e (seat-cons new t xs k)
  | inr e ↦ rw e refl
]

insert-nil : (new : Timer) → insert new [] ≡ new ∷ []
unfolding insert_at seat
insert-nil new = refl

-- What an insertion into a sorted list gives, for a timer with a new sequence.
pub record Inserts (new : Timer) (xs : List Timer) : Type 0 where
  pub sorted : IsSorted (insert new xs)
  pub front : seat new xs (length xs) ≡ 0 → Every (Before new) xs

Every-both :
    {A : Type 0} (P Q : A → Type 0) (xs : List A)
    → Every P xs
    → Every Q xs
    → Every (λ x. P x × Q x) xs
Every-both P Q [] h g = tt
Every-both P Q (x ∷ xs) (p, h) (q, g) = ((p, q), Every-both P Q xs h g)

-- The timer at the front goes before the new one, when that is not put in front of all.
front-Before :
    (new t : Timer) (xs : List Timer)
    → t.sequence < new.sequence
    → Every (Before t) xs
    → Every (Fresh new.sequence) xs
    → (is_front (seat new xs (length xs)) && is_after t new) ≡ false
    → Before t new
front-Before new t xs f b g e = elim (seat-Stops new xs (length xs) (omega arith)) [
  | inl z ↦ Before_not_after t t new (rw z at e) (omega arith) f f
  | inr (u, a, pick) ↦
      let (q, r) =
        pick (λ u. Before t u × Fresh new.sequence u)
          (Every-both (Before t) (Fresh new.sequence) xs b g) in
      Before_not_after t u new a (Before-le t u q) f r
]

pub insert-Inserts :
    (new : Timer) (xs : List Timer) → IsSorted xs → Every (Fresh new.sequence) xs → Inserts new xs
unfolding insert_at
insert-Inserts new [] s f = record {
  sorted = subst IsSorted (sym (insert-nil new)) (tt, tt);
  front = λ e. tt;
}
insert-Inserts new (t ∷ xs) (b, s) (f, g) =
    let rest = insert-Inserts new xs s g in
    let at = seat-cons new t xs (length xs) in
    elim (Bool-cases (is_front (seat new xs (length xs)) && is_after t new)) [
      | inl e ↦
          let (z, a) = both_true (is_front (seat new xs (length xs))) (is_after t new) e in
          let all : Every (Before new) (t ∷ xs) =
            (is_after-Before t new a, rest.front (is_front-zero (seat new xs (length xs)) z)) in
          record { sorted = rw (at, e) (all, (b, s)); front = λ x. all }
      | inr e ↦ record {
        sorted =
            rw (at, e)
              (
                Every-insert_at (Before t) (seat new xs (length xs)) new xs
                    (front-Before new t xs f b g e) b,
                rest.sorted,
              );
        front = λ x. absurd (not_front _ (seat new xs (length xs)) _ at e x);
      }
    ]
