-- ===== src/Table/Resize.antt =====
-- src/runtime/table.c: `adjustCapacity` moves every entry and drops the tombstones.
use cscript.Prelude.{
  ℕ, zero, suc, ◌+◌, ◌%◌, ◌^◌, ◌<◌, ◌≤◌, ◌≡◌, ◌∙◌, refl, ap, sym, arith, ◌==◌, ==_iff,
  if◌then◌else◌, inl, inr, Bool-cases, Bool, true, false, List, [], ◌∷◌, length, set, replicate,
  Option, none, some, Option-cases, length-set, length-replicate,
}
use mathlib.Core.Option.{or_else}
use cscript.Value.{Value, is_null}
use cscript.Table.{
  Entry, Table, slot, is_live, empty_slot, find_entry, move_entry, move_entries, adjust_capacity,
}
use cscript.Table.Slots.{
  key_is, scan, used, IsDistinct, IsDistinct-tail, scan-none, scan-set_new, used-set,
}
use cscript.Table.Find.{true≢false}
use cscript.Table.Write.{
  IsPlaced, IsPlaced-IsDistinct, find_entry-Ends, insert-IsPlaced, miss-within,
}

scan-replicate : (n k : ℕ) → scan (replicate n empty_slot) k ≡ none
unfolding scan
scan-replicate zero k = refl
scan-replicate (suc n) k = scan-replicate n k

used-replicate : (n : ℕ) → used (replicate n empty_slot) ≡ 0
unfolding used
used-replicate zero = refl
used-replicate (suc n) = omega (arith, used-replicate n)

-- A tombstone that is reused was counted before.
count-insert :
    (es : List Entry) (i k : ℕ) (v : Value) {count : ℕ}
    → i < length es
    → is_live (slot es i).key ≡ false
    → used es ≡ count
    → used (set es i (record { key = some k; value = v }))
      ≡ (if is_null (slot es i).value then count + 1 else count)
count-insert es i k v within free counted =
    ground (arith, used-set es i (record { key = some k; value = v }) within)

-- Fresh entries have no tombstones.
abbrev IsClean : List Entry → Type 0
IsClean es = (i : ℕ) → is_live (slot es i).key ≡ false → is_null (slot es i).value ≡ true

IsClean-replicate : (n : ℕ) → IsClean (replicate n empty_slot)
IsClean-replicate zero i h = refl
IsClean-replicate (suc n) zero h = refl
IsClean-replicate (suc n) (suc i) h = IsClean-replicate n i h

IsClean-set :
    (es : List Entry) (i k : ℕ) (v : Value)
    → IsClean es
    → IsClean (set es i (record { key = some k; value = v }))
IsClean-set [] i k v c j h = refl
IsClean-set (e ∷ es) zero k v c zero h = cc
IsClean-set (e ∷ es) zero k v c (suc j) h = c (suc j) h
IsClean-set (e ∷ es) (suc i) k v c zero h = c 0 h
IsClean-set (e ∷ es) (suc i) k v c (suc j) h = IsClean-set es i k v (λ a. c (suc a)) j h

or_else_none : (f : ℕ → Option Value) (k : ℕ) → f k ≡ or_else (f k) (scan [] k)
unfolding scan or_else
or_else_none f k = ground arith

used-cons_le : (e : Entry) (es : List Entry) → used es ≤ used (e ∷ es)
unfolding used
used-cons_le e es = omega arith

used-cons_live :
    (e : Entry) (es : List Entry) (k : ℕ) → e.key ≡ some k → used (e ∷ es) ≡ 1 + used es
unfolding used
used-cons_live e es k full = rw full

scan-cons_live :
    (e : Entry) (es : List Entry) (k j : ℕ) (f : ℕ → Option Value)
    → e.key ≡ some k
    → f k ≡ none
    → or_else (if k == j then some e.value else f j) (scan es j) ≡ or_else (f j) (scan (e ∷ es) j)
unfolding scan or_else
scan-cons_live e es k j f full absent = elim (Bool-cases (k == j)) [
  | inl same ↦ rw (full, same, ← (==_iff k j).0 same, absent)
  | inr other ↦ rw (full, other)
]

still_new :
    (e : Entry) (es : List Entry) (k : ℕ) (f : ℕ → Option Value) (j a : ℕ)
    → IsDistinct (e ∷ es)
    → e.key ≡ some k
    → key_is j (slot es a).key ≡ true
    → f j ≡ none
    → (if k == j then some e.value else f j) ≡ none
still_new e es k f j a d full at absent = elim (Bool-cases (k == j)) [
  | inl same ↦ absurd (omega (arith, d j 0 (suc a) (ap (key_is j) full ∙ same) at))
  | inr other ↦ rw other absent
]

module _ (hash : ℕ → ℕ) where
  -- Fresh entries, of which `count` are in use, that read as `f`.
  pub record Holds (n count : ℕ) (f : ℕ → Option Value) (es : List Entry) : Type 0 where
    pub placed : IsPlaced hash es
    pub width : length es ≡ n
    pub counted : used es ≡ count
    pub reads : (k : ℕ) → scan es k ≡ f k

  -- A new key is inserted.
  pub insert-Holds :
      (es : List Entry) (k : ℕ) (v : Value) {n count : ℕ} {f : ℕ → Option Value}
      → Holds n count f es
      → count < n
      → f k ≡ none
      → (i : ℕ) × (find_entry hash es k ≡ some i)
        × (is_live (slot es i).key ≡ false)
        × Holds n
            (if is_null (slot es i).value then count + 1 else count)
            (λ j. if k == j then some v else f j)
            (set es i (record { key = some k; value = v }))
  insert-Holds es k v {n} {count} {f} h room absent =
      let (i, run, outcome) = find_entry-Ends hash es k (omega (arith, h.width, h.counted)) in
      elim outcome [
        | inl hit ↦ absurd (true≢false (sym hit.key ∙ scan-none es k i (h.reads k ∙ absent)))
        | inr miss ↦
            let within = miss-within hash es h.placed k i miss in
            let c : Entry = record { key = some k; value = v } in
            (
              i,
              run,
              miss.free,
              record {
                placed = insert-IsPlaced hash es h.placed k i v miss;
                width = length-set es i c ∙ h.width;
                counted = count-insert es i k v within miss.free h.counted;
                reads = λ j.
                    rw (scan-set_new es i k j v within miss.free (h.reads k ∙ absent), h.reads j);
              },
            )
      ]

  move_entries-skip :
      (e : Entry) (es : List Entry) (state : List Entry × ℕ)
      → e.key ≡ none
      → move_entries hash (e ∷ es) state ≡ move_entries hash es state
  unfolding move_entries move_entry
  move_entries-skip e es state empty =
      ap
        (λ t. elim (move_entry hash t e.value state) [
          | none ↦ none
          | some next ↦ move_entries hash es next
        ])
        empty

  move_entries-take :
      (e : Entry) (es : List Entry) (k i : ℕ) (fresh : List Entry) (count : ℕ)
      → e.key ≡ some k
      → find_entry hash fresh k ≡ some i
      → move_entries hash (e ∷ es) (fresh, count)
        ≡ move_entries hash es (set fresh i (record { key = some k; value = e.value }), count + 1)
  unfolding move_entries move_entry
  move_entries-take e es k i fresh count full run =
      ap
        (λ t. elim (move_entry hash t e.value (fresh, count)) [
          | none ↦ none
          | some next ↦ move_entries hash es next
        ])
        full
      ∙ rw (run, move_entry)

  -- What the loop makes of the entries that are left.
  record Moves (n total : ℕ) (f : ℕ → Option Value) (r : Option (List Entry × ℕ)) : Type 0 where
    out : List Entry
    count : ℕ
    run : r ≡ some (out, count)
    few : count ≤ total
    holds : Holds n count f out

  recount :
      (count : ℕ) {n : ℕ} {f : ℕ → Option Value} {es : List Entry} {b : Bool}
      → Holds n (if b then count + 1 else count) f es
      → b ≡ true
      → Holds n (count + 1) f es
  recount count h e = record {
    placed = h.placed;
    width = h.width;
    counted = h.counted ∙ ap (λ t. if t then count + 1 else count) e;
    reads = h.reads;
  }

  skip-Moves :
      (e : Entry) (es : List Entry) (f : ℕ → Option Value) (count : ℕ) {n : ℕ}
      {r r' : Option (List Entry × ℕ)}
      → r' ≡ r
      → Moves n (count + used es) (λ k. or_else (f k) (scan es k)) r
      → e.key ≡ none
      → Moves n (count + used (e ∷ es)) (λ k. or_else (f k) (scan (e ∷ es) k)) r'
  unfolding used scan
  skip-Moves e es f count q m empty = record {
    out = m.out;
    count = m.count;
    run = q ∙ m.run;
    few = omega (arith, m.few);
    holds = record {
      placed = m.holds.placed;
      width = m.holds.width;
      counted = m.holds.counted;
      reads = λ k. rw empty (m.holds.reads k);
    };
  }

  take-Moves :
      (e : Entry) (es : List Entry) (k : ℕ) (f : ℕ → Option Value) (count : ℕ) {n : ℕ}
      {r r' : Option (List Entry × ℕ)}
      → r' ≡ r
      → Moves n
          (count + 1 + used es)
          (λ j. or_else (if k == j then some e.value else f j) (scan es j))
          r
      → e.key ≡ some k
      → f k ≡ none
      → Moves n (count + used (e ∷ es)) (λ j. or_else (f j) (scan (e ∷ es) j)) r'
  take-Moves e es k f count q m full absent = record {
    out = m.out;
    count = m.count;
    run = q ∙ m.run;
    few = omega (arith, m.few, used-cons_live e es k full);
    holds = record {
      placed = m.holds.placed;
      width = m.holds.width;
      counted = m.holds.counted;
      reads = λ j. m.holds.reads j ∙ scan-cons_live e es k j f full absent;
    };
  }

  move_entries-Moves :
      (es fresh : List Entry) (n count : ℕ) (f : ℕ → Option Value)
      → Holds n count f fresh
      → IsClean fresh
      → count + used es < n
      → IsDistinct es
      → ((k i : ℕ) → key_is k (slot es i).key ≡ true → f k ≡ none)
      → Moves n
          (count + used es)
          (λ k. or_else (f k) (scan es k))
          (move_entries hash es (fresh, count))
  unfolding move_entries
  move_entries-Moves [] fresh n count f h c room d new = record {
    out = fresh;
    count = count;
    run = refl;
    few = omega arith;
    holds = record {
      placed = h.placed;
      width = h.width;
      counted = h.counted;
      reads = λ k. h.reads k ∙ or_else_none f k;
    };
  }
  move_entries-Moves (e ∷ es) fresh n count f h c room d new = elim (Option-cases e.key) [
    | inl empty ↦
        let rest =
          move_entries-Moves es fresh n count f h c (omega (arith, used-cons_le e es))
            (IsDistinct-tail e es d) (λ k i. new k (suc i)) in
        skip-Moves e es f count (move_entries-skip e es _ empty) rest empty
    | inr (k, full) ↦
        let absent = new k 0 (ap (key_is k) full ∙ (==_iff k k).1 refl) in
        let room' : count + 1 + used es < n = ground (arith, used-cons_live e es k full) in
        let (i, run, free, next) = insert-Holds fresh k e.value h (omega (arith, room')) absent in
        let next' = recount count next (c i free) in
        let rest =
          move_entries-Moves es (set fresh i (record { key = some k; value = e.value })) n
            (count + 1) _ next' (IsClean-set fresh i k e.value c) room' (IsDistinct-tail e es d)
            (λ j a at. still_new e es k f j a d full at (new j (suc a) at)) in
        take-Moves e es k f count (move_entries-take e es k i fresh count full run) rest full absent
  ]

  -- `adjustCapacity` ends; it keeps every entry, and counts no tombstone.
  pub adjust_capacity-Holds :
      (t : Table) (capacity : ℕ)
      → IsPlaced hash t.entries
      → used t.entries < capacity
      → (r : Table) × (adjust_capacity hash t capacity ≡ some r)
        × (r.count ≤ used t.entries)
        × Holds capacity r.count (scan t.entries) r.entries
  unfolding adjust_capacity or_else
  adjust_capacity-Holds t capacity placed room =
      let empty = replicate capacity empty_slot in
      let start : Holds capacity 0 (λ _. none) empty = record {
        placed =
            λ k i h. absurd (true≢false (sym h ∙ scan-none empty k i (scan-replicate capacity k)));
        width = length-replicate capacity empty_slot;
        counted = used-replicate capacity;
        reads = scan-replicate capacity;
      } in
      let m =
        move_entries-Moves t.entries empty capacity 0 (λ _. none) start (IsClean-replicate capacity)
          (omega arith) (IsPlaced-IsDistinct hash t.entries placed) (λ k i h. refl) in
      (
        record { count = m.count; entries = m.out; version = (t.version + 1) % 2 ^ 32 },
        rw (m.run, adjust_capacity),
        omega (arith, m.few),
        record {
          placed = m.holds.placed;
          width = m.holds.width;
          counted = m.holds.counted;
          reads = m.holds.reads;
        },
      )
