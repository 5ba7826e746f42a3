-- ===== src/Table/Sweep.antt =====
-- src/runtime/table.c: dropping the entries that did not survive a collection. A table is walked slot by
-- slot, and a dead entry deleted by its key, which probes anew.
use cscript.Prelude.{
  ℕ, zero, suc, ◌+◌, ◌<◌, ◌≡◌, ◌⊎◌, refl, sym, ap, ◌∙◌, arith, ◌==◌, if◌then◌else◌, inl, inr,
  Bool-cases, Bool, true, false, not, List, [], ◌∷◌, length, set, Option, none, some, Option-cases,
  some-cancel, none≢some, ==_iff, length-set,
}
use cscript.Value.{Value, object}
use cscript.Table.{Entry, Table, slot, tombstone, delete, find_entry, is_live}
use cscript.Table.Slots.{key_is, scan, scan-none, scan-slot}
use cscript.Table.Methods.{IsValid, Deletes, delete-Deletes}
use mathlib.Core.Path.{subst}
use cscript.Table.Write.{IsPlaced-IsDistinct}
use cscript.Table.Find.{true≢false}

-- The value of an entry whose object is not marked.
abbrev pub is_white : (ℕ → Bool) → Value → Bool
is_white marked (object a) = not (marked a)
is_white marked v = false

module _ (hash : ℕ → ℕ) where
  -- One round: the entry is deleted when it is dead.
  unfoldable pub sweep_entry : (ℕ → Value → Bool) → Option ℕ → Value → Table → Option Table
  sweep_entry dead none v t = some t
  sweep_entry dead (some k) v t =
      let gone : Option Table = elim (delete hash t k) [ none ↦ none | some r ↦ some r.1 ] in
      if dead k v then gone else some t

  -- The loop over `n` slots from `i` on.
  unfoldable pub sweep_slots : (ℕ → Value → Bool) → ℕ → ℕ → Table → Option Table
  sweep_slots dead zero i t = some t
  sweep_slots dead (suc n) i t =
      elim (sweep_entry dead (slot t.entries i).key (slot t.entries i).value t) [
        | none ↦ none
        | some next ↦ sweep_slots dead n (suc i) next
      ]

  abbrev pub sweep : (ℕ → Value → Bool) → Table → Option Table
  sweep dead t = sweep_slots dead (length t.entries) 0 t

  -- `csTableRemoveWhite`, with the mark of each string.
  abbrev pub remove_white : (ℕ → Bool) → Table → Option Table
  remove_white marked = sweep (λ k v. not (marked k))

  -- `csTableRemoveWhiteValues`
  abbrev pub remove_white_values : (ℕ → Bool) → Table → Option Table
  remove_white_values marked = sweep (λ k v. is_white marked v)

  -- What a map keeps of its entries.
  abbrev pub kept : (ℕ → Value → Bool) → ℕ → Option Value → Option Value
  kept dead k none = none
  kept dead k (some v) = if dead k v then none else some v

  -- Slots that hold no key that was not there before.
  record Fewer (es out : List Entry) : Type 0 where
    pub width : length out ≡ length es
    pub old :
        (k p : ℕ)
        → key_is k (slot out p).key ≡ true
        → (key_is k (slot es p).key ≡ true) × ((slot out p).value ≡ (slot es p).value)

  bury_old :
      (es : List Entry) (i k p : ℕ)
      → key_is k (slot (set es i tombstone) p).key ≡ true
      → (key_is k (slot es p).key ≡ true)
        × ((slot (set es i tombstone) p).value ≡ (slot es p).value)
  bury_old [] i k p h = (h, refl)
  bury_old (e ∷ es) zero k zero h = cc
  bury_old (e ∷ es) zero k (suc p) h = (h, refl)
  bury_old (e ∷ es) (suc i) k zero h = (h, refl)
  bury_old (e ∷ es) (suc i) k (suc p) h = bury_old es i k p h

  delete-Fewer :
      (t : Table) (k : ℕ) (r : Bool × Table)
      → delete hash t k ≡ some r
      → Fewer t.entries r.1.entries
  unfolding delete
  delete-Fewer t k r run = elim (Bool-cases (t.count == 0)) [
    | inl e ↦ same (some-cancel (rw e at run))
    | inr e ↦ elim (Option-cases (find_entry hash t.entries k)) [
      | inl n ↦ absurd (none≢some (rw (e, n) at run))
      | inr (i, f) ↦ elim (Bool-cases (is_live (slot t.entries i).key)) [
        | inl l ↦
            subst (λ (r : Bool × Table). Fewer t.entries r.1.entries)
              (some-cancel (rw (e, f, l) at run))
              (record {
                width = length-set t.entries i tombstone;
                old = λ k p h. bury_old t.entries i k p h;
              })
        | inr l ↦ same (some-cancel (rw (e, f, l) at run))
      ]
    ]
  ]
    where
      same : (false, t) ≡ r → Fewer t.entries r.1.entries
      same e =
          subst (λ (r : Bool × Table). Fewer t.entries r.1.entries) e
            (record { width = refl; old = λ k p h. (h, refl) })

  module _ (dead : ℕ → Value → Bool) (t : Table) where
    -- What holds between the rounds: an entry is as at the start, or was dead and is gone, and the slots
    -- before `i` hold no dead entry.
    record Swept (i : ℕ) (cur : Table) : Type 0 where
      pub valid : IsValid hash cur
      pub width : length cur.entries ≡ length t.entries
      pub reads :
          (j : ℕ)
          → (scan cur.entries j ≡ scan t.entries j)
            ⊎ ((scan cur.entries j ≡ none) × (kept dead j (scan t.entries j) ≡ none))
      pub clean :
          (p j : ℕ)
          → p < i
          → key_is j (slot cur.entries p).key ≡ true
          → dead j (slot cur.entries p).value ≡ false

    -- A round that leaves the table.
    stays :
        (i : ℕ) (cur : Table)
        → Swept i cur
        → ((j : ℕ)
            → key_is j (slot cur.entries i).key ≡ true
            → dead j (slot cur.entries i).value ≡ false)
        → Swept (suc i) cur
    stays i cur s h = record {
      valid = s.valid;
      width = s.width;
      reads = s.reads;
      clean = λ p j l k. elim (Bool-cases (p == i)) [
        | inl e ↦
            let at = (==_iff p i).0 e in
            subst (λ p. dead j (slot cur.entries p).value ≡ false) (sym at)
              (h j (subst (λ p. key_is j (slot cur.entries p).key ≡ true) at k))
        | inr e ↦ s.clean p j (ground (arith, l)) k
      ];
    }

    -- A round that deletes the entry of the slot.
    drops :
        (i k : ℕ) (cur : Table) (r : Bool × Table)
        → Swept i cur
        → key_is k (slot cur.entries i).key ≡ true
        → dead k (slot cur.entries i).value ≡ true
        → ((j : ℕ) → key_is j (slot cur.entries i).key ≡ true → k ≡ j)
        → Deletes hash cur k r
        → Fewer cur.entries r.1.entries
        → Swept (suc i) r.1
    drops i k cur r s h white only d f = record {
      valid = d.valid;
      width = f.width ∙ s.width;
      reads = λ j. elim (Bool-cases (k == j)) [
        | inl e ↦
            let same = (==_iff k j).0 e in
            inr (
              d.reads j ∙ rw e,
              subst (λ j. kept dead j (scan t.entries j) ≡ none) same
                  (elim (s.reads k) [
                    | inl start ↦
                        ap (kept dead k) (
                          sym start
                          ∙ scan-slot cur.entries k i
                              (IsPlaced-IsDistinct hash cur.entries s.valid.placed) h)
                        ∙ rw white
                    | inr (gone, was) ↦ was
                  ]),
            )
        | inr e ↦
            let same : scan r.1.entries j ≡ scan cur.entries j = d.reads j ∙ rw e in
            elim (s.reads j) [
              | inl start ↦ inl (same ∙ start)
              | inr (gone, was) ↦ inr (same ∙ gone, was)
            ]
      ];
      clean = λ p j l held. elim (Bool-cases (p == i)) [
        | inl e ↦
            let at = (==_iff p i).0 e in
            let there = subst (λ p. key_is j (slot r.1.entries p).key ≡ true) at held in
            let k_is_j = only j (f.old j i there).0 in
            absurd (
              true≢false (
                sym (subst (λ j. key_is j (slot r.1.entries i).key ≡ true) (sym k_is_j) there)
                ∙ scan-none r.1.entries k i (d.reads k ∙ rw ((==_iff k k).1 refl))))
        | inr e ↦
            let (was, value) = f.old j p held in
            ap (dead j) value ∙ s.clean p j (ground (arith, l)) was
      ];
    }

    sweep_entry-Swept :
        (i : ℕ) (cur : Table) (key : Option ℕ) (v : Value)
        → Swept i cur
        → (slot cur.entries i).key ≡ key
        → (slot cur.entries i).value ≡ v
        → (next : Table) × (sweep_entry dead key v cur ≡ some next) × Swept (suc i) next
    unfolding sweep_entry
    sweep_entry-Swept i cur none v s ek ev =
        (cur, refl, stays i cur s (λ j h. absurd (true≢false (sym h ∙ ap (key_is j) ek))))
    sweep_entry-Swept i cur (some k) v s ek ev = elim (Bool-cases (dead k v)) [
      | inr e ↦ (
        cur,
        rw e,
        stays i cur s (λ j h.
            ap (dead j) ev
            ∙ subst (λ j. dead j v ≡ false) ((==_iff k j).0 (sym (ap (key_is j) ek) ∙ h)) e),
      )
      | inl e ↦
          let (r, run, d) = delete-Deletes hash cur k s.valid in
          (
            r.1,
            rw (e, sweep_entry, run),
            drops i k cur r s (ap (key_is k) ek ∙ (==_iff k k).1 refl) (ap (dead k) ev ∙ e)
                (λ j h. (==_iff k j).0 (sym (ap (key_is j) ek) ∙ h)) d (delete-Fewer cur k r run),
          )
    ]

    sweep_slots-Swept :
        (n i : ℕ) (cur : Table)
        → Swept i cur
        → (out : Table) × (sweep_slots dead n i cur ≡ some out) × Swept (n + i) out
    unfolding sweep_slots
    sweep_slots-Swept zero i cur s = (cur, refl, subst (λ i. Swept i cur) (omega arith) s)
    sweep_slots-Swept (suc n) i cur s =
        let e = slot cur.entries i in
        let (next, run, s') = sweep_entry-Swept i cur e.key e.value s refl refl in
        let (out, run', s'') = sweep_slots-Swept n (suc i) next s' in
        (out, rw (run, sweep_slots) run', subst (λ i. Swept i out) (omega arith) s'')

  -- What a sweep leaves: a valid table that reads as before, but for the dead entries.
  pub record Keeps (dead : ℕ → Value → Bool) (t out : Table) : Type 0 where
    pub valid : IsValid hash out
    pub reads : (j : ℕ) → scan out.entries j ≡ kept dead j (scan t.entries j)

  scan-found :
      (es : List Entry) (k : ℕ) (v : Value)
      → scan es k ≡ some v
      → (p : ℕ) × (p < length es) × (key_is k (slot es p).key ≡ true) × ((slot es p).value ≡ v)
  unfolding scan
  scan-found [] k v h = absurd (none≢some h)
  scan-found (e ∷ es) k v h = elim (Bool-cases (key_is k e.key)) [
    | inl here ↦ (0, omega arith, here, some-cancel (rw here at h))
    | inr there ↦
        let (p, l, key, value) = scan-found es k v (rw there at h) in
        (suc p, omega (arith, l), key, value)
  ]

  Swept-Keeps :
      (dead : ℕ → Value → Bool) (t out : Table)
      → Swept dead t (length t.entries) out
      → Keeps dead t out
  Swept-Keeps dead t out s = record {
    valid = s.valid;
    reads = λ j. elim (Option-cases (scan out.entries j)) [
      | inl gone ↦ elim (s.reads j) [
        | inl e ↦ gone ∙ sym (ap (kept dead j) (sym e ∙ gone))
        | inr (left, was) ↦ gone ∙ sym was
      ]
      | inr (v, held) ↦ elim (s.reads j) [
        | inl e ↦
            let (p, l, key, value) = scan-found out.entries j v held in
            let lives : dead j v ≡ false =
              subst (λ v. dead j v ≡ false) value (s.clean p j (omega (arith, s.width, l)) key) in
            held ∙ sym (ap (kept dead j) (sym e ∙ held) ∙ rw lives)
        | inr (gone, was) ↦ absurd (none≢some (sym gone ∙ held))
      ]
    ];
  }

  -- On a valid table, with any hash, a loop that deletes the dead entries as it walks the slots ends: it
  -- leaves a valid table with exactly the entries that are not dead.
  pub sweep-Keeps :
      (dead : ℕ → Value → Bool) (t : Table)
      → IsValid hash t
      → (out : Table) × (sweep dead t ≡ some out) × Keeps dead t out
  sweep-Keeps dead t v =
      let start : Swept dead t 0 t = record {
        valid = v;
        width = refl;
        reads = λ j. inl refl;
        clean = λ p j l. absurd (omega arith);
      } in
      let (out, run, s) = sweep_slots-Swept dead t (length t.entries) 0 t start in
      (out, run, Swept-Keeps dead t out (subst (λ i. Swept dead t i out) (omega arith) s))

  -- On a valid table, with any hash, `csTableRemoveWhite` ends: it leaves a valid table with exactly the
  -- entries of marked strings.
  pub remove_white-scan :
      (marked : ℕ → Bool) (t : Table)
      → IsValid hash t
      → (out : Table) × (remove_white marked t ≡ some out)
        × IsValid hash out
        × ((j : ℕ) → scan out.entries j ≡ (if marked j then scan t.entries j else none))
  remove_white-scan marked t v =
      let (out, run, k) = sweep-Keeps (λ k v. not (marked k)) t v in
      (out, run, k.valid, λ j. k.reads j ∙ by_mark j (marked j) (scan t.entries j))
    where
      by_mark :
          (j : ℕ) (m : Bool) (o : Option Value) → kept (λ k v. not m) j o ≡ (if m then o else none)
      by_mark j true none = refl
      by_mark j true (some v) = refl
      by_mark j false none = refl
      by_mark j false (some v) = refl
