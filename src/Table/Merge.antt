-- ===== src/Table/Merge.antt =====
-- src/runtime/table.c: adding all entries of a table to another, `csTableAddAll`.
use cscript.Prelude.{
  ℕ, suc, ◌≡◌, refl, ap, ◌∙◌, arith, ◌==◌, if◌then◌else◌, inl, inr, Bool-cases, true, List, [], ◌∷◌,
  Option, none, some,
}
use cscript.Value.{Value}
use cscript.Table.{Entry, Table, slot, set_value}
use cscript.Table.Slots.{key_is, scan, IsDistinct, IsDistinct-tail, scan-none_of_absent}
use cscript.Table.Write.{IsPlaced-IsDistinct}
use cscript.Table.Methods.{IsValid, set_value-Sets}

module _ (hash : ℕ → ℕ) where
  -- One round of the loop of `csTableAddAll`.
  unfoldable pub add_entry : Option ℕ → Value → Table → Option Table
  add_entry none v t = some t
  add_entry (some k) v t = elim (set_value hash t k v) [ none ↦ none | some r ↦ some r.1 ]

  unfoldable pub add_entries : List Entry → Table → Option Table
  add_entries [] t = some t
  add_entries (e ∷ es) t = elim (add_entry e.key e.value t) [
    | none ↦ none
    | some next ↦ add_entries es next
  ]

  -- `csTableAddAll`
  abbrev pub add_all : Table → Table → Option Table
  add_all from to = add_entries from.entries to

  -- What one map says, and another where it says nothing.
  abbrev pub over : Option Value → Option Value → Option Value
  over none y = y
  over (some x) y = some x

  -- A valid table that reads as `f` over `t`.
  pub record Covers (f : ℕ → Option Value) (t out : Table) : Type 0 where
    pub valid : IsValid hash out
    pub reads : (j : ℕ) → scan out.entries j ≡ over (f j) (scan t.entries j)

  abbrev alone : Option ℕ → Value → ℕ → Option Value
  alone key v j = if key_is j key then some v else none

  add_entry-Covers :
      (key : Option ℕ) (v : Value) (t : Table)
      → IsValid hash t
      → (out : Table) × (add_entry key v t ≡ some out) × Covers (alone key v) t out
  unfolding add_entry
  add_entry-Covers none v t h = (t, refl, record { valid = h; reads = λ j. refl })
  add_entry-Covers (some k) v t h =
      let (r, run, sets) = set_value-Sets hash t k v h in
      (
        r.1,
        rw (run, add_entry),
        record {
          valid = sets.valid;
          reads = λ j. elim (Bool-cases (k == j)) [
            | inl e ↦ rw e (sets.reads j ∙ rw e)
            | inr e ↦ rw e (sets.reads j ∙ rw e)
          ];
        },
      )

  tail_free :
      (e : Entry) (es : List Entry) (j : ℕ)
      → IsDistinct (e ∷ es)
      → key_is j e.key ≡ true
      → scan es j ≡ none
  tail_free e es j d h = scan-none_of_absent es j (λ i.
      elim (Bool-cases (key_is j (slot es i).key)) [
        | inl there ↦ absurd (omega (arith, d j 0 (suc i) h there))
        | inr e' ↦ e'
      ])

  add_entries-Covers :
      (es : List Entry) (t : Table)
      → IsDistinct es
      → IsValid hash t
      → (out : Table) × (add_entries es t ≡ some out) × Covers (scan es) t out
  unfolding add_entries scan
  add_entries-Covers [] t d h = (t, refl, record { valid = h; reads = λ j. refl })
  add_entries-Covers (e ∷ es) t d h =
      let (next, run, one) = add_entry-Covers e.key e.value t h in
      let (out, run', more) = add_entries-Covers es next (IsDistinct-tail e es d) one.valid in
      (
        out,
        rw (run, add_entries) run',
        record {
          valid = more.valid;
          reads = λ j. more.reads j ∙ elim (Bool-cases (key_is j e.key)) [
            | inl k ↦ rw (k, tail_free e es j d k, one.reads j, k)
            | inr k ↦ rw k (ap (over (scan es j)) (one.reads j ∙ rw k))
          ];
        },
      )

  -- On valid tables, with any hash, `csTableAddAll` ends, and leaves a valid table that reads as `from`
  -- where that has the key, and as before elsewhere.
  pub add_all-Covers :
      (from to : Table)
      → IsValid hash from
      → IsValid hash to
      → (out : Table) × (add_all from to ≡ some out) × Covers (scan from.entries) to out
  add_all-Covers from to h k =
      add_entries-Covers from.entries to (IsPlaced-IsDistinct hash from.entries h.placed) k
