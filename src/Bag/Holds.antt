-- ===== src/Bag/Holds.antt =====
-- src/runtime/object_bag.c: when an object's storage holds a list of properties.
use cscript.Prelude.{
  ℕ, zero, suc, ◌<◌, ◌≡◌, refl, sym, ap, ◌∙◌, arith, ◌==◌, if◌then◌else◌, inl, inr, ◌⊎◌, not,
  ==_iff, Bool-cases, Option-cases, Bool, List, [], ◌∷◌, ◌++◌, length, set, get_elem?, Option, none,
  some,
}
use mathlib.Core.Path.{subst}
use cscript.Value.{Value}
use cscript.Table.{Table, new}
use cscript.Table.Slots.{scan}
use cscript.Table.Merge.{over}
use cscript.Table.Methods.{is_absent, IsValid, new-IsValid, set_value-Sets, delete-Deletes}
use cscript.Shape.{Shape}
use cscript.Shape.Heap.{Stands, Extends}
use cscript.Bag.{
  Storage, slots, dictionary, put_all, convert, dictionary_put, dictionary_delete, remove_key,
}
use cscript.Bag.Entries.{
  Entries, keys_of, values_of, find, insert, erase, IsUnique, find-insert, find-erase,
  keys_of-insert, keys_of-erase, erase_absent,
}

-- A slot behind the properties is not looked at.
pub fetch_front {ℓ} :
    {A : Type ℓ} (xs ys : List A) (i : ℕ) → i < length xs → get_elem? (xs ++ ys) i ≡ get_elem? xs i
fetch_front [] ys i h = absurd (omega arith)
fetch_front (x ∷ xs) ys zero h = refl
fetch_front (x ∷ xs) ys (suc i) h = fetch_front xs ys i (omega arith)

pub set_front {ℓ} :
    {A : Type ℓ} (xs ys : List A) (i : ℕ) (v : A)
    → i < length xs
    → set (xs ++ ys) i v ≡ set xs i v ++ ys
set_front [] ys i v h = absurd (omega arith)
set_front (x ∷ xs) ys zero v h = refl
set_front (x ∷ xs) ys (suc i) v h = ap (λ zs. x ∷ zs) (set_front xs ys i v (omega arith))

module _ (hash : ℕ → ℕ) where
  -- A table with a list of keys holds the properties.
  pub record InTable (t : Table) (keys : List ℕ) (es : Entries) : Type 0 where
    pub valid : IsValid hash t
    pub order : keys ≡ keys_of es
    pub reads : (k : ℕ) → scan t.entries k ≡ find es k

  -- Slots of a shape hold them: its keys in order, and the values in front of spare slots.
  pub record InSlots (heap : List Shape) (a : ℕ) (values : List Value) (es : Entries) : Type 0 where
    pub spare : List Value
    pub stands : Stands heap a (keys_of es)
    pub joined : values ≡ values_of es ++ spare

  abbrev pub InStorage : List Shape → Storage → Entries → Type 0
  InStorage heap (slots a values) es = InSlots heap a values es
  InStorage heap (dictionary t keys) es = InTable t keys es

  pub record Holds (heap : List Shape) (st : Storage) (es : Entries) : Type 0 where
    pub unique : IsUnique es
    pub inside : InStorage heap st es

  -- A heap that keeps its shapes keeps what any object holds.
  pub Holds-Extends :
      (heap out : List Shape) (st : Storage) (es : Entries)
      → Extends heap out
      → Holds heap st es
      → Holds out st es
  Holds-Extends heap out (dictionary t keys) es e h = record {
    unique = h.unique;
    inside = h.inside;
  }
  Holds-Extends heap out (slots a values) es e h =
      let (c, at, same) = h.inside.stands in
      let (d, there, still) = e a c at in
      record {
        unique = h.unique;
        inside = record {
          spare = h.inside.spare;
          stands = (d, there, still ∙ same);
          joined = h.inside.joined;
        };
      }

  -- A table filled with properties reads as they do, over what it had.
  pub put_all-reads :
      (es : Entries) (spare : List Value) (t : Table)
      → IsUnique es
      → IsValid hash t
      → (out : Table) × (put_all hash (keys_of es) (values_of es ++ spare) t ≡ some out)
        × IsValid hash out
        × ((k : ℕ) → scan out.entries k ≡ over hash (find es k) (scan t.entries k))
  unfolding put_all find
  put_all-reads [] spare t u v = (t, refl, v, λ k. refl)
  put_all-reads (e ∷ es) spare t (u, us) v =
      let (r, run, sets) = set_value-Sets hash t e.0 e.1 v in
      let (out, run', valid, reads) = put_all-reads es spare r.1 us sets.valid in
      (
        out,
        rw (run, put_all) run',
        valid,
        λ k. reads k ∙ elim (Bool-cases (e.0 == k)) [
          | inl s ↦
              let absent : find es k ≡ none =
                subst (λ k. find es k ≡ none) ((==_iff e.0 k).0 s) u in
              rw (s, absent) (sets.reads k ∙ rw s)
          | inr s ↦ rw s (ap (over hash (find es k)) (sets.reads k ∙ rw s))
        ],
      )

  -- Leaving the slots for a table keeps the properties.
  pub convert-InTable :
      (s : Shape) (es : Entries) (spare : List Value)
      → IsUnique es
      → s.keys ≡ keys_of es
      → (r : Table × List ℕ) × (convert hash s (values_of es ++ spare) ≡ some r)
        × InTable r.0 r.1 es
  unfolding convert scan
  convert-InTable s es spare u e =
      let (out, run, valid, reads) = put_all-reads es spare new u (new-IsValid hash) in
      (
        (out, s.keys),
        rw (e, run),
        record { valid = valid; order = e; reads = λ k. reads k ∙ over_nothing (find es k) },
      )
    where
      over_nothing : (o : Option Value) → over hash o none ≡ o
      over_nothing none = refl
      over_nothing (some v) = refl

  pub dictionary_put-InTable :
      (t : Table) (keys : List ℕ) (es : Entries) (k : ℕ) (v : Value)
      → InTable t keys es
      → (t' : Table) × (keys' : List ℕ) × (dictionary_put hash t keys k v
          ≡ some (dictionary t' keys'))
        × InTable t' keys' (insert k v es)
  unfolding dictionary_put
  dictionary_put-InTable t keys es k v h =
      let (r, run, sets) = set_value-Sets hash t k v h.valid in
      (
        r.1,
        (if r.0 then keys ++ k ∷ [] else keys),
        rw run,
        record {
          valid = sets.valid;
          order =
              ap (λ b. if b then keys ++ k ∷ [] else keys) (sets.fresh ∙ ap is_absent (h.reads k))
              ∙ (ap (λ ks. if is_absent (find es k) then ks ++ k ∷ [] else ks) h.order
                  ∙ sym (keys_of-insert es k v));
          reads = λ j.
              sets.reads j
              ∙ (ap (λ o. if k == j then some v else o) (h.reads j) ∙ sym (find-insert es k j v));
        },
      )

  pub dictionary_delete-InTable :
      (t : Table) (keys : List ℕ) (es : Entries) (k : ℕ)
      → IsUnique es
      → InTable t keys es
      → (b : Bool) × (t' : Table) × (keys' : List ℕ) × (dictionary_delete hash t keys k
          ≡ some (b, dictionary t' keys'))
        × (b ≡ not (is_absent (find es k)))
        × InTable t' keys' (erase k es)
  unfolding dictionary_delete
  dictionary_delete-InTable t keys es k u h =
      let (r, run, del) = delete-Deletes hash t k h.valid in
      let found : r.0 ≡ not (is_absent (find es k)) =
        del.found ∙ ap (λ o. not (is_absent o)) (h.reads k) in
      (
        r.0,
        r.1,
        (if r.0 then remove_key k keys else keys),
        rw run,
        found,
        record {
          valid = del.valid;
          order =
              ap (λ b. if b then remove_key k keys else keys) found
              ∙ (ap (λ ks. if not (is_absent (find es k)) then remove_key k ks else ks) h.order
                  ∙ left (Option-cases (find es k)));
          reads = λ j.
              del.reads j
              ∙ (ap (λ o. if k == j then none else o) (h.reads j) ∙ sym (find-erase es k j u));
        },
      )
    where
      left :
          (find es k ≡ none) ⊎ ((v : Value) × (find es k ≡ some v))
          → (if not (is_absent (find es k)) then remove_key k (keys_of es) else keys_of es)
            ≡ keys_of (erase k es)
      left (inl n) = rw (n, erase_absent es k n)
      left (inr (v, f)) = rw f (sym (keys_of-erase es k))
