-- ===== src/Bag/Order.antt =====
-- src/runtime/object_bag.c: counting and listing the properties of an object, and leaving its slots.
use cscript.Prelude.{
  ℕ, zero, suc, ◌<◌, ◌≡◌, refl, sym, ap, ◌∙◌, arith, ◌==◌, ==_iff, if◌then◌else◌, inl, inr,
  Bool-cases, some-cancel, none≢some, List, [], ◌∷◌, ◌++◌, length, length-map, append-append,
  get_elem?, ◌>>=◌, none, some,
}
use mathlib.Core.Path.{subst}
use cscript.Value.{Value}
use cscript.Table.Methods.{get-scan}
use cscript.Shape.{Shape}
use cscript.Bag.{
  Storage, slots, dictionary, count_properties, key_at, value_at, leave_shape_mode, reserve_slots,
}
use cscript.Bag.Entries.{Entries, keys_of, values_of, find, IsUnique}
use cscript.Bag.Capacity.{ensure_slots-Makes}
use cscript.Bag.Holds.{Holds, fetch_front, convert-InTable}

fetch-keys :
    (es : Entries) (i : ℕ) (e : ℕ × Value)
    → get_elem? es i ≡ some e
    → (get_elem? (keys_of es) i ≡ some e.0)
      × (get_elem? (values_of es) i ≡ some e.1)
      × (i < length (values_of es))
fetch-keys [] i e h = absurd (none≢some h)
fetch-keys (x ∷ es) zero e h =
    (ap (λ x. some x.0) (some-cancel h), ap (λ x. some x.1) (some-cancel h), omega arith)
fetch-keys (x ∷ es) (suc i) e h = let (k, v, l) = fetch-keys es i e h in (k, v, omega (arith, l))

-- With no key twice, each property is what its key finds.
find-fetch :
    (es : Entries) (i : ℕ) (e : ℕ × Value)
    → IsUnique es
    → get_elem? es i ≡ some e
    → find es e.0 ≡ some e.1
unfolding find
find-fetch [] i e u h = absurd (none≢some h)
find-fetch (x ∷ es) zero e u h =
    subst (λ (e : ℕ × Value). (if x.0 == e.0 then some x.1 else find es e.0) ≡ some e.1)
      (some-cancel h) (rw ((==_iff x.0 x.0).1 refl))
find-fetch (x ∷ es) (suc i) e (u, us) h =
    let there = find-fetch es i e us h in
    elim (Bool-cases (x.0 == e.0)) [
      | inl s ↦
          absurd (none≢some (sym (subst (λ k. find es k ≡ none) ((==_iff x.0 e.0).0 s) u) ∙ there))
      | inr s ↦ rw (s, there)
    ]

module _ (hash : ℕ → ℕ) where
  -- An object that holds properties counts them, and lists each by its place: they come in the order of
  -- their insertion, whichever way they are stored.
  pub key_at-Holds :
      (heap : List Shape) (st : Storage) (es : Entries)
      → Holds hash heap st es
      → (count_properties hash heap st ≡ some (length es))
        × ((i : ℕ) (e : ℕ × Value)
            → get_elem? es i ≡ some e
            → (key_at hash heap st i ≡ some e.0) × (value_at hash heap st i ≡ some e.1))
  unfolding count_properties key_at value_at
  key_at-Holds heap (dictionary t keys) es h = (
    ap some (ap length h.inside.order ∙ length-map es (λ e. e.0)),
    λ i e f.
        let (k, v, l) = fetch-keys es i e f in
        let here : get_elem? keys i ≡ some e.0 = ap (λ ks. get_elem? ks i) h.inside.order ∙ k in
        (
          here,
          rw (
            here,
            ◌>>=◌,
            get-scan hash t e.0 h.inside.valid,
            h.inside.reads e.0,
            find-fetch es i e h.unique f,
          ),
        ),
  )
  key_at-Holds heap (slots a values) es h =
      let (c, at, same) = h.inside.stands in
      (
        rw (at, ◌>>=◌) (ap some (ap length same ∙ length-map es (λ e. e.0))),
        λ i e f.
            let (k, v, l) = fetch-keys es i e f in
            (
              rw (at, ◌>>=◌) (ap (λ ks. get_elem? ks i) same ∙ k),
              ap (λ vs. get_elem? vs i) h.inside.joined
                  ∙ (fetch_front (values_of es) h.inside.spare i l ∙ v),
            ),
      )

  -- `csObjectLeaveShapeMode` ends, with the same properties in a table.
  pub leave_shape_mode-Holds :
      (heap : List Shape) (st : Storage) (es : Entries)
      → Holds hash heap st es
      → (out : Storage) × (leave_shape_mode hash heap st ≡ some out) × Holds hash heap out es
  unfolding leave_shape_mode
  leave_shape_mode-Holds heap (dictionary t keys) es h = (dictionary t keys, refl, h)
  leave_shape_mode-Holds heap (slots a values) es h =
      let (c, at, same) = h.inside.stands in
      let (r, run, inside) = convert-InTable hash c es h.inside.spare h.unique same in
      (
        dictionary r.0 r.1,
        rw (at, ◌>>=◌, h.inside.joined, run),
        record { unique = h.unique; inside = inside },
      )

  -- Reserving slots changes no property.
  pub reserve_slots-Holds :
      (heap : List Shape) (st : Storage) (es : Entries) (needed : ℕ)
      → Holds hash heap st es
      → Holds hash heap (reserve_slots st needed) es
  unfolding reserve_slots
  reserve_slots-Holds heap (dictionary t keys) es needed h = h
  reserve_slots-Holds heap (slots a values) es needed h =
      let makes = ensure_slots-Makes values needed in
      record {
        unique = h.unique;
        inside = record {
          spare = h.inside.spare ++ makes.spare;
          stands = h.inside.stands;
          joined =
              makes.joined
              ∙ (ap (λ vs. vs ++ makes.spare) h.inside.joined
                  ∙ append-append (values_of es) h.inside.spare makes.spare);
        };
      }
