-- ===== src/Bag/Methods.antt =====
-- src/runtime/object_bag.c: reading, writing and deleting properties are the operations of a list of
-- properties, whichever way an object stores them.
use cscript.Prelude.{
  ℕ, ◌+◌, ◌-◌, ◌<◌, ◌≡◌, refl, sym, ap, ◌∙◌, arith, inl, inr, ltb, lt→ltb, Option-cases, Bool, true,
  false, List, [], ◌∷◌, ◌++◌, length, length-append, length-map, append-append, set, get_elem?,
  fetch_some, ◌>>=◌, Option, none, some, not,
}
use mathlib.Core.Path.{subst}
use cscript.Value.{Value}
use cscript.Table.Methods.{is_absent, get-scan}
use cscript.Shape.{Shape, lookup}
use cscript.Shape.Slots.{position, lookup-position}
use cscript.Shape.Heap.{Extends, IsHeap, Reached}
use cscript.Shape.Edges.{transition-Reaches}
use cscript.Bag.{
  Storage, slots, dictionary, store, ensure_slots, get_property, put_property, adopt,
  delete_property,
}
use cscript.Bag.Entries.{
  Entries, keys_of, values_of, find, insert, erase, IsUnique, position-At, insert-append,
  insert-IsUnique, erase-IsUnique, find-position, erase_absent,
}
use cscript.Bag.Capacity.{ensure_slots-Makes}
use cscript.Bag.Holds.{
  Holds, fetch_front, set_front, convert-InTable, dictionary_put-InTable, dictionary_delete-InTable,
}

-- A value written behind the properties, in front of the spare slots that are left.
set_next :
    (xs rest : List Value) (v : Value)
    → 0 < length rest
    → (more : List Value) × (set (xs ++ rest) (length xs) v ≡ (xs ++ v ∷ []) ++ more)
set_next [] [] v h = absurd (omega arith)
set_next [] (y ∷ rest) v h = (rest, refl)
set_next (x ∷ xs) rest v h = let (more, e) = set_next xs rest v h in (more, ap (λ zs. x ∷ zs) e)

keys_of-append :
    (es : Entries) (k : ℕ) (v : Value) → keys_of (es ++ (k, v) ∷ []) ≡ keys_of es ++ k ∷ []
keys_of-append [] k v = refl
keys_of-append (e ∷ es) k v = ap (λ ks. e.0 ∷ ks) (keys_of-append es k v)

values_of-append :
    (es : Entries) (k : ℕ) (v : Value) → values_of (es ++ (k, v) ∷ []) ≡ values_of es ++ v ∷ []
values_of-append [] k v = refl
values_of-append (e ∷ es) k v = ap (λ vs. e.1 ∷ vs) (values_of-append es k v)

module _ (hash to_double from_double : ℕ → ℕ)
    (exact : (i : ℕ) → i < 9_007_199_254_740_992 → from_double (to_double i) ≡ i)
    (heap : List Shape) (sound : IsHeap hash to_double heap) where
  -- What `csShapeLookup` finds of a shape with the keys of the properties.
  looked_up :
      (a : ℕ) (c : Shape) (es : Entries) (key : ℕ)
      → get_elem? heap a ≡ some c
      → c.keys ≡ keys_of es
      → lookup hash from_double c key ≡ some (position (keys_of es) key)
  looked_up a c es key at same =
      lookup-position hash to_double from_double exact c key (sound a c at).indexed
      ∙ ap (λ ks. some (position ks key)) same

  -- On a valid heap, `csObjectGet` of an object that holds properties ends with the value of the key.
  pub get_property-find :
      (st : Storage) (es : Entries) (key : ℕ)
      → Holds hash heap st es
      → get_property hash from_double heap st key ≡ some (find es key)
  unfolding get_property
  get_property-find (dictionary t keys) es key h =
      get-scan hash t key h.inside.valid ∙ ap some (h.inside.reads key)
  get_property-find (slots a values) es key h =
      let (c, at, same) = h.inside.stands in
      let seen = looked_up a c es key at same in
      elim (Option-cases (position (keys_of es) key)) [
        | inl n ↦ rw (at, ◌>>=◌, seen, n) (ap some (sym (find-position es key n)))
        | inr (i, n) ↦
            let here = position-At es key i Value.null n in
            let (v, held) = fetch_some (values_of es) i here.near in
            let there : get_elem? values i ≡ some v =
              ap (λ vs. get_elem? vs i) h.inside.joined
              ∙ (fetch_front (values_of es) h.inside.spare i here.near ∙ held) in
            rw (at, ◌>>=◌, seen, n, there) (ap some (sym (here.held ∙ held)))
      ]

  -- What a write leaves: a valid heap with all its shapes, and the object with the property.
  pub record Puts (es : Entries) (key : ℕ) (v : Value) (r : Storage × List Shape) : Type 0 where
    pub valid : IsHeap hash to_double r.1
    pub kept : Extends heap r.1
    pub holds : Holds hash r.1 r.0 (insert key v es)

  abbrev Ends : Entries → ℕ → Value → Option (Storage × List Shape) → Type 0
  Ends es key v o = (r : Storage × List Shape) × (o ≡ some r) × Puts es key v r

  overwrite :
      (a : ℕ) (values : List Value) (es : Entries) (key i : ℕ) (v : Value)
      → Holds hash heap (slots a values) es
      → position (keys_of es) key ≡ some i
      → (store values i v ≡ some (set values i v))
        × Holds hash heap (slots a (set values i v)) (insert key v es)
  overwrite a values es key i v h n =
      let here = position-At es key i v n in
      let (c, at, same) = h.inside.stands in
      let room : ltb i (length values) ≡ true = lt→ltb i (length values) (
        omega (
          arith,
          here.near,
          ap length h.inside.joined,
          length-append (values_of es) h.inside.spare,
        )) in
      (
        rw room,
        record {
          unique = insert-IsUnique es key v h.unique;
          inside = record {
            spare = h.inside.spare;
            stands = (c, at, same ∙ sym here.keys);
            joined =
                ap (λ vs. set vs i v) h.inside.joined
                ∙ (set_front (values_of es) h.inside.spare i v here.near
                    ∙ ap (λ vs. vs ++ h.inside.spare) (sym here.values));
          };
        },
      )

  adopt-Ends :
      (out : List Shape) (s : Shape) (es : Entries) (spare : List Value) (key : ℕ) (v : Value)
      (next : Option ℕ)
      → IsHeap hash to_double out
      → Extends heap out
      → IsUnique es
      → find es key ≡ none
      → s.keys ≡ keys_of es
      → Reached hash to_double out s key next
      → Ends es key v (adopt hash from_double to_double out s (values_of es ++ spare) key v next)
  unfolding adopt
  adopt-Ends out s es spare key v none w e u absent same reached =
      let (r, run, inside) = convert-InTable hash s es spare u same in
      let (t, keys, run', inside') = dictionary_put-InTable hash r.0 r.1 es key v inside in
      (
        (dictionary t keys, out),
        rw (run, ◌>>=◌, run'),
        record {
          valid = w;
          kept = e;
          holds = record { unique = insert-IsUnique es key v u; inside = inside' };
        },
      )
  adopt-Ends out s es spare key v (some b) w e u absent same (d, at, keys) =
      let added = insert-append es key v absent in
      let makes = ensure_slots-Makes (values_of es ++ spare) (length d.keys) in
      let one_more : length d.keys ≡ length (values_of es) + 1 =
        ap length keys
        ∙ (length-append s.keys (key ∷ [])
            ∙ omega (arith, ap length same, length-map es (λ e. e.0), length-map es (λ e. e.1))) in
      let last : length d.keys - 1 ≡ length (values_of es) = omega (arith, one_more) in
      let rest = spare ++ makes.spare in
      let joined : ensure_slots (values_of es ++ spare) (length d.keys) ≡ values_of es ++ rest =
        makes.joined ∙ append-append (values_of es) spare makes.spare in
      let total : length (ensure_slots (values_of es ++ spare) (length d.keys))
          ≡ length (values_of es) + length rest =
        ap length joined ∙ length-append (values_of es) rest in
      let (more, written) =
        set_next (values_of es) rest v (omega (arith, total, makes.room, one_more)) in
      let room : ltb (length (values_of es)) (length (values_of es ++ rest)) ≡ true =
        lt→ltb (length (values_of es)) (length (values_of es ++ rest))
          (omega (arith, length-append (values_of es) rest, total, makes.room, one_more)) in
      let out_values = (values_of es ++ v ∷ []) ++ more in
      let stored : store (ensure_slots (values_of es ++ spare) (length d.keys)) (length d.keys - 1)
            v
          ≡ some out_values =
        ap (λ vs. store vs (length d.keys - 1) v) joined
        ∙ (ap (λ i. store (values_of es ++ rest) i v) last ∙ rw room (ap some written)) in
      (
        (slots b out_values, out),
        rw (at, ◌>>=◌, stored),
        record {
          valid = w;
          kept = e;
          holds = record {
            unique = insert-IsUnique es key v u;
            inside = record {
              spare = more;
              stands = (
                d,
                at,
                keys
                    ∙ (ap (λ ks. ks ++ key ∷ []) same
                        ∙ sym (ap keys_of added ∙ keys_of-append es key v)),
              );
              joined = ap (λ vs. vs ++ more) (sym (ap values_of added ∙ values_of-append es key v));
            };
          };
        },
      )

  -- On a valid heap, `csObjectPut` of an object that holds properties ends: the object holds them with the
  -- key in its place or at the end, the heap stays valid, and every shape of it stands with
  -- its keys.
  pub put_property-Puts :
      (st : Storage) (es : Entries) (key : ℕ) (v : Value)
      → Holds hash heap st es
      → (r : Storage × List Shape) × (put_property hash from_double to_double heap st key v
          ≡ some r)
        × Puts es key v r
  unfolding put_property
  put_property-Puts (dictionary t keys) es key v h =
      let (t', keys', run, inside) = dictionary_put-InTable hash t keys es key v h.inside in
      (
        (dictionary t' keys', heap),
        rw run,
        record {
          valid = sound;
          kept = λ b c at. (c, at, refl);
          holds = record { unique = insert-IsUnique es key v h.unique; inside = inside };
        },
      )
  put_property-Puts (slots a values) es key v h =
      let (c, at, same) = h.inside.stands in
      let seen = looked_up a c es key at same in
      elim (Option-cases (position (keys_of es) key)) [
        | inr (i, n) ↦
            let (run, holds) = overwrite a values es key i v h n in
            (
              (slots a (set values i v), heap),
              rw (at, ◌>>=◌, seen, n, run),
              record { valid = sound; kept = λ b c at. (c, at, refl); holds = holds },
            )
        | inl n ↦
            let absent : position c.keys key ≡ none = ap (λ ks. position ks key) same ∙ n in
            let (r, run, reaches) =
              transition-Reaches hash to_double heap sound a c key at absent in
            let (out, run', puts) =
              adopt-Ends r.1 c es h.inside.spare key v r.0 reaches.valid reaches.kept h.unique
                (find-position es key n) same reaches.reached in
            (
              out,
              rw (at, ◌>>=◌, seen, n, run)
                  (ap (λ vs. adopt hash from_double to_double r.1 c vs key v r.0) h.inside.joined
                    ∙ run'),
              puts,
            )
      ]

  -- On a valid heap, `csObjectDelete` of an object that holds properties ends: it says whether the key was
  -- there, and the object holds the others in their order.
  pub delete_property-Holds :
      (st : Storage) (es : Entries) (key : ℕ)
      → Holds hash heap st es
      → (r : Bool × Storage) × (delete_property hash from_double heap st key ≡ some r)
        × (r.0 ≡ not (is_absent (find es key)))
        × Holds hash heap r.1 (erase key es)
  unfolding delete_property
  delete_property-Holds (dictionary t keys) es key h =
      let (b, t', keys', run, found, inside) =
        dictionary_delete-InTable hash t keys es key h.unique h.inside in
      (
        (b, dictionary t' keys'),
        run,
        found,
        record { unique = erase-IsUnique es key h.unique; inside = inside },
      )
  delete_property-Holds (slots a values) es key h =
      let (c, at, same) = h.inside.stands in
      let seen = looked_up a c es key at same in
      elim (Option-cases (position (keys_of es) key)) [
        | inl n ↦
            let absent = find-position es key n in
            (
              (false, slots a values),
              rw (at, ◌>>=◌, seen, n),
              rw absent,
              subst (Holds hash heap (slots a values)) (sym (erase_absent es key absent)) h,
            )
        | inr (i, n) ↦
            let (r, run, inside) = convert-InTable hash c es h.inside.spare h.unique same in
            let (b, t', keys', run', found, inside') =
              dictionary_delete-InTable hash r.0 r.1 es key h.unique inside in
            (
              (b, dictionary t' keys'),
              rw (at, ◌>>=◌, seen, n, h.inside.joined, run, run'),
              found,
              record { unique = erase-IsUnique es key h.unique; inside = inside' },
            )
      ]
