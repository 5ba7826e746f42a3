-- ===== src/Shape/Edges.antt =====
-- src/runtime/shape.c: the transitions of a shape, taken and pruned.
use cscript.Prelude.{
  ℕ, ◌<◌, ◌≡◌, refl, sym, ap, ◌∙◌, arith, leb, ◌==◌, ==_iff, inl, inr, ◌⊎◌, Bool-cases, some-cancel,
  none≢some, Bool, true, false, List, [], ◌∷◌, ◌++◌, length, set, get_elem?, Option, none, some,
  if◌then◌else◌,
}
use mathlib.Core.Path.{subst}
use cscript.Value.{Value, object}
use cscript.Table.Slots.{scan}
use cscript.Table.Methods.{get-scan, set_value-Sets}
use cscript.Table.Sweep.{is_white, kept, sweep-Keeps}
use cscript.Shape.{Shape, max_slots, grow, follow_edge, transition, prune_transitions}
use cscript.Shape.Slots.{position, child-IsIndexed}
use cscript.Shape.Heap.{
  Stands, HasEdge, Extends, IsShape, IsHeap, Reaches, leaf-IsShape, grown-Extends, grown-IsHeap,
  added, IsShape-Extends, here,
}

module _ (hash to_double : ℕ → ℕ) (heap : List Shape) (valid : IsHeap hash to_double heap) where
  abbrev Takes : ℕ → Shape → ℕ → Option (Option ℕ × List Shape) → Type 0
  Takes a s key o =
      (r : Option ℕ × List Shape) × (o ≡ some r) × Reaches hash to_double heap a s key r

  stays-Extends : Extends heap heap
  stays-Extends b c at = (c, at, refl)

  grow-Takes :
      (a : ℕ) (s : Shape) (key : ℕ)
      → get_elem? heap a ≡ some s
      → position s.keys key ≡ none
      → length s.keys < max_slots
      → Takes a s key (grow hash to_double heap a s key)
  unfolding grow
  grow-Takes a s key at absent room =
      let h = valid a s at in
      let (c, run, indexed, keys, leaf) =
        child-IsIndexed hash to_double a s key h.indexed absent room in
      let (r, run', sets) = set_value-Sets hash s.transitions key (object (length heap)) h.valid in
      let s' : Shape = record s { transitions = r.1 } in
      let out = set (heap ++ c ∷ []) a s' in
      let stands : get_elem? out (length heap) ≡ some c =
        added hash to_double heap a s s' c at refl in
      let kept = grown-Extends hash to_double heap a s s' c at refl in
      let changed : IsShape hash to_double out s' = record {
        indexed = record { valid = h.indexed.valid; few = h.indexed.few; finds = h.indexed.finds };
        valid = sets.valid;
        edges = λ k v f.
            edge k v out h kept (Bool-cases (key == k)) (sym (sets.reads k) ∙ f) (c, stands, keys);
      } in
      (
        (some (length heap), out),
        rw (run, grow, run'),
        record {
          valid =
              grown-IsHeap hash to_double heap a s s' c at refl valid changed
                (leaf-IsShape hash to_double out c indexed leaf);
          kept = kept;
          reached = (c, stands, keys);
          edge = λ b e. (
            s',
            here hash to_double heap a s s' c at refl,
            sets.valid,
            sets.reads key
                ∙ (rw ((==_iff key key).1 refl) (ap (λ b. some (object b)) (some-cancel e))),
          );
        },
      )
    where
      edge :
          (k : ℕ) (v : Value) (out : List Shape)
          → IsShape hash to_double heap s
          → Extends heap out
          → ((key == k) ≡ true) ⊎ ((key == k) ≡ false)
          → (if key == k then some (object (length heap)) else scan s.transitions.entries k)
            ≡ some v
          → Stands out (length heap) (s.keys ++ key ∷ [])
          → (b : ℕ) × (v ≡ object b) × Stands out b (s.keys ++ k ∷ [])
      edge k v out h kept (inl e) f new_one = (
        length heap,
        sym (some-cancel (rw e at f)),
        subst (λ k. Stands out (length heap) (s.keys ++ k ∷ [])) ((==_iff key k).0 e) new_one,
      )
      edge k v out h kept (inr e) f new_one =
          (IsShape-Extends hash to_double heap out s kept h).edges k v (rw e at f)

  follow_edge-Takes :
      (a : ℕ) (s : Shape) (key : ℕ) (found : Option Value)
      → get_elem? heap a ≡ some s
      → position s.keys key ≡ none
      → scan s.transitions.entries key ≡ found
      → Takes a s key (follow_edge hash to_double heap a s key found)
  unfolding follow_edge
  follow_edge-Takes a s key (some v) at absent f =
      let (b, is, stands) = (valid a s at).edges key v f in
      (
        (some b, heap),
        rw is,
        record {
          valid = valid;
          kept = stays-Extends;
          reached = stands;
          edge = λ c e. (s, at, (valid a s at).valid, f ∙ ap some (is ∙ ap object (some-cancel e)));
        },
      )
  follow_edge-Takes a s key none at absent f = elim (Bool-cases (leb max_slots (length s.keys))) [
    | inl e ↦ (
      (none, heap),
      rw e,
      record {
        valid = valid;
        kept = stays-Extends;
        reached = ground (arith, e);
        edge = λ b e. absurd (none≢some e);
      },
    )
    | inr e ↦
        let (r, run, reaches) = grow-Takes a s key at absent (ground (arith, e)) in
        (r, rw e run, reaches)
  ]

  -- On a valid heap, for a key that the shape does not have, `csShapeTransition` ends: it reaches a shape
  -- with the keys of the first and the new one behind them, or none where all slots are used. The heap
  -- stays valid and every shape of it stands with its keys.
  pub transition-Reaches :
      (a : ℕ) (s : Shape) (key : ℕ)
      → get_elem? heap a ≡ some s
      → position s.keys key ≡ none
      → (r : Option ℕ × List Shape) × (transition hash to_double heap a key ≡ some r)
        × Reaches hash to_double heap a s key r
  unfolding transition
  transition-Reaches a s key at absent =
      let (r, run, reaches) =
        follow_edge-Takes a s key (scan s.transitions.entries key) at absent refl in
      (r, rw (at, transition, get-scan hash s.transitions key (valid a s at).valid) run, reaches)

  -- On a valid heap, for a key that the shape does not have, the transition that has just reached a shape
  -- reaches the same one when it is taken again, and leaves the heap as it is.
  transition-transition :
      (a : ℕ) (s : Shape) (key b : ℕ) (out : List Shape)
      → get_elem? heap a ≡ some s
      → position s.keys key ≡ none
      → transition hash to_double heap a key ≡ some (some b, out)
      → transition hash to_double out a key ≡ some (some b, out)
  unfolding transition follow_edge
  transition-transition a s key b out at absent run =
      let (r, run', reaches) = transition-Reaches a s key at absent in
      let is : r ≡ (some b, out) = some-cancel (sym run' ∙ run) in
      let (t, there, held, edge) =
        subst (λ (r : Option ℕ × List Shape). HasEdge hash to_double r.1 a key b) is
          (reaches.edge b (ap (λ r. r.0) is)) in
      rw (there, transition, get-scan hash t.transitions key held, edge)

module _ (hash to_double : ℕ → ℕ) where
  -- For a shape of a valid heap `csShapePruneTransitions` ends: the shape keeps its keys and its index, and of its
  -- edges exactly those to marked shapes.
  pub prune_transitions-kept :
      (heap : List Shape) (marked : ℕ → Bool) (s : Shape)
      → IsShape hash to_double heap s
      → (t : Shape) × (prune_transitions hash marked s ≡ some t)
        × IsShape hash to_double heap t
        × (t.keys ≡ s.keys)
        × ((k : ℕ)
            → scan t.transitions.entries k
              ≡ kept hash (λ k v. is_white marked v) k (scan s.transitions.entries k))
  unfolding prune_transitions
  prune_transitions-kept heap marked s h =
      let (out, run, keeps) = sweep-Keeps hash (λ k v. is_white marked v) s.transitions h.valid in
      (
        record s { transitions = out },
        rw (run, prune_transitions),
        record {
          indexed = record {
            valid = h.indexed.valid;
            few = h.indexed.few;
            finds = h.indexed.finds;
          };
          valid = keeps.valid;
          edges = λ k v f.
              h.edges k v (old k v (scan s.transitions.entries k) (sym (keeps.reads k) ∙ f));
        },
        refl,
        keeps.reads,
      )
    where
      old :
          (k : ℕ) (v : Value) (o : Option Value)
          → kept hash (λ k v. is_white marked v) k o ≡ some v
          → o ≡ some v
      old k v none e = e
      old k v (some u) e = elim (Bool-cases (is_white marked u)) [
        | inl w ↦ absurd (none≢some (rw w at e))
        | inr w ↦ rw w at e
      ]
