-- ===== src/Shape/Heap.antt =====
-- src/runtime/shape.c: a transition leaves a valid heap and reaches the shape with one more key.
use cscript.Prelude.{
  ℕ, zero, suc, ◌<◌, ◌≤◌, ◌≡◌, ◌⊎◌, refl, sym, ap, ◌∙◌, arith, ◌==◌, ==_iff, inl, inr, Bool-cases,
  some-cancel, none≢some, false, List, [], ◌∷◌, ◌++◌, length, set, length-append, get_elem?,
  get_elem?-set_self, get_elem?-set_ne, Option, none, some,
}
use mathlib.Core.Path.{subst}
use cscript.Value.{Value, object}
use cscript.Table.{new}
use cscript.Table.Slots.{scan}
use cscript.Table.Find.{true≢false}
use cscript.Table.Methods.{IsValid, new-IsValid}
use cscript.Shape.{Shape, max_slots, fresh, new_root}
use cscript.Shape.Slots.{IsIndexed, fresh-IsIndexed}

-- What a longer list holds.
fetch-append {ℓ} :
    {A : Type ℓ} (xs ys : List A) (b : ℕ) (x : A)
    → get_elem? xs b ≡ some x
    → get_elem? (xs ++ ys) b ≡ some x
fetch-append [] ys b x h = absurd (none≢some h)
fetch-append (y ∷ xs) ys zero x h = h
fetch-append (y ∷ xs) ys (suc b) x h = fetch-append xs ys b x h

fetch_last {ℓ} : {A : Type ℓ} (xs : List A) (y : A) → get_elem? (xs ++ y ∷ []) (length xs) ≡ some y
fetch_last [] y = refl
fetch_last (x ∷ xs) y = fetch_last xs y

fetched {ℓ} :
    {A : Type ℓ} (xs : List A) (y : A) (b : ℕ) (x : A)
    → get_elem? (xs ++ y ∷ []) b ≡ some x
    → (get_elem? xs b ≡ some x) ⊎ (y ≡ x)
fetched [] y zero x h = inr (some-cancel h)
fetched [] y (suc b) x h = absurd (none≢some h)
fetched (z ∷ xs) y zero x h = inl h
fetched (z ∷ xs) y (suc b) x h = fetched xs y b x h

within {ℓ} : {A : Type ℓ} (xs : List A) (b : ℕ) (x : A) → get_elem? xs b ≡ some x → b < length xs
within [] b x h = absurd (none≢some h)
within (y ∷ xs) zero x h = omega arith
within (y ∷ xs) (suc b) x h = omega (arith, within xs b x h)

-- The shape at an address, with these keys.
abbrev pub Stands : List Shape → ℕ → List ℕ → Type 0
Stands heap b keys = (c : Shape) × (get_elem? heap b ≡ some c) × (c.keys ≡ keys)

-- A heap in which every shape of another one stands, with its keys.
abbrev pub Extends : List Shape → List Shape → Type 0
Extends heap out = (b : ℕ) (c : Shape) → get_elem? heap b ≡ some c → Stands out b c.keys

module _ (hash to_double : ℕ → ℕ) where
  -- A shape whose index is that of its keys, and whose edges lead to the shapes with one more key.
  pub record IsShape (heap : List Shape) (s : Shape) : Type 0 where
    pub indexed : IsIndexed hash to_double s
    pub valid : IsValid hash s.transitions
    pub edges :
        (k : ℕ) (v : Value)
        → scan s.transitions.entries k ≡ some v
        → (b : ℕ) × (v ≡ object b) × Stands heap b (s.keys ++ k ∷ [])

  abbrev pub IsHeap : List Shape → Type 0
  IsHeap heap = (a : ℕ) (s : Shape) → get_elem? heap a ≡ some s → IsShape heap s

  Stands-Extends :
      (heap out : List Shape) (b : ℕ) (keys : List ℕ)
      → Extends heap out
      → Stands heap b keys
      → Stands out b keys
  Stands-Extends heap out b keys e (c, at, same) =
      let (d, there, still) = e b c at in (d, there, still ∙ same)

  pub IsShape-Extends :
      (heap out : List Shape) (s : Shape) → Extends heap out → IsShape heap s → IsShape out s
  IsShape-Extends heap out s e h = record {
    indexed = h.indexed;
    valid = h.valid;
    edges = λ k v f. let (b, is, at) = h.edges k v f in (b, is, Stands-Extends heap out b _ e at);
  }

  pub leaf-IsShape :
      (heap : List Shape) (c : Shape)
      → IsIndexed hash to_double c
      → c.transitions ≡ new
      → IsShape heap c
  unfolding scan
  leaf-IsShape heap c h e = record {
    indexed = h;
    valid = subst (IsValid hash) (sym e) (new-IsValid hash);
    edges = λ k v f. absurd (none≢some (subst (λ t. scan t.entries k ≡ some v) e f));
  }

  -- `csShapeNewRoot` adds a shape without keys to a valid heap.
  pub new_root-IsHeap : (heap : List Shape) → IsHeap heap → IsHeap (new_root heap).1
  new_root-IsHeap heap h a s f = elim (fetched heap fresh a s f) [
    | inl old ↦
        IsShape-Extends heap (heap ++ fresh ∷ []) s
          (λ b c at. (c, fetch-append heap (fresh ∷ []) b c at, refl)) (h a s old)
    | inr e ↦
        subst (IsShape (heap ++ fresh ∷ [])) e
          (leaf-IsShape (heap ++ fresh ∷ []) fresh (fresh-IsIndexed hash to_double) refl)
  ]

  -- A shape of the heap replaced by one with the same keys, and a shape added.
  module _ (heap : List Shape) (a : ℕ) (s s' c : Shape) (at : get_elem? heap a ≡ some s)
      (same : s'.keys ≡ s.keys) where
    abbrev grown : List Shape
    grown = set (heap ++ c ∷ []) a s'

    pub here : get_elem? grown a ≡ some s'
    here =
        get_elem?-set_self (heap ++ c ∷ []) a s'
          (omega (arith, length-append heap (c ∷ []), within heap a s at))

    elsewhere : (b : ℕ) → (a == b) ≡ false → get_elem? grown b ≡ get_elem? (heap ++ c ∷ []) b
    elsewhere b e =
        get_elem?-set_ne (heap ++ c ∷ []) s' (λ k. true≢false (sym ((==_iff a b).1 k) ∙ e))

    pub added : get_elem? grown (length heap) ≡ some c
    added = elsewhere (length heap) (ground (arith, within heap a s at)) ∙ fetch_last heap c

    pub grown-Extends : Extends heap grown
    grown-Extends b d f = elim (Bool-cases (a == b)) [
      | inl e ↦
          let e' = (==_iff a b).0 e in
          let is : s ≡ d = some-cancel (sym at ∙ (ap (get_elem? heap) e' ∙ f)) in
          (
            s',
            subst (λ b. get_elem? grown b ≡ some s') e' here,
            same ∙ ap (λ (s : Shape). s.keys) is,
          )
      | inr e ↦ (d, elsewhere b e ∙ fetch-append heap (c ∷ []) b d f, refl)
    ]

    pub grown-IsHeap : IsHeap heap → IsShape grown s' → IsShape grown c → IsHeap grown
    grown-IsHeap h hs hc b d f = elim (Bool-cases (a == b)) [
      | inl e ↦
          subst (IsShape grown)
            (some-cancel (sym here ∙ (ap (get_elem? grown) ((==_iff a b).0 e) ∙ f))) hs
      | inr e ↦ elim (fetched heap c b d (sym (elsewhere b e) ∙ f)) [
        | inl old ↦ IsShape-Extends heap grown d grown-Extends (h b d old)
        | inr is ↦ subst (IsShape grown) is hc
      ]
    ]

  -- The shape that is reached has one more key; there is none when the slots are used up.
  abbrev pub Reached : List Shape → Shape → ℕ → Option ℕ → Type 0
  Reached heap s key none = max_slots ≤ length s.keys
  Reached heap s key (some b) = Stands heap b (s.keys ++ key ∷ [])

  -- The edge of the shape at `a` for a key.
  abbrev pub HasEdge : List Shape → ℕ → ℕ → ℕ → Type 0
  HasEdge heap a key b =
      (t : Shape) × (get_elem? heap a ≡ some t)
      × IsValid hash t.transitions
      × (scan t.transitions.entries key ≡ some (object b))

  pub record Reaches (heap : List Shape) (a : ℕ) (s : Shape) (key : ℕ) (r : Option ℕ × List Shape)
      : Type 0 where
    pub valid : IsHeap r.1
    pub kept : Extends heap r.1
    pub reached : Reached r.1 s key r.0
    pub edge : (b : ℕ) → r.0 ≡ some b → HasEdge r.1 a key b
