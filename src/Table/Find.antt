-- ===== src/Table/Find.antt =====
-- src/runtime/table.c: `findEntry` ends, at the key or at the slot to insert it into.
use cscript.Prelude.{
  ℕ, zero, suc, ◌+◌, ◌%◌, ◌<◌, ◌≤◌, ◌≡◌, ◌∙◌, refl, ap, sym, arith, ◌==◌, inl, inr, Bool-cases,
  true, false, ◌⊎◌, List, length, Option, none, some,
}
use native.Mathlib.Decide.{dec_lt}
use cscript.Value.{Value, is_null}
use cscript.Table.{Entry, slot, is_live, Round, found, onward, look, first, find_loop}
use cscript.Table.Probe.{probe, probe-suc}
use cscript.Table.Slots.{is_vacant, key_is}

pub true≢false : true ≡ false → ⊥
true≢false h = cc

-- The four ways that a round can go.
data LookCase (key : Option ℕ) (v : Value) (k i : ℕ) (g : Option ℕ) (r : Round) : Type 0 where
  at_key : key_is k key ≡ true → r ≡ found i → LookCase key v k i g r
  at_vacant :
      is_live key ≡ false
      → is_vacant (record { key = key; value = v }) ≡ true
      → r ≡ found (first g i)
      → LookCase key v k i g r
  past_grave :
      is_live key ≡ false
      → is_vacant (record { key = key; value = v }) ≡ false
      → key_is k key ≡ false
      → r ≡ onward (some (first g i))
      → LookCase key v k i g r
  past_other :
      is_vacant (record { key = key; value = v }) ≡ false
      → key_is k key ≡ false
      → r ≡ onward g
      → LookCase key v k i g r

look-LookCase :
    (key : Option ℕ) (v : Value) (k i : ℕ) (g : Option ℕ) → LookCase key v k i g (look key v k i g)
unfolding look
look-LookCase none v k i g = elim (Bool-cases (is_null v)) [
  | inl e ↦ at_vacant refl e (rw e)
  | inr e ↦ past_grave refl e refl (rw e)
]
look-LookCase (some j) v k i g = elim (Bool-cases (j == k)) [
  | inl e ↦ at_key e (rw e)
  | inr e ↦ past_other refl e (rw e)
]

module _ (es : List Entry) (s k : ℕ) where
  -- The slots of the first `d` rounds are in use, and none of them has the key.
  abbrev pub Passes : ℕ → Type 0
  Passes d =
      (e : ℕ)
      → e < d
      → (is_vacant (slot es (probe (length es) s e)) ≡ false)
        × (key_is k (slot es (probe (length es) s e)).key ≡ false)

  -- The search ended at the key.
  pub record IsHit (i : ℕ) : Type 0 where
    pub d : ℕ
    pub near : d < length es
    pub at : i ≡ probe (length es) s d
    pub key : key_is k (slot es i).key ≡ true

  -- The search met a vacant slot before the key, and ended at a slot without a key.
  pub record IsMiss (i : ℕ) : Type 0 where
    pub d : ℕ
    pub stop : ℕ
    pub before : d ≤ stop
    pub near : stop < length es
    pub at : i ≡ probe (length es) s d
    pub free : is_live (slot es i).key ≡ false
    pub vacant : is_vacant (slot es (probe (length es) s stop)) ≡ true
    pub passed : Passes stop

  -- A tombstone that was passed.
  abbrev Grave : ℕ → Option ℕ → Type 0
  Grave d none = Unit
  Grave d (some g) =
      (c : ℕ) × (c < d) × (g ≡ probe (length es) s c) × (is_live (slot es g).key ≡ false)

  Passes-suc :
      (d : ℕ)
      → Passes d
      → is_vacant (slot es (probe (length es) s d)) ≡ false
      → key_is k (slot es (probe (length es) s d)).key ≡ false
      → Passes (suc d)
  Passes-suc d p u w e h = elim (dec_lt e d) [
    | yes earlier ↦ p e earlier
    | no later ↦ let same : e ≡ d = omega arith in rw same (u, w)
  ]

  IsMiss-first :
      (d : ℕ) (g : Option ℕ)
      → d < length es
      → Passes d
      → Grave d g
      → is_live (slot es (probe (length es) s d)).key ≡ false
      → is_vacant (slot es (probe (length es) s d)) ≡ true
      → IsMiss (first g (probe (length es) s d))
  IsMiss-first d none h p g l v = record {
    d = d;
    stop = d;
    before = omega arith;
    near = h;
    at = refl;
    free = l;
    vacant = v;
    passed = p;
  }
  IsMiss-first d (some t) h p (c, lt, at, free) l v = record {
    d = c;
    stop = d;
    before = omega arith;
    near = h;
    at = at;
    free = free;
    vacant = v;
    passed = p;
  }

  Grave-suc : (d : ℕ) (g : Option ℕ) → Grave d g → Grave (suc d) g
  Grave-suc d none t = tt
  Grave-suc d (some g) (c, lt, at, free) = (c, omega arith, at, free)

  Grave-first :
      (d : ℕ) (g : Option ℕ)
      → Grave d g
      → is_live (slot es (probe (length es) s d)).key ≡ false
      → Grave (suc d) (some (first g (probe (length es) s d)))
  Grave-first d none t l = (d, omega arith, refl, l)
  Grave-first d (some g) (c, lt, at, free) l = (c, omega arith, at, free)

  -- The search returns a slot.
  abbrev pub Ends : Option ℕ → Type 0
  Ends r = (i : ℕ) × (r ≡ some i) × (IsHit i ⊎ IsMiss i)

  not_last :
      (d last : ℕ)
      → d ≤ last
      → is_vacant (slot es (probe (length es) s d)) ≡ false
      → is_vacant (slot es (probe (length es) s last)) ≡ true
      → d < last
  not_last d last h u v = elim (dec_lt d last) [
    | yes b ↦ b
    | no b ↦
        let same : d ≡ last = omega arith in
        absurd (
          true≢false (sym v ∙ ap (λ t. is_vacant (slot es (probe (length es) s t))) (sym same) ∙ u))
  ]

  -- The loop ends within as many rounds as there are slots up to some vacant one.
  pub find_loop-Ends :
      (fuel d last : ℕ) (g : Option ℕ)
      → d ≤ last
      → last < length es
      → last < d + fuel
      → is_vacant (slot es (probe (length es) s last)) ≡ true
      → Passes d
      → Grave d g
      → Ends (find_loop fuel es k (probe (length es) s d) g)
  unfolding find_loop
  find_loop-Ends zero d last g h h' h'' v p t = absurd (omega arith)
  find_loop-Ends (suc fuel) d last g h h' h'' v p t =
      let i = probe (length es) s d in
      let e = slot es i in
      let more : is_vacant e ≡ false → d < last = λ u. not_last d last h u v in
      let rest : (g' : Option ℕ)
          → d < last
          → Passes (suc d)
          → Grave (suc d) g'
          → Ends (find_loop fuel es k ((i + 1) % length es) g') =
        λ g' b p' t'.
          rw probe-suc (find_loop-Ends fuel (suc d) last g' b h' (omega arith) v p' t') in
      elim (look-LookCase e.key e.value k i g) [
        | at_key w r ↦ (
          i,
          rw (r, find_loop),
          inl (record { d = d; near = omega (arith, h, h'); at = refl; key = w }),
        )
        | at_vacant l u r ↦
            (first g i, rw (r, find_loop), inr (IsMiss-first d g (omega (arith, h, h')) p t l u))
        | past_grave l u w r ↦
            rw (r, find_loop)
              (rest (some (first g i)) (more u) (Passes-suc d p u w) (Grave-first d g t l))
        | past_other u w r ↦
            rw (r, find_loop) (rest g (more u) (Passes-suc d p u w) (Grave-suc d g t))
      ]
