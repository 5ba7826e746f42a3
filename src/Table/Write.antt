-- ===== src/Table/Write.antt =====
-- src/runtime/table.c: where keys stand, and the writes that keep every probe chain walkable.
use cscript.Prelude.{
  ℕ, zero, suc, ◌%◌, ◌<◌, ◌≡◌, ◌≢◌, ◌∙◌, refl, ap, sym, arith, ◌==◌, ==_iff, if◌then◌else◌, inl,
  inr, Bool-cases, true, false, List, [], ◌∷◌, length, set, none, some, length-set,
}
use mathlib.Core.Path.{subst}
use native.Mathlib.Nat.{mod-eq_of_lt, mod-lt}
use native.Mathlib.Decide.{dec_lt}
use cscript.Value.{Value}
use cscript.Table.{Entry, slot, find_entry, find_loop, tombstone}
use cscript.Table.Probe.{probe, probe-injective, probe-distance, probe-lt, distance}
use cscript.Table.Slots.{
  is_vacant, key_is, scan, used, IsDistinct, scan-none, scan-none_of_absent, vacancy,
}
use cscript.Table.Find.{true≢false, Passes, IsHit, IsMiss, Ends, find_loop-Ends}

slot-set :
    (es : List Entry) (i j : ℕ) (c : Entry)
    → i < length es
    → slot (set es i c) j ≡ (if i == j then c else slot es j)
slot-set [] i j c h = absurd (omega arith)
slot-set (e ∷ es) zero zero c h = refl
slot-set (e ∷ es) zero (suc j) c h = ground arith
slot-set (e ∷ es) (suc i) zero c h = ground arith
slot-set (e ∷ es) (suc i) (suc j) c h = ground (arith, slot-set es i j c)

live_not_vacant : (e : Entry) (k : ℕ) → key_is k e.key ≡ true → is_vacant e ≡ false
live_not_vacant e k h = ground arith

module _ (hash : ℕ → ℕ) where
  -- The slot where the probes for a key begin.
  abbrev pub home : ℕ → ℕ → ℕ
  home k n = hash k % n

  -- A key stands in a slot, and a probe for it reaches that slot.
  pub record Stands (es : List Entry) (k i : ℕ) : Type 0 where
    pub d : ℕ
    pub near : d < length es
    pub at : i ≡ probe (length es) (home k (length es)) d
    pub passed : Passes es (home k (length es)) k d

  abbrev pub IsPlaced : List Entry → Type 0
  IsPlaced es = (k i : ℕ) → key_is k (slot es i).key ≡ true → Stands es k i

  -- The key is not among the slots that a probe for it has passed.
  not_passed :
      (es : List Entry) (k i t : ℕ) (s : Stands es k i)
      → key_is k (slot es i).key ≡ true
      → Passes es (home k (length es)) k t
      → s.d < t
      → ⊥
  not_passed es k i t s h p lt =
      true≢false (sym h ∙ ap (λ x. key_is k (slot es x).key) s.at ∙ (p s.d lt).1)

  pub IsPlaced-IsDistinct : (es : List Entry) → IsPlaced es → IsDistinct es
  IsPlaced-IsDistinct es p k i j hi hj =
      let a = p k i hi in
      let b = p k j hj in
      elim (dec_lt a.d b.d) [
        | yes before ↦ absurd (not_passed es k i b.d a hi b.passed before)
        | no late ↦ elim (dec_lt b.d a.d) [
          | yes before ↦ absurd (not_passed es k j a.d b hj a.passed before)
          | no early ↦
              a.at
              ∙ ap (probe (length es) (home k (length es))) (omega (arith, late, early))
              ∙ sym b.at
        ]
      ]

  -- `findEntry` ends where a slot is vacant.
  pub find_entry-Ends :
      (es : List Entry) (k : ℕ)
      → used es < length es
      → Ends es (home k (length es)) k (find_entry hash es k)
  unfolding find_entry
  find_entry-Ends es k room =
      let (i, within, vacant) = vacancy es room in
      let s = home k (length es) in
      let (near, at) = probe-distance (length es) s i (omega arith) within in
      let last = distance (length es) s i in
      let start : s ≡ probe (length es) s 0 =
        sym (mod-eq_of_lt (omega arith)) ∙ ap (λ t. t % length es) (omega arith) in
      let here : is_vacant (slot es (probe (length es) s last)) ≡ true = rw at vacant in
      subst (λ t. Ends es s k (find_loop (length es) es k t none)) (sym start)
        (find_loop-Ends es s k (length es) 0 last none (omega arith) near (omega arith) here
          (λ e h. absurd (omega arith)) tt)

  -- A miss means that the key is nowhere.
  pub IsMiss-scan :
      (es : List Entry) (k i : ℕ)
      → IsPlaced es
      → IsMiss es (home k (length es)) k i
      → scan es k ≡ none
  IsMiss-scan es k i p m = scan-none_of_absent es k λ j.
      elim (Bool-cases (key_is k (slot es j).key)) [
        | inr absent ↦ absent
        | inl here ↦
            let s = p k j here in
            elim (dec_lt s.d m.stop) [
              | yes before ↦ absurd (not_passed es k j m.stop s here m.passed before)
              | no late ↦ elim (dec_lt m.stop s.d) [
                | yes after ↦ absurd (true≢false (sym m.vacant ∙ (s.passed m.stop after).0))
                | no early ↦
                    let same : s.d ≡ m.stop = omega (arith, late, early) in
                    let spot = s.at ∙ ap (probe (length es) (home k (length es))) same in
                    absurd (
                      true≢false (
                        sym m.vacant
                        ∙ ap (λ x. is_vacant (slot es x)) (sym spot)
                        ∙ live_not_vacant (slot es j) k here))
              ]
            ]
      ]

  module _ (es : List Entry) (i : ℕ) (c : Entry) (placed : IsPlaced es) (within : i < length es)
      (occupied : is_vacant c ≡ false) (own : (k : ℕ) → key_is k c.key ≡ true → Stands es k i)
      (apart : (k j : ℕ) → j ≢ i → key_is k (slot es j).key ≡ true → key_is k c.key ≡ false) where
    moved :
        (k j : ℕ) {i' : ℕ} (s : Stands es k i')
        → j ≡ probe (length es) (home k (length es)) s.d
        → ((e : ℕ)
            → e < s.d
            → i ≡ probe (length es) (home k (length es)) e
            → key_is k c.key ≡ false)
        → Stands (set es i c) k j
    moved k j s at clear = record {
      d = s.d;
      near = rw length-set s.near;
      at = rw length-set at;
      passed = rw length-set (λ e lt.
          elim (Bool-cases (i == probe (length es) (home k (length es)) e)) [
            | inl hit ↦
                rw (slot-set es i _ c within, hit) (occupied, clear e lt ((==_iff _ _).0 hit))
            | inr missed ↦ rw (slot-set es i _ c within, missed) (s.passed e lt)
          ]);
    }

    passed_once :
        (k e : ℕ) {i' : ℕ} (s : Stands es k i')
        → e < s.d
        → probe (length es) (home k (length es)) e ≡ probe (length es) (home k (length es)) s.d
        → ⊥
    passed_once k e s lt same = omega (
      arith,
      probe-injective (length es) (home k (length es)) e s.d (mod-lt _ (omega (arith, within)))
          (omega (arith, s.near, lt)) s.near same,
      lt,
    )

    -- A write that fills a slot keeps every key where probes find it.
    pub set-IsPlaced : IsPlaced (set es i c)
    set-IsPlaced k j h = elim (Bool-cases (i == j)) [
      | inl here ↦
          let now = slot-set es i j c within in
          let mine : key_is k c.key ≡ true = rw (now, here) at h in
          let s = own k mine in
          moved k j s (sym ((==_iff i j).0 here) ∙ s.at)
            (λ e lt hit. absurd (passed_once k e s lt (sym hit ∙ s.at)))
      | inr other ↦
          let now = slot-set es i j c within in
          let old : key_is k (slot es j).key ≡ true = rw (now, other) at h in
          let s = placed k j old in
          moved k j s s.at (λ e lt hit.
            apart k j (λ same. true≢false (sym ((==_iff i j).1 (sym same)) ∙ other)) old)
    ]

  module _ (es : List Entry) (placed : IsPlaced es) (k i : ℕ) where
    pub hit-within : IsHit es (home k (length es)) k i → i < length es
    hit-within h = rw h.at (probe-lt (length es) (home k (length es)) h.d (omega (arith, h.near)))

    pub miss-within : IsMiss es (home k (length es)) k i → i < length es
    miss-within m = rw m.at (probe-lt (length es) (home k (length es)) m.d (omega (arith, m.near)))

    -- A new key goes where its search ended.
    pub insert-IsPlaced :
        (v : Value)
        → IsMiss es (home k (length es)) k i
        → IsPlaced (set es i (record { key = some k; value = v }))
    insert-IsPlaced v m =
        set-IsPlaced es i _ placed (miss-within m) refl
          (λ j h.
            subst (λ t. Stands es t i) ((==_iff k j).0 h)
              (record {
                d = m.d;
                near = omega (arith, m.before, m.near);
                at = m.at;
                passed = λ e lt. m.passed e (omega (arith, m.before, lt));
              }))
          (λ j a ne h. elim (Bool-cases (k == j)) [
            | inr other ↦ other
            | inl same ↦
                let absent = scan-none es k a (IsMiss-scan es k i placed m) in
                absurd (
                  true≢false (
                    sym h
                    ∙ ap (λ t. key_is t (slot es a).key) (sym ((==_iff k j).0 same))
                    ∙ absent))
          ])

    -- The key that is there gets a value.
    pub overwrite-IsPlaced :
        (v : Value)
        → IsHit es (home k (length es)) k i
        → IsPlaced (set es i (record { key = some k; value = v }))
    overwrite-IsPlaced v h =
        set-IsPlaced es i _ placed (hit-within h) refl
          (λ j e. subst (λ t. Stands es t i) ((==_iff k j).0 e) (placed k i h.key))
          (λ j a ne e. elim (Bool-cases (k == j)) [
            | inr other ↦ other
            | inl same ↦
                let here = ap (λ t. key_is t (slot es a).key) ((==_iff k j).0 same) ∙ e in
                absurd (ne (IsPlaced-IsDistinct es placed k a i here h.key))
          ])

    -- A key gives way to a tombstone.
    pub bury-IsPlaced : IsHit es (home k (length es)) k i → IsPlaced (set es i tombstone)
    bury-IsPlaced h =
        set-IsPlaced es i tombstone placed (hit-within h) refl (λ j e. cc) (λ j a ne e. refl)
