-- ===== src/Table/Methods.antt =====
-- src/runtime/table.c: the operations end, keep the table valid, and act as those of a map.
use cscript.Prelude.{
  ℕ, suc, ◌+◌, ◌*◌, ◌%◌, ◌^◌, ◌<◌, ◌≤◌, ◌≡◌, ◌∙◌, refl, ap, sym, arith, ◌==◌, ==_iff, if◌then◌else◌,
  inl, inr, Bool-cases, Bool, true, false, ◌⊎◌, List, length, set, Option, none, some, length-set,
  ltb, not,
}
use native.Mathlib.Nat.{pow-suc}
use cscript.Prelude.Arith.{pow-pos}
use cscript.Value.{Value, is_null}
use cscript.Table.{
  Entry, Table, new, slot, tombstone, is_live, find_entry, grow_capacity, get, set_slot, set_value,
  delete,
}
use cscript.Table.Slots.{
  key_is, scan, used, scan-slot, scan-set_old, scan-set-tombstone, used-set, scan-of_unused,
}
use cscript.Table.Find.{IsHit}
use cscript.Table.Write.{
  home, IsPlaced, IsPlaced-IsDistinct, find_entry-Ends, IsMiss-scan, overwrite-IsPlaced,
  bury-IsPlaced, hit-within,
}
use cscript.Table.Resize.{Holds, insert-Holds, adjust_capacity-Holds}

-- The capacities that `CS_GROW_CAPACITY` makes.
abbrev pub IsCapacity : ℕ → Type 0
IsCapacity n = (n ≡ 0) ⊎ ((m : ℕ) × (n ≡ 8 * 2 ^ m))

abbrev pub is_absent : Option Value → Bool
is_absent none = true
is_absent (some x) = false

live_of_key : (key : Option ℕ) (k : ℕ) → key_is k key ≡ true → is_live key ≡ true
live_of_key key k h = ground arith

module _ (hash : ℕ → ℕ) where
  -- `count` is that of live entries and tombstones, and at most three quarters of the slots.
  pub record IsValid (t : Table) : Type 0 where
    pub capacity : IsCapacity (length t.entries)
    pub counted : used t.entries ≡ t.count
    pub load : t.count * 4 ≤ length t.entries * 3
    pub placed : IsPlaced hash t.entries

  pub new-IsValid : IsValid new
  unfolding used
  new-IsValid = record {
    capacity = inl refl;
    counted = refl;
    load = omega arith;
    placed = λ k i h. cc;
  }

  get_slot :
      (es : List Entry) (k i : ℕ)
      → IsPlaced hash es
      → key_is k (slot es i).key ≡ true
      → some (if is_live (slot es i).key then some (slot es i).value else none) ≡ some (scan es k)
  get_slot es k i p h =
      rw (live_of_key (slot es i).key k h)
        (ap some (sym (scan-slot es k i (IsPlaced-IsDistinct hash es p) h)))

  room_of_load :
      (t : Table) → IsValid t → (t.count == 0) ≡ false → used t.entries < length t.entries
  room_of_load t v e = ground (arith, v.load, v.counted)

  -- On a valid table, with any hash, `csTableGet` ends with the value that a scan of all slots finds.
  pub get-scan : (t : Table) (k : ℕ) → IsValid t → get hash t k ≡ some (scan t.entries k)
  unfolding get
  get-scan t k v = elim (Bool-cases (t.count == 0)) [
    | inl e ↦ rw e (ap some (sym (scan-of_unused t.entries k (v.counted ∙ (==_iff t.count 0).0 e))))
    | inr e ↦
        let (i, run, outcome) = find_entry-Ends hash t.entries k (room_of_load t v e) in
        elim outcome [
          | inl hit ↦ rw (e, get, run) (get_slot t.entries k i v.placed hit.key)
          | inr miss ↦
              rw (e, get, run, miss.free)
                (ap some (sym (IsMiss-scan hash t.entries k i v.placed miss)))
        ]
  ]

  -- What a write leaves: a valid table that reads as the map with the key set, and whether the key
  -- is new.
  pub record Sets (t : Table) (k : ℕ) (x : Value) (r : Bool × Table) : Type 0 where
    pub fresh : r.0 ≡ is_absent (scan t.entries k)
    pub valid : IsValid r.1
    pub reads : (j : ℕ) → scan r.1.entries j ≡ (if k == j then some x else scan t.entries j)

  abbrev pub SetsSlot : Table → ℕ → Value → Type 0
  SetsSlot t k x = (r : Bool × Table) × (set_slot hash t k x ≡ some r) × Sets t k x r

  set_slot-overwrite :
      (t : Table) (k i : ℕ) (x : Value)
      → IsValid t
      → find_entry hash t.entries k ≡ some i
      → IsHit t.entries (home hash k (length t.entries)) k i
      → SetsSlot t k x
  unfolding set_slot
  set_slot-overwrite t k i x v run hit =
      let es = t.entries in
      let c : Entry = record { key = some k; value = x } in
      let within = hit-within hash es v.placed k i hit in
      let live = live_of_key (slot es i).key k hit.key in
      let distinct = IsPlaced-IsDistinct hash es v.placed in
      let here = scan-slot es k i distinct hit.key in
      (
        (false, record t { entries = set es i c }),
        rw (run, set_slot, live),
        record {
          fresh = sym (ap is_absent here);
          valid = record {
            capacity = rw length-set v.capacity;
            counted = ground (arith, used-set es i c within, v.counted);
            load = rw length-set v.load;
            placed = overwrite-IsPlaced hash es v.placed k i x hit;
          };
          reads = λ j. scan-set_old es i k j x distinct hit.key;
        },
      )

  set_slot-insert :
      (t : Table) (k : ℕ) (x : Value)
      → IsValid t
      → (t.count + 1) * 4 ≤ length t.entries * 3
      → scan t.entries k ≡ none
      → SetsSlot t k x
  unfolding set_slot
  set_slot-insert t k x v room absent =
      let es = t.entries in
      let start : Holds hash (length es) t.count (scan es) es = record {
        placed = v.placed;
        width = refl;
        counted = v.counted;
        reads = λ j. refl;
      } in
      let (i, run, free, h) = insert-Holds hash es k x start (omega (arith, room)) absent in
      let count = if is_null (slot es i).value then t.count + 1 else t.count in
      let out = set es i (record { key = some k; value = x }) in
      (
        (true, record t { count = count; entries = out }),
        rw (run, set_slot, free),
        record {
          fresh = sym (ap is_absent absent);
          valid = record {
            capacity = rw length-set v.capacity;
            counted = h.counted;
            load = rw length-set (ground (arith, room));
            placed = h.placed;
          };
          reads = h.reads;
        },
      )

  set_slot-Sets :
      (t : Table) (k : ℕ) (x : Value)
      → IsValid t
      → (t.count + 1) * 4 ≤ length t.entries * 3
      → SetsSlot t k x
  set_slot-Sets t k x v room =
      let (i, run, outcome) = find_entry-Ends hash t.entries k (omega (arith, v.counted, room)) in
      elim outcome [
        | inl hit ↦ set_slot-overwrite t k i x v run hit
        | inr miss ↦ set_slot-insert t k x v room (IsMiss-scan hash t.entries k i v.placed miss)
      ]

  grow-room :
      (n count : ℕ)
      → IsCapacity n
      → count * 4 ≤ n * 3
      → ((count + 1) * 4 ≤ grow_capacity n * 3)
        × (count < grow_capacity n)
        × IsCapacity (grow_capacity n)
  grow-room n count (inl z) load =
      let grown : grow_capacity n ≡ 8 = ground arith in
      (omega (arith, grown), omega (arith, grown), inr (0, grown))
  grow-room n count (inr (m, e)) load =
      let large : 8 ≤ n = omega (arith, pow-pos 2 m (omega arith)) in
      let grown : grow_capacity n ≡ n * 2 = ground arith in
      (
        omega (arith, grown),
        omega (arith, grown),
        inr (suc m, grown ∙ rw (pow-suc 2 m) (omega (arith, e))),
      )

  -- On a valid table, with any hash, `csTableSet` ends: it says whether the key is new, and leaves a
  -- valid table, below its load, that reads as before except at the key.
  pub set_value-Sets :
      (t : Table) (k : ℕ) (x : Value)
      → IsValid t
      → (r : Bool × Table) × (set_value hash t k x ≡ some r) × Sets t k x r
  unfolding set_value
  set_value-Sets t k x v = elim (Bool-cases (ltb (length t.entries * 3) ((t.count + 1) * 4))) [
    | inr e ↦ let (r, run, sets) = set_slot-Sets t k x v (ground arith) in (r, rw e run, sets)
    | inl e ↦
        let (room, fits, capacity) = grow-room (length t.entries) t.count v.capacity v.load in
        let (grown, run, few, h) =
          adjust_capacity-Holds hash t (grow_capacity (length t.entries)) v.placed
            (omega (arith, v.counted, fits)) in
        let w : IsValid grown = record {
          capacity = rw h.width capacity;
          counted = h.counted;
          load = omega (arith, h.width, few, room, v.counted);
          placed = h.placed;
        } in
        let (r, run', sets) =
          set_slot-Sets grown k x w (omega (arith, h.width, few, room, v.counted)) in
        (
          r,
          rw (e, set_value, run) run',
          record {
            fresh = sets.fresh ∙ ap is_absent (h.reads k);
            valid = sets.valid;
            reads = λ j. sets.reads j ∙ ap (λ t. if k == j then some x else t) (h.reads j);
          },
        )
  ]

  -- What a deletion leaves.
  pub record Deletes (t : Table) (k : ℕ) (r : Bool × Table) : Type 0 where
    pub found : r.0 ≡ not (is_absent (scan t.entries k))
    pub valid : IsValid r.1
    pub reads : (j : ℕ) → scan r.1.entries j ≡ (if k == j then none else scan t.entries j)

  delete-nothing :
      (t : Table) (k : ℕ) → IsValid t → scan t.entries k ≡ none → Deletes t k (false, t)
  delete-nothing t k v absent = record {
    found = sym (ap (λ o. not (is_absent o)) absent);
    valid = v;
    reads = λ j. elim (Bool-cases (k == j)) [
      | inl same ↦ rw same (ap (scan t.entries) (sym ((==_iff k j).0 same)) ∙ absent)
      | inr other ↦ rw other
    ];
  }

  delete-hit :
      (t : Table) (k i : ℕ)
      → IsValid t
      → IsHit t.entries (home hash k (length t.entries)) k i
      → Deletes t k (
        true,
        record t { entries = set t.entries i tombstone; version = (t.version + 1) % 2 ^ 32 },
      )
  delete-hit t k i v hit =
      let es = t.entries in
      let distinct = IsPlaced-IsDistinct hash es v.placed in
      let live = live_of_key (slot es i).key k hit.key in
      let within = hit-within hash es v.placed k i hit in
      record {
        found = sym (ap (λ o. not (is_absent o)) (scan-slot es k i distinct hit.key));
        valid = record {
          capacity = rw length-set v.capacity;
          counted = ground (arith, used-set es i tombstone within, v.counted);
          load = rw length-set v.load;
          placed = bury-IsPlaced hash es v.placed k i hit;
        };
        reads = λ j. scan-set-tombstone es i k j distinct hit.key;
      }

  -- On a valid table, with any hash, `csTableDelete` ends: it says whether the key was there, and leaves
  -- a valid table without the key that reads as before elsewhere.
  pub delete-Deletes :
      (t : Table) (k : ℕ)
      → IsValid t
      → (r : Bool × Table) × (delete hash t k ≡ some r) × Deletes t k r
  unfolding delete
  delete-Deletes t k v = elim (Bool-cases (t.count == 0)) [
    | inl e ↦ (
      (false, t),
      rw e,
      delete-nothing t k v (scan-of_unused t.entries k (v.counted ∙ (==_iff t.count 0).0 e)),
    )
    | inr e ↦
        let (i, run, outcome) = find_entry-Ends hash t.entries k (room_of_load t v e) in
        elim outcome [
          | inl hit ↦ (
            _,
            rw (e, delete, run, live_of_key (slot t.entries i).key k hit.key),
            delete-hit t k i v hit,
          )
          | inr miss ↦ (
            (false, t),
            rw (e, delete, run, miss.free),
            delete-nothing t k v (IsMiss-scan hash t.entries k i v.placed miss),
          )
        ]
  ]
