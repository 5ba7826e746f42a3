-- ===== src/Regex/Search.antt =====
-- src/runtime/regex_match.c: `csRegexSearch` ends, with captures within the subject.
use cscript.Prelude.{
  ℕ, zero, suc, ◌+◌, ◌-◌, ◌*◌, ◌≤◌, ◌≡◌, refl, inl, inr, Bool, true, false, ◌||◌, List, [], length,
  replicate, length-replicate, Option, none, some, arith, Bool-cases,
}
use cscript.Regex.{Regex, Shared, Result, done, fail, search_next, search_loop, search_from}
use cscript.Regex.Bounds.{IsProgram, has_backref, AllWithin, GoodShared}
use cscript.Regex.Safe.{IsResult, answers, falls, match_from-IsResult}

module _ (regex : Regex) (subject : List ℕ) (program : IsProgram regex)
    (plain : has_backref regex.code ≡ false) where
  -- A search that ended: where, and with which captures.
  pub record Found (start : ℕ) (r : Bool × ℕ × Shared) : Type 0 where
    pub after : start ≤ r.1
    pub before : r.0 ≡ true → r.1 ≤ length subject
    pub within :
        r.0 ≡ true
        → AllWithin (length regex.code) (regex.group_count * 2) (length subject) r.2.slots

  cleared :
      (k : ℕ)
      → AllWithin (length regex.code) (regex.group_count * 2) (length subject) (replicate k none)
  cleared zero = tt
  cleared (suc k) = (tt, cleared k)

  abbrev Ends : ℕ → Option (Bool × ℕ × Shared) → Type 0
  Ends at o = (r : Bool × ℕ × Shared) × (o ≡ some r) × Found at r

  search_next-Found :
      (rest : Shared → Option (Bool × ℕ × Shared)) (at k : ℕ) (r : Result)
      → at ≤ length subject
      → ((s : Shared) → Ends (at + 1) (rest s))
      → IsResult regex subject program k r
      → Ends at (search_next rest at r)
  unfolding search_next
  search_next-Found rest at k (fail e) h more (falls b) = absurd (ground arith)
  search_next-Found rest at k (done matched ended s) h more (answers _ _ _ hsp hs hk) =
      elim (Bool-cases (matched || s.exhausted)) [
        | inl e ↦ (
          (matched, at, s),
          rw e,
          record { after = omega arith; before = λ e. h; within = λ e. hs.within },
        )
        | inr e ↦
            let (r, run, found) = more s in
            (
              r,
              rw e run,
              record {
                after = omega (arith, found.after);
                before = found.before;
                within = found.within;
              },
            )
      ]

  search_loop-Found :
      (m at : ℕ) (s : Shared)
      → at + m ≤ length subject + 1
      → Ends at (search_loop regex subject m at s)
  unfolding search_loop
  search_loop-Found zero at s h =
      ((false, at, s), refl, record { after = omega arith; before = λ e. cc; within = λ e. cc })
  search_loop-Found (suc m) at s h =
      let fresh : Shared = record s { slots = replicate (regex.group_count * 2) none } in
      let good : GoodShared (length regex.code) (regex.group_count * 2) (length subject) fresh =
        record {
          sized = length-replicate (regex.group_count * 2) none;
          within = cleared (regex.group_count * 2);
        } in
      search_next-Found (search_loop regex subject m (at + 1)) at s.steps _ (omega (arith, h))
        (λ t. search_loop-Found m (at + 1) t (omega (arith, h)))
        (match_from-IsResult regex subject program 0 at fresh program.start (omega (arith, h)) good)

  -- For a valid program with no backreference `csRegexSearch` ends: if it finds a match, this starts at or
  -- after `start`, within the subject, and every capture lies within the subject.
  pub search_from-Found :
      (start : ℕ)
      → start ≤ length subject
      → (r : Bool × ℕ × Shared) × (search_from regex subject start ≡ some r) × Found start r
  unfolding search_from
  search_from-Found start h =
      search_loop-Found (length subject + 1 - start) start
        (record { slots = []; steps = 0; exhausted = false }) (omega (arith, h))
