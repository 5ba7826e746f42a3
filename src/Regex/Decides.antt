-- ===== src/Regex/Decides.antt =====
-- src/runtime/regex_match.c: the backtracking of a plain program decides whether it has a matching run,
-- and the search finds the leftmost start.
use cscript.Prelude.{
  ℕ, zero, suc, ◌+◌, ◌-◌, ◌≤◌, ◌<◌, ◌≡◌, ◌⊎◌, refl, inl, inr, Bool, true, false, List, [], ◌∷◌,
  length, get_elem?, ltb, ◌==◌, ==_iff, if◌then◌else◌, Option, some, arith, Bool-cases,
  Option-cases, some-cancel, none≢some,
}
use mathlib.Core.Path.{subst}
use cscript.Regex.{
  Inst, Regex, Thread, Frame, Shared, Result, done, fail, Turn, onward, dead, accept, stop,
  re_match, max_steps, round, follow, backtrack, run, match_from, Call, search_next, search_loop,
  search_from,
}
use cscript.Regex.Search.{search_from-Found}
use cscript.Regex.Bounds.{IsProgram, has_backref}
use cscript.Regex.Accepts.{
  true≢false, is_plain, all_plain, Accepts, Waiting, IsAlive, Keeps, execute-Keeps,
}

fetched_plain :
    (code : List Inst) (k : ℕ) (i : Inst)
    → all_plain code ≡ true
    → get_elem? code k ≡ some i
    → is_plain i.op ≡ true
fetched_plain [] k i p h = absurd (none≢some h)
fetched_plain (j ∷ code) zero i p h =
    subst (λ (i : Inst). is_plain i.op ≡ true) (some-cancel h) (ground arith)
fetched_plain (j ∷ code) (suc k) i p h = fetched_plain code k i (ground arith) h

otherwise {ℓ} : {A : Type ℓ} (b : Bool) (x y z : A) → b ≡ false → (if b then x else y) ≡ z → y ≡ z
otherwise true x y z e h = absurd (true≢false e)
otherwise false x y z e h = h

module _ (regex : Regex) (subject : List ℕ) (plain : all_plain regex.code ≡ true) where
  -- What an answer says of a question `G`, unless the step limit was met.
  abbrev pub Decides : Type 0 → Result → Type 0
  Decides G (done true sp s) = G
  Decides G (done false sp s) = s.exhausted ≡ false → ¬ G
  Decides G (fail e) = Unit {0}

  abbrev Alive : Frame → Type 0
  Alive = IsAlive regex subject

  round-Keeps :
      (body : ℕ → Call) (f : Frame) (s : Shared)
      → Keeps regex subject f (round regex subject body re_match f s)
  round-Keeps body f s = elim (Option-cases (get_elem? regex.code f.pc)) [
    | inl e ↦ rw (e, round) tt
    | inr (i, e) ↦
        rw (e, round)
          (execute-Keeps regex subject body i.op i f s e refl
            (fetched_plain regex.code f.pc i plain e))
  ]

  module _ (G : Type 0) where
    backtrack-Decides :
        (next : Frame → Shared → Result) (f : Frame) (threads : List Thread) (s : Shared)
        → ((g : Frame) (t : Shared) → (G → Alive g) → (Alive g → G) → Decides G (next g t))
        → (G → Waiting regex subject threads)
        → (Waiting regex subject threads → G)
        → Decides G (backtrack next f threads s)
    unfolding backtrack
    backtrack-Decides next f [] s more to from = λ _ g. to g
    backtrack-Decides next f (t ∷ threads) s more to from = more _ _ to from

    follow-Decides :
        (next : Frame → Shared → Result) (f : Frame) (t : Turn)
        → ((g : Frame) (s : Shared) → (G → Alive g) → (Alive g → G) → Decides G (next g s))
        → Keeps regex subject f t
        → (G → Alive f)
        → (Alive f → G)
        → Decides G (follow next f t)
    unfolding follow
    follow-Decides next f (onward g s) more (ahead, back) to from =
        more g s (λ x. ahead (to x)) (λ a. from (back a))
    follow-Decides next f (dead s) more no_match to from =
        backtrack-Decides next f f.threads s more (λ x. rest (to x)) (λ w. from (inr w))
      where
        rest : Alive f → Waiting regex subject f.threads
        rest (inl a) = absurd (no_match a)
        rest (inr w) = w
    follow-Decides next f (accept s) more a to from = from (inl a)
    follow-Decides next f (stop e) more k to from = tt

    run-Decides :
        (fuel : ℕ) (f : Frame) (s : Shared)
        → (G → Alive f)
        → (Alive f → G)
        → Decides G (run regex subject fuel re_match f s)
    unfolding run
    run-Decides zero f s to from = elim (Bool-cases (ltb max_steps (s.steps + 1))) [
      | inl e ↦ rw e (λ x. cc)
      | inr e ↦ rw e tt
    ]
    run-Decides (suc fuel) f s to from = elim (Bool-cases (ltb max_steps (s.steps + 1))) [
      | inl e ↦ rw e (λ x. cc)
      | inr e ↦ rw e (
          follow-Decides (run regex subject fuel re_match) f _ (run-Decides fuel)
            (round-Keeps _ f _) to from)
    ]

  -- What `matchFrom` answers of a plain program is right, unless it met the step limit.
  pub match_from-Decides :
      (pc sp : ℕ) (s : Shared)
      → Decides (Accepts regex subject pc sp) (match_from regex subject pc sp s)
  unfolding match_from
  match_from-Decides pc sp s =
      run-Decides (Accepts regex subject pc sp) (max_steps + 1 - s.steps)
        (record { pc = pc; sp = sp; threads = []; trail = [] }) s inl whole
    where
      whole : Accepts regex subject pc sp ⊎ ⊥ → Accepts regex subject pc sp
      whole (inl a) = a
      whole (inr b) = absurd b

  -- The answer of a search from `start`: the leftmost start of a match, or none at all unless the step
  -- limit was met.
  pub record Leftmost (start : ℕ) (r : Bool × ℕ × Shared) : Type 0 where
    pub after : start ≤ r.1
    pub matches : r.0 ≡ true → Accepts regex subject 0 r.1
    pub first : r.0 ≡ true → (k : ℕ) → start ≤ k → k < r.1 → ¬ Accepts regex subject 0 k
    pub fails :
        r.0 ≡ false
        → r.2.exhausted ≡ false
        → (k : ℕ) → start ≤ k
        → k ≤ length subject
        → ¬ Accepts regex subject 0 k

  -- A start that does not match is passed over.
  passed :
      (at : ℕ) (r : Bool × ℕ × Shared)
      → ¬ Accepts regex subject 0 at
      → Leftmost (at + 1) r
      → Leftmost at r
  passed at r no_match l = record {
    after = omega (arith, l.after);
    matches = l.matches;
    first = λ e k h below. elim (Bool-cases (k == at)) [
      | inl q ↦ λ a. no_match (subst (Accepts regex subject 0) ((==_iff k at).0 q) a)
      | inr q ↦ l.first e k (ground arith) below
    ];
    fails = λ e x k h below. elim (Bool-cases (k == at)) [
      | inl q ↦ λ a. no_match (subst (Accepts regex subject 0) ((==_iff k at).0 q) a)
      | inr q ↦ l.fails e x k (ground arith) below
    ];
  }

  search_next-Leftmost :
      (rest : Shared → Option (Bool × ℕ × Shared)) (at : ℕ) (o : Result)
      → Decides (Accepts regex subject 0 at) o
      → ((s : Shared) (r : Bool × ℕ × Shared) → rest s ≡ some r → Leftmost (at + 1) r)
      → (r : Bool × ℕ × Shared) → search_next rest at o ≡ some r
      → Leftmost at r
  unfolding search_next
  search_next-Leftmost rest at (fail e) d more r h = absurd (none≢some h)
  search_next-Leftmost rest at (done true ended s) d more r h =
      subst (Leftmost at) (some-cancel h) (record {
        after = omega arith;
        matches = λ e. d;
        first = λ e k above below. absurd (omega (arith, above, below));
        fails = λ e. cc;
      })
  search_next-Leftmost rest at (done false ended s) d more r h = elim (Bool-cases s.exhausted) [
    | inl e ↦ subst (Leftmost at) (some-cancel (rw e at h)) (record {
      after = omega arith;
      matches = λ q. cc;
      first = λ q. cc;
      fails = λ q x. absurd (true≢false x);
    })
    | inr e ↦
        passed at r (d e)
          (more s r (otherwise s.exhausted (some (false, at, s)) (rest s) (some r) e h))
  ]

  search_loop-Leftmost :
      (m at : ℕ) (s : Shared) (r : Bool × ℕ × Shared)
      → at + m ≡ length subject + 1
      → search_loop regex subject m at s ≡ some r
      → Leftmost at r
  unfolding search_loop
  search_loop-Leftmost zero at s r q h = subst (Leftmost at) (some-cancel h) (record {
    after = omega arith;
    matches = λ e. cc;
    first = λ e. cc;
    fails = λ e x k above below. absurd (omega (arith, above, below, q));
  })
  search_loop-Leftmost (suc m) at s r q h =
      search_next-Leftmost (search_loop regex subject m (at + 1)) at _ (match_from-Decides 0 at _)
        (λ t u e. search_loop-Leftmost m (at + 1) t u (omega (arith, q)) e) r h

plain_backref : (code : List Inst) → all_plain code ≡ true → has_backref code ≡ false
plain_backref [] h = refl
plain_backref (i ∷ code) h = ground (arith, plain_backref code (ground arith))

-- For a valid program with no lookaround and no backreference, `csRegexSearch` from a start within the
-- subject ends; its match starts at the first place where a run of the program accepts, and without a
-- match no place accepts, unless the step limit was met.
pub search_from-Leftmost :
    (regex : Regex) (subject : List ℕ)
    → IsProgram regex
    → (plain : all_plain regex.code ≡ true) → (start : ℕ) → start ≤ length subject
    → (r : Bool × ℕ × Shared) × (search_from regex subject start ≡ some r)
      × Leftmost regex subject plain start r
unfolding search_from
search_from-Leftmost regex subject program plain start h =
    let (r, run, found) =
      search_from-Found regex subject program (plain_backref regex.code plain) start h in
    (
      r,
      run,
      search_loop-Leftmost regex subject plain (length subject + 1 - start) start _ r
          (omega (arith, h)) run,
    )
