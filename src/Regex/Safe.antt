-- ===== src/Regex/Safe.antt =====
-- src/runtime/regex_match.c: a run of a valid program ends, within the program, the captures and the
-- subject.
use cscript.Prelude.{
  fetch_some, ℕ, zero, suc, ◌+◌, ◌-◌, ◌*◌, ◌≤◌, ◌<◌, ◌≡◌, refl, ◌∙◌, inl, inr, Bool, true, false,
  not, ◌&&◌, List, [], ◌∷◌, length, get_elem?, length-set, ltb, leb, ◌==◌, bool_eq, if◌then◌else◌,
  none, some, arith, tests, Bool-cases,
}
use mathlib.Core.Path.{subst}
use cscript.Regex.{
  Op, Inst, Regex, Slot, Thread, Frame, Shared, before_subject, Result, done, fail, Turn, onward,
  dead, accept, stop, re_char, re_any, re_class, re_split, re_jump, re_save, re_assert_bol,
  re_assert_eol, re_assert_word, re_backref, re_look, re_lookbehind, re_look_end, re_match,
  max_steps, resume, assert, take_byte, take_class, same_span, backref, backref_slots, resolve,
  look_back, look_next, looked, save, execute, round, follow, backtrack, run, match_from, Call,
}
use cscript.Regex.Bounds.{
  valid_inst, IsProgram, IsClassed, fetch-IsClassed, has_backref, fetch_valid, fetch-backref,
  GoodThreads, GoodFrame, GoodShared, AllWithin-set, AllWithin-fetch, unwind-Good,
}

module _ (regex : Regex) (subject : List ℕ) (program : IsProgram regex) where
  abbrev pub count : ℕ
  count = length regex.code

  abbrev pub size : ℕ
  size = regex.group_count * 2

  abbrev pub n : ℕ
  n = length subject

  abbrev pub IsFrame : Frame → Type 0
  IsFrame = GoodFrame count size n

  abbrev pub IsShared : Shared → Type 0
  IsShared = GoodShared count size n

  -- The only fault left is that of a backreference that moves the cursor below 0.
  data IsTurn (k : ℕ) : Turn → Type 0 where
    goes : (f : Frame) (s : Shared) → IsFrame f → IsShared s → k ≤ s.steps → IsTurn k (onward f s)
    dies : (s : Shared) → IsShared s → k ≤ s.steps → IsTurn k (dead s)
    ends : (s : Shared) → IsShared s → k ≤ s.steps → IsTurn k (accept s)
    falls : has_backref regex.code ≡ true → IsTurn k (stop before_subject)

  pub data IsResult (k : ℕ) : Result → Type 0 where
    answers :
        (b : Bool) (sp : ℕ) (s : Shared)
        → sp ≤ n
        → IsShared s
        → k ≤ s.steps
        → IsResult k (done b sp s)
    falls : has_backref regex.code ≡ true → IsResult k (fail before_subject)

  IsTurn-if :
      (k : ℕ) (b : Bool) (x y : Turn)
      → (b ≡ true → IsTurn k x)
      → (b ≡ false → IsTurn k y)
      → IsTurn k (if b then x else y)
  IsTurn-if k true x y hx hy = hx refl
  IsTurn-if k false x y hx hy = hy refl

  module _ (f : Frame) (s : Shared) (frame : IsFrame f) (shared : IsShared s) where
    die : IsTurn s.steps (dead s)
    die = dies s shared (omega arith)

    -- The run goes on elsewhere, with the same alternatives.
    moves :
        (pc sp : ℕ)
        → pc < count
        → sp ≤ n
        → IsTurn s.steps (onward (record f { pc = pc; sp = sp }) s)
    moves pc sp hp hs =
        goes (record f { pc = pc; sp = sp }) s
          (record { pc = hp; sp = hs; threads = frame.threads; trail = frame.trail }) shared
          (omega arith)

    assert-IsTurn : (b : Bool) → f.pc + 1 < count → IsTurn s.steps (assert b f s)
    assert-IsTurn b h = IsTurn-if _ b _ _ (λ _. moves (f.pc + 1) f.sp h frame.sp) (λ _. die)

    take_byte-IsTurn :
        (b : Bool) → f.pc + 1 < count → IsTurn s.steps (take_byte regex subject b f s)
    take_byte-IsTurn b h =
        IsTurn-if _ (ltb f.sp n && b) _ _ (λ e. moves (f.pc + 1) (f.sp + 1) h (ground arith))
          (λ _. die)

    backref-IsTurn :
        (from to : Slot)
        → f.pc + 1 < count
        → has_backref regex.code ≡ true
        → IsTurn s.steps (backref regex subject from to f s)
    unfolding backref
    backref-IsTurn none to h b = moves (f.pc + 1) f.sp h frame.sp
    backref-IsTurn (some from) none h b = moves (f.pc + 1) f.sp h frame.sp
    backref-IsTurn (some from) (some to) h b =
        let same = same_span regex.ignore_case subject f.sp from (to - from) in
        let ahead = (leb (f.sp + (to - from)) n && same) in
        IsTurn-if _ (leb from to) _ _
          (λ e.
            IsTurn-if _ ahead _ _ (λ e. moves (f.pc + 1) (f.sp + (to - from)) h (ground arith))
              (λ _. die))
          (λ e.
            IsTurn-if _ (leb (from - to) f.sp) _ _
              (λ _. moves (f.pc + 1) (f.sp - (from - to)) h (omega (arith, frame.sp)))
              (λ _. falls b))

    save-IsTurn : (i : Inst) → f.pc + 1 < count → i.x < size → IsTurn s.steps (save i f s)
    unfolding save
    save-IsTurn i h hx =
        let (old, e) = fetch_some s.slots i.x (omega (arith, shared.sized)) in
        rw (e, save)
          (goes _ _
            (record {
              pc = h;
              sp = frame.sp;
              threads = frame.threads;
              trail =
                  (hx, AllWithin-fetch count size n s.slots i.x old shared.within e, frame.trail);
            })
            (record {
              sized = length-set s.slots i.x (some f.sp) ∙ shared.sized;
              within = AllWithin-set count size n s.slots i.x (some f.sp) shared.within frame.sp;
            })
            (omega arith))

    backref_slots-IsTurn :
        (x : ℕ)
        → f.pc + 1 < count
        → x * 2 + 1 < size
        → has_backref regex.code ≡ true
        → IsTurn s.steps (
            backref_slots regex subject
              (get_elem? s.slots (x * 2))
              (get_elem? s.slots (x * 2 + 1))
              f
              s)
    unfolding backref_slots
    backref_slots-IsTurn x h hx b =
        let (from, e) = fetch_some s.slots (x * 2) (omega (arith, shared.sized)) in
        let (to, e') = fetch_some s.slots (x * 2 + 1) (omega (arith, shared.sized)) in
        rw (e, e', backref_slots) (backref-IsTurn from to h b)

  -- A state that a run of a body leaves, with the slots as they were before.
  restored : (s t : Shared) → IsShared s → IsShared t → IsShared (record t { slots = s.slots })
  restored s t hs ht = record { sized = hs.sized; within = hs.within }

  resolve-IsTurn :
      (i : Inst) (f : Frame) (s t : Shared) (held : Bool)
      → IsFrame f
      → IsShared s
      → IsShared t
      → i.y < count
      → s.steps ≤ t.steps
      → IsTurn s.steps (resolve i f s.slots held t)
  unfolding resolve
  resolve-IsTurn i f s t held frame hs ht h k =
      let back : Shared = record t { slots = s.slots } in
      let kept = if held && (i.x == 0) then t else back in
      let good : IsShared kept = kept_lem (held && (i.x == 0)) in
      let later : s.steps ≤ kept.steps = steps_lem (held && (i.x == 0)) in
      IsTurn-if _ t.exhausted _ _ (λ _. dies t ht k)
        (λ _.
          IsTurn-if _ (bool_eq held (i.x == 0)) _ _
            (λ _.
              goes (record f { pc = i.y }) kept
                (record { pc = h; sp = frame.sp; threads = frame.threads; trail = frame.trail })
                good later)
            (λ _. dies kept good later))
    where
      kept_lem : (b : Bool) → IsShared (if b then t else record t { slots = s.slots })
      kept_lem true = ht
      kept_lem false = restored s t hs ht

      steps_lem : (b : Bool) → s.steps ≤ (if b then t else record t { slots = s.slots }).steps
      steps_lem true = k
      steps_lem false = k

  looked-IsTurn :
      (i : Inst) (f : Frame) (s : Shared) (r : Result)
      → IsFrame f
      → IsShared s
      → i.y < count
      → IsResult s.steps r
      → IsTurn s.steps (looked i f s.slots r)
  unfolding looked
  looked-IsTurn i f s (done held sp t) frame hs h (answers _ _ _ _ ht k) =
      resolve-IsTurn i f s t held frame hs ht h k
  looked-IsTurn i f s (fail e) frame hs h (falls b) = falls b

  -- What the run of a body promises from any state with at least `k` steps.
  abbrev IsCall : ℕ → Call → Type 0
  IsCall k call =
      (sp : ℕ) (s : Shared) → sp ≤ n → IsShared s → k ≤ s.steps → IsResult s.steps (call sp s)

  IsResult-if :
      (k : ℕ) (b : Bool) (x y : Result)
      → IsResult k x
      → IsResult k y
      → IsResult k (if b then x else y)
  IsResult-if k true x y hx hy = hx
  IsResult-if k false x y hx hy = hy

  IsResult-le : (j k : ℕ) (r : Result) → j ≤ k → IsResult k r → IsResult j r
  IsResult-le j k (done b sp s) h (answers _ _ _ hs hg hk) = answers b sp s hs hg (omega arith)
  IsResult-le j k (fail e) h (falls b) = falls b

  look_next-IsResult :
      (k : ℕ) (rest : Shared → Result) (sp : ℕ) (before : Shared) (r : Result)
      → ((t : Shared)
          → IsShared t
          → k ≤ t.steps
          → IsResult t.steps (rest (record t { slots = before.slots })))
      → sp ≤ n
      → IsResult k r
      → IsResult k (look_next rest sp before.slots r)
  unfolding look_next
  look_next-IsResult k rest sp before (fail e) more hsp (falls b) = falls b
  look_next-IsResult k rest sp before (done matched ended t) more hsp (answers _ _ _ _ ht kt) =
      IsResult-if _ (matched && (ended == sp)) _ _ (answers true sp t hsp ht kt) (
        IsResult-if _ (not matched && t.exhausted) _ _ (answers false sp t hsp ht kt)
          (IsResult-le k t.steps _ kt (more t ht kt)))

  look_back-IsResult :
      (k : ℕ) (call : Call) (sp : ℕ) (before : Shared) (m : ℕ) (s : Shared)
      → IsCall k call
      → sp ≤ n
      → m ≤ n + 1
      → IsShared before
      → IsShared s
      → k ≤ s.steps
      → IsResult s.steps (look_back call sp before.slots m s)
  unfolding look_back
  look_back-IsResult k call sp before zero s c hsp hm hb hs hk =
      answers false sp s hsp hs (omega arith)
  look_back-IsResult k call sp before (suc from) s c hsp hm hb hs hk =
      look_next-IsResult s.steps (look_back call sp before.slots from) sp before (call from s)
        (λ t ht kt.
          look_back-IsResult k call sp before from (record t { slots = before.slots }) c hsp
            (omega (arith, hm)) hb (restored before t hb ht) (omega (arith, kt, hk)))
        hsp (c from s (omega (arith, hm)) hs hk)

  execute-IsTurn :
      (body : ℕ → Call) (stop_op op : Op) (i : Inst) (f : Frame) (s : Shared)
      → ((pc : ℕ) → pc < count → IsCall s.steps (body pc))
      → IsFrame f
      → IsShared s
      → valid_inst count size f.pc op i.x i.y ≡ true
      → IsClassed (length regex.classes) op i.x
      → (op ≡ re_backref → has_backref regex.code ≡ true)
      → IsTurn s.steps (execute regex subject body stop_op op i f s)
  unfolding execute take_class
  execute-IsTurn body stop_op re_char i f s c hf hs v k b =
      take_byte-IsTurn f s hf hs _ (omega tests)
  execute-IsTurn body stop_op re_any i f s c hf hs v k b =
      take_byte-IsTurn f s hf hs _ (omega tests)
  execute-IsTurn body stop_op re_class i f s c hf hs v k b =
      let (bits, e) = fetch_some regex.classes i.x k in
      rw (e, take_class) (take_byte-IsTurn f s hf hs _ (omega tests))
  execute-IsTurn body stop_op re_split i f s c hf hs v k b =
      goes _ s
        (record {
          pc = ground arith;
          sp = hf.sp;
          threads = (ground arith, hf.sp, hf.threads);
          trail = hf.trail;
        })
        hs (omega arith)
  execute-IsTurn body stop_op re_jump i f s c hf hs v k b =
      moves f s hf hs i.x f.sp (ground arith) hf.sp
  execute-IsTurn body stop_op re_save i f s c hf hs v k b =
      save-IsTurn f s hf hs i (ground arith) (ground arith)
  execute-IsTurn body stop_op re_assert_bol i f s c hf hs v k b =
      assert-IsTurn f s hf hs _ (omega tests)
  execute-IsTurn body stop_op re_assert_eol i f s c hf hs v k b =
      assert-IsTurn f s hf hs _ (omega tests)
  execute-IsTurn body stop_op re_assert_word i f s c hf hs v k b =
      assert-IsTurn f s hf hs _ (omega tests)
  execute-IsTurn body stop_op re_backref i f s c hf hs v k b =
      backref_slots-IsTurn f s hf hs i.x (ground arith) (ground arith) (b refl)
  execute-IsTurn body stop_op re_look i f s c hf hs v k b =
      looked-IsTurn i f s _ hf hs (ground arith)
        (c (f.pc + 1) (ground arith) f.sp s hf.sp hs (omega arith))
  execute-IsTurn body stop_op re_lookbehind i f s c hf hs v k b =
      looked-IsTurn i f s _ hf hs (ground arith) (
        look_back-IsResult s.steps (body (f.pc + 1)) f.sp s (f.sp + 1) s
          (c (f.pc + 1) (ground arith)) hf.sp (omega (arith, hf.sp)) hs hs (omega arith))
  execute-IsTurn body stop_op re_look_end i f s c hf hs v k b =
      IsTurn-if _ _ _ _ (λ _. ends s hs (omega arith)) (λ _. die f s hf hs)
  execute-IsTurn body stop_op re_match i f s c hf hs v k b =
      IsTurn-if _ _ _ _ (λ _. ends s hs (omega arith)) (λ _. die f s hf hs)

  resume-IsTurn :
      (t : Thread) (threads : List Thread) (f : Frame) (s : Shared)
      → IsFrame f
      → f.threads ≡ t ∷ threads
      → IsShared s
      → IsFrame (resume t threads f s).0 × IsShared (resume t threads f s).1
  resume-IsTurn t threads f s hf e hs =
      let (trail, within, same) =
        unwind-Good count size n t.trail f.trail s.slots hf.trail hs.within in
      let (pc, sp, rest) = subst (GoodThreads count size n) e hf.threads in
      (
        record { pc = pc; sp = sp; threads = rest; trail = trail },
        record { sized = same ∙ hs.sized; within = within },
      )

  abbrev Run : Type 0
  Run = Frame → Shared → Result

  follow-IsResult :
      (k : ℕ) (next : Run) (f : Frame) (t : Turn)
      → ((g : Frame) (s : Shared)
          → IsFrame g
          → IsShared s
          → k ≤ s.steps
          → IsResult s.steps (next g s))
      → IsFrame f
      → IsTurn k t
      → IsResult k (follow next f t)
  unfolding follow backtrack
  follow-IsResult k next f (onward g s) more hf (goes _ _ hg hs hk) =
      IsResult-le k s.steps _ hk (more g s hg hs hk)
  follow-IsResult k next f (dead s) more hf (dies _ hs hk) = back f.threads refl
    where
      back : (threads : List Thread) → f.threads ≡ threads → IsResult k (backtrack next f threads s)
      back [] e = answers false f.sp s hf.sp hs hk
      back (t ∷ threads) e =
          let (hg, hu) = resume-IsTurn t threads f s hf e hs in
          IsResult-le k s.steps _ hk
            (more (resume t threads f s).0 (resume t threads f s).1 hg hu hk)
  follow-IsResult k next f (accept s) more hf (ends _ hs hk) = answers true f.sp s hf.sp hs hk
  follow-IsResult k next f (stop e) more hf (falls b) = falls b

  spent :
      (f : Frame) (s : Shared)
      → IsFrame f
      → IsShared s
      → IsResult s.steps (done false f.sp (record s { steps = s.steps + 1; exhausted = true }))
  spent f s hf hs =
      answers false f.sp _ hf.sp (record { sized = hs.sized; within = hs.within }) (omega arith)

  round-IsTurn :
      (body : ℕ → Call) (stop_op : Op) (f : Frame) (s : Shared)
      → ((pc : ℕ) → pc < count → IsCall s.steps (body pc))
      → IsFrame f
      → IsShared s
      → IsTurn s.steps (round regex subject body stop_op f s)
  round-IsTurn body stop_op f s c hf hs =
      let (i, e) = fetch_some regex.code f.pc hf.pc in
      rw (e, round)
        (execute-IsTurn body stop_op i.op i f s c hf hs (fetch_valid regex f.pc i program e)
          (fetch-IsClassed (length regex.classes) regex.code f.pc i program.classed e)
          (fetch-backref regex.code f.pc i e))

  run-IsResult :
      (fuel : ℕ) (stop_op : Op) (f : Frame) (s : Shared)
      → max_steps < s.steps + fuel
      → IsFrame f
      → IsShared s
      → IsResult s.steps (run regex subject fuel stop_op f s)
  unfolding run
  run-IsResult zero stop_op f s h hf hs = elim (Bool-cases (ltb max_steps (s.steps + 1))) [
    | inl e ↦ rw e (spent f s hf hs)
    | inr e ↦ absurd (ground (arith, h))
  ]
  run-IsResult (suc fuel) stop_op f s h hf hs = elim (Bool-cases (ltb max_steps (s.steps + 1))) [
    | inl e ↦ rw e (spent f s hf hs)
    | inr e ↦
        let counted : Shared = record s { steps = s.steps + 1 } in
        let shared : IsShared counted = record { sized = hs.sized; within = hs.within } in
        let body : ℕ → Call = λ pc sp.
          run regex subject fuel re_look_end
            (record { pc = pc; sp = sp; threads = []; trail = [] }) in
        let call : (pc : ℕ) → pc < count → IsCall counted.steps (body pc) = λ pc hp sp t hsp ht kt.
          run-IsResult fuel re_look_end (record { pc = pc; sp = sp; threads = []; trail = [] }) t
            (omega (arith, h, kt)) (record { pc = hp; sp = hsp; threads = tt; trail = tt }) ht in
        let turn = round-IsTurn body stop_op f counted call hf shared in
        rw e (
          IsResult-le s.steps counted.steps _ (omega arith) (
            follow-IsResult counted.steps (run regex subject fuel stop_op) f _
              (λ g t hg ht kt. run-IsResult fuel stop_op g t (omega (arith, h, kt)) hg ht) hf turn))
  ]

  -- From any place of a valid program and any cursor within the subject, with captures within it,
  -- `matchFrom` ends within the step limit and leaves a cursor and captures within the subject, or it
  -- meets a backreference that would move the cursor below 0; every instruction, slot and class that it reads
  -- is there.
  pub match_from-IsResult :
      (pc sp : ℕ) (s : Shared)
      → pc < count
      → sp ≤ n
      → IsShared s
      → IsResult s.steps (match_from regex subject pc sp s)
  unfolding match_from
  match_from-IsResult pc sp s hp hsp hs =
      run-IsResult (max_steps + 1 - s.steps) re_match _ s (omega arith)
        (record { pc = hp; sp = hsp; threads = tt; trail = tt }) hs
