-- ===== src/Regex.antt =====
-- src/runtime/regex_match.c and src/runtime/regex_internal.h: running a compiled pattern against a
-- subject. Threads and the trail are lists with the latest entry first; a slot that is -1 is `none`.
-- What C leaves undefined, a read past the program or the slots or a cursor below 0, ends a run with a
-- `Fault`.

pub mod Bounds
pub mod Classes
pub mod Compile
pub mod Targets
pub mod Repeat
mod Classed
mod Grows
mod Members
mod Atoms
mod Parsed
pub mod Compiled
pub mod Safe
pub mod Search
pub mod Accepts
pub mod Decides
mod Tests
mod CompileTests
use cscript.Prelude.{
  same_bytes, in_range, ℕ, zero, suc, ◌+◌, ◌-◌, ◌*◌, ◌/◌, ◌%◌, ◌^◌, Bool, true, false, not, ◌&&◌,
  ◌||◌, List, [], ◌∷◌, length, get_or, get_elem?, set, replicate, ltb, leb, ◌==◌, if◌then◌else◌,
  bool_eq, Option, none, some,
}

-- `ReOp`
pub data Op : Type 0 where
  re_char : Op
  re_any : Op
  re_class : Op
  re_split : Op
  re_jump : Op
  re_save : Op
  re_assert_bol : Op
  re_assert_eol : Op
  re_assert_word : Op
  re_backref : Op
  re_look : Op
  re_lookbehind : Op
  re_look_end : Op
  re_match : Op

-- `ReInst`
pub record Inst : Type 0 where
  pub op : Op
  pub x : ℕ
  pub y : ℕ

-- `Regex`, without the capacities; a class is the bytes of its set, a name is its bytes.
pub record Regex : Type 0 where
  pub code : List Inst
  pub classes : List (List ℕ)
  pub group_count : ℕ
  pub names : List (List ℕ × ℕ)
  pub ignore_case : Bool
  pub multiline : Bool
  pub dot_all : Bool

-- `CS_REGEX_MAX_STEPS`
pub max_steps : ℕ
max_steps = 1_000_000

-- A position, or -1.
abbrev pub Slot : Type 0
Slot = Option ℕ

-- `Thread`
pub record Thread : Type 0 where
  pub pc : ℕ
  pub sp : ℕ
  pub trail : ℕ

-- `TrailEntry`
pub record TrailEntry : Type 0 where
  pub slot : ℕ
  pub value : Slot

-- The locals of `matchFrom`.
pub record Frame : Type 0 where
  pub pc : ℕ
  pub sp : ℕ
  pub threads : List Thread
  pub trail : List TrailEntry

-- What `matchFrom` shares with its caller through pointers.
pub record Shared : Type 0 where
  pub slots : List Slot
  pub steps : ℕ
  pub exhausted : Bool

pub data Fault : Type 0 where
  past_program : Fault
  past_slots : Fault
  past_classes : Fault
  before_subject : Fault
  out_of_fuel : Fault

-- `done` has the answer of `matchFrom` and the cursor that it writes to `endSp`.
pub data Result : Type 0 where
  done : Bool → ℕ → Shared → Result
  fail : Fault → Result

-- `csRegexClassHas`
abbrev pub class_has : List ℕ → ℕ → Bool
class_has bits byte = not (get_or bits (byte / 8) 0 / 2 ^ (byte % 8) % 2 == 0)

-- `csRegexIsWordByte`
abbrev pub is_word_byte : ℕ → Bool
is_word_byte c = in_range c b'a' b'z' || in_range c b'A' b'Z' || in_range c b'0' b'9' || c == b'_'

abbrev pub fold_byte : ℕ → ℕ
fold_byte c = if in_range c b'A' b'Z' then c + 32 else c

-- `sameByte`
unfoldable pub same_byte : ℕ → ℕ → Bool → Bool
same_byte a b ignore_case =
    if a == b then true else (if ignore_case then fold_byte a == fold_byte b else false)

abbrev pub byte_at : List ℕ → ℕ → ℕ
byte_at subject i = get_or subject i 0

-- The comparison of a backreference, `span` bytes long.
unfoldable pub same_span : Bool → List ℕ → ℕ → ℕ → ℕ → Bool
same_span ignore_case subject sp from zero = true
same_span ignore_case subject sp from (suc span) =
    same_byte (byte_at subject sp) (byte_at subject from) ignore_case
    && same_span ignore_case subject (suc sp) (suc from) span

-- The word boundary of `RE_ASSERT_WORD`.
unfoldable pub at_boundary : List ℕ → ℕ → Bool
at_boundary subject sp =
    let before = ltb 0 sp && is_word_byte (byte_at subject (sp - 1)) in
    let after = ltb sp (length subject) && is_word_byte (byte_at subject sp) in
    not (bool_eq before after)

-- What one instruction does to the run.
pub data Turn : Type 0 where
  onward : Frame → Shared → Turn
  dead : Shared → Turn
  accept : Shared → Turn
  stop : Fault → Turn

-- An instruction that takes nothing.
abbrev pub assert : Bool → Frame → Shared → Turn
assert test f s = if test then onward (record f { pc = f.pc + 1 }) s else dead s

-- The end of a lookaround: whether it holds, and the slots as they were if it keeps none.
unfoldable pub resolve : Inst → Frame → List Slot → Bool → Shared → Turn
resolve i f saved held s =
    let wanted = i.x == 0 in
    let kept = if held && wanted then s else record s { slots = saved } in
    if s.exhausted
    then dead s
    else (if bool_eq held wanted then onward (record f { pc = i.y }) kept else dead kept)

-- A run of the body of a lookaround from a position.
abbrev pub Call : Type 0
Call = ℕ → Shared → Result

-- One round of the loop of `RE_LOOKBEHIND` behind the run of the body; `rest` is the rounds after it.
unfoldable pub look_next : (Shared → Result) → ℕ → List Slot → Result → Result
look_next rest sp saved (fail e) = fail e
look_next rest sp saved (done matched ended s) =
    if matched && (ended == sp)
    then done true sp s
    else (if not matched && s.exhausted then done false sp s else rest (record s { slots = saved }))

-- The loop of `RE_LOOKBEHIND`, for the start positions below `n`.
unfoldable pub look_back : Call → ℕ → List Slot → ℕ → Shared → Result
look_back call sp saved zero s = done false sp s
look_back call sp saved (suc from) s =
    look_next (look_back call sp saved from) sp saved (call from s)

-- The end of a run of a body, as `RE_LOOK` and `RE_LOOKBEHIND` read it.
unfoldable pub looked : Inst → Frame → List Slot → Result → Turn
looked i f saved (fail e) = stop e
looked i f saved (done held ended s) = resolve i f saved held s

unfoldable pub save : Inst → Frame → Shared → Turn
save i f s = elim (get_elem? s.slots i.x) [
  | none ↦ stop past_slots
  | some old ↦
      onward (record f { pc = f.pc + 1; trail = record { slot = i.x; value = old } ∷ f.trail })
        (record s { slots = set s.slots i.x (some f.sp) })
]

-- Reaching the end of a program or of a body; `stop_op` is the one that is asked for.
abbrev pub is_end : Op → Op → Bool
is_end re_match re_match = true
is_end re_look_end re_look_end = true
is_end op stop_op = false

-- The captures undone down to a length of the trail.
unfoldable pub unwind : ℕ → List TrailEntry → List Slot → List TrailEntry × List Slot
unwind n [] slots = ([], slots)
unwind n (t ∷ trail) slots =
    let rest = unwind n trail (set slots t.slot t.value) in
    if ltb n (suc (length trail)) then rest else (t ∷ trail, slots)

-- Taking the most recent alternative.
abbrev pub resume : Thread → List Thread → Frame → Shared → Frame × Shared
resume t threads f s =
    let (trail, slots) = unwind t.trail f.trail s.slots in
    (record { pc = t.pc; sp = t.sp; threads = threads; trail = trail }, record s { slots = slots })

-- `if (!alive)`: taking the most recent alternative, if there is one.
unfoldable pub backtrack : (Frame → Shared → Result) → Frame → List Thread → Shared → Result
backtrack next f [] s = done false f.sp s
backtrack next f (t ∷ threads) s = let (g, u) = resume t threads f s in next g u

-- The end of a round; `next` is the rounds after it.
unfoldable pub follow : (Frame → Shared → Result) → Frame → Turn → Result
follow next f (onward g s) = next g s
follow next f (dead s) = backtrack next f f.threads s
follow next f (accept s) = done true f.sp s
follow next f (stop e) = fail e

-- The end of one round of `csRegexSearch`; `rest` is the rounds after it.
unfoldable pub search_next :
    (Shared → Option (Bool × ℕ × Shared)) → ℕ → Result → Option (Bool × ℕ × Shared)
search_next rest at (fail e) = none
search_next rest at (done matched ended s) =
    if matched || s.exhausted then some (matched, at, s) else rest s

module _ (regex : Regex) (subject : List ℕ) where
  -- An instruction that takes a byte if a test holds of it.
  abbrev pub take_byte : Bool → Frame → Shared → Turn
  take_byte test f s =
      if ltb f.sp (length subject) && test
      then onward (record f { pc = f.pc + 1; sp = f.sp + 1 }) s
      else dead s

  -- `RE_BACKREF` with the group's slots; a span that runs backwards compares no byte and moves the
  -- cursor back.
  unfoldable pub backref : Slot → Slot → Frame → Shared → Turn
  backref none to f s = onward (record f { pc = f.pc + 1 }) s
  backref (some from) none f s = onward (record f { pc = f.pc + 1 }) s
  backref (some from) (some to) f s =
      if leb from to
      then (if leb (f.sp + (to - from)) (length subject)
            && same_span regex.ignore_case subject f.sp from (to - from)
          then onward (record f { pc = f.pc + 1; sp = f.sp + (to - from) }) s
          else dead s)
      else (if leb (from - to) f.sp
          then onward (record f { pc = f.pc + 1; sp = f.sp - (from - to) }) s
          else stop before_subject)

  unfoldable pub backref_slots : Option Slot → Option Slot → Frame → Shared → Turn
  backref_slots none to f s = stop past_slots
  backref_slots (some from) none f s = stop past_slots
  backref_slots (some from) (some to) f s = backref from to f s

  -- `RE_CLASS` with what is at the index, which is not checked in C.
  unfoldable pub take_class : Option (List ℕ) → Frame → Shared → Turn
  take_class none f s = if ltb f.sp (length subject) then stop past_classes else dead s
  take_class (some bits) f s = take_byte (class_has bits (byte_at subject f.sp)) f s

  -- The `switch` of `matchFrom`; `body` runs the body of a lookaround, from the next instruction.
  unfoldable pub execute : (ℕ → Call) → Op → Op → Inst → Frame → Shared → Turn
  execute body stop_op re_char i f s = take_byte (byte_at subject f.sp == i.x) f s
  execute body stop_op re_any i f s =
      take_byte (regex.dot_all || not (byte_at subject f.sp == b'\n')) f s
  execute body stop_op re_class i f s = take_class (get_elem? regex.classes i.x) f s
  execute body stop_op re_split i f s =
      onward
        (record f {
          pc = i.x;
          threads = record { pc = i.y; sp = f.sp; trail = length f.trail } ∷ f.threads;
        })
        s
  execute body stop_op re_jump i f s = onward (record f { pc = i.x }) s
  execute body stop_op re_save i f s = save i f s
  execute body stop_op re_assert_bol i f s =
      assert (f.sp == 0 || regex.multiline && (byte_at subject (f.sp - 1) == b'\n')) f s
  execute body stop_op re_assert_eol i f s =
      assert (f.sp == length subject || regex.multiline && (byte_at subject f.sp == b'\n')) f s
  execute body stop_op re_assert_word i f s =
      assert (bool_eq (at_boundary subject f.sp) (i.x == 1)) f s
  execute body stop_op re_backref i f s =
      backref_slots (get_elem? s.slots (i.x * 2)) (get_elem? s.slots (i.x * 2 + 1)) f s
  execute body stop_op re_look i f s = looked i f s.slots (body (f.pc + 1) f.sp s)
  execute body stop_op re_lookbehind i f s =
      looked i f s.slots (look_back (body (f.pc + 1)) f.sp s.slots (f.sp + 1) s)
  execute body stop_op re_look_end i f s = if is_end re_look_end stop_op then accept s else dead s
  execute body stop_op re_match i f s = if is_end re_match stop_op then accept s else dead s

  -- One round of the loop of `matchFrom`, with the step counted.
  abbrev pub round : (ℕ → Call) → Op → Frame → Shared → Turn
  round body stop_op f s = elim (get_elem? regex.code f.pc) [
    | none ↦ stop past_program
    | some i ↦ execute body stop_op i.op i f s
  ]

  -- The loop of `matchFrom`, on fuel of one for each step that is left.
  unfoldable pub run : ℕ → Op → Frame → Shared → Result
  run zero stop_op f s =
      if ltb max_steps (s.steps + 1)
      then done false f.sp (record s { steps = s.steps + 1; exhausted = true })
      else fail out_of_fuel
  run (suc fuel) stop_op f s =
      let body : ℕ → Call =
        λ pc sp. run fuel re_look_end (record { pc = pc; sp = sp; threads = []; trail = [] }) in
      let rest =
        follow (run fuel stop_op) f (round body stop_op f (record s { steps = s.steps + 1 })) in
      if ltb max_steps (s.steps + 1)
      then done false f.sp (record s { steps = s.steps + 1; exhausted = true })
      else rest

  -- `matchFrom`
  unfoldable pub match_from : ℕ → ℕ → Shared → Result
  match_from pc sp s =
      run (max_steps + 1 - s.steps) re_match (record { pc = pc; sp = sp; threads = []; trail = [] })
        s

  -- The loop of `csRegexSearch` over the start positions, `n` of them left; the first answer is that of
  -- the search, with the start.
  unfoldable pub search_loop : ℕ → ℕ → Shared → Option (Bool × ℕ × Shared)
  search_loop zero at s = some (false, at, s)
  search_loop (suc n) at s =
      search_next (search_loop n (at + 1)) at
        (match_from 0 at (record s { slots = replicate (regex.group_count * 2) none }))

  -- `csRegexSearch`; `none` is a fault.
  unfoldable pub search_from : ℕ → Option (Bool × ℕ × Shared)
  search_from start =
      search_loop (length subject + 1 - start) start
        (record { slots = []; steps = 0; exhausted = false })

-- `csRegexGroupNamed`; -1 is `none`.
unfoldable pub group_named : List (List ℕ × ℕ) → List ℕ → Option ℕ
group_named [] name = none
group_named ((n, group) ∷ names) name =
    if same_bytes n name then some group else group_named names name
