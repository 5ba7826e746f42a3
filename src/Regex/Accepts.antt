-- ===== src/Regex/Accepts.antt =====
-- src/runtime/regex_match.c: what a program without lookarounds and backreferences matches, told by its
-- runs with free choice at a split, and the backtracking that decides it.
use cscript.Prelude.{
  ◌∙◌, Bool-cases, ℕ, zero, suc, ◌+◌, ◌-◌, ◌≡◌, ◌⊎◌, refl, sym, inl, inr, Bool, true, false, not,
  ◌&&◌, ◌||◌, List, [], ◌∷◌, length, get_elem?, ltb, ◌==◌, bool_eq, if◌then◌else◌, Option, none,
  some, Option-cases, ◌≢◌,
}
use mathlib.Core.Path.{subst}
use cscript.Regex.{
  take_class, Op, Inst, Regex, Thread, Frame, Shared, Turn, onward, dead, accept, stop, re_char,
  re_any, re_class, re_split, re_jump, re_save, re_assert_bol, re_assert_eol, re_assert_word,
  re_backref, re_look, re_lookbehind, re_look_end, re_match, byte_at, class_has, at_boundary, save,
  execute, Call,
}

-- An instruction whose meaning does not depend on the captures or on another run.
abbrev pub is_plain : Op → Bool
is_plain re_backref = false
is_plain re_look = false
is_plain re_lookbehind = false
is_plain op = true

abbrev pub all_plain : List Inst → Bool
all_plain [] = true
all_plain (i ∷ code) = is_plain i.op && all_plain code

pub true≢false : true ≢ false
true≢false h = cc

module _ (regex : Regex) (subject : List ℕ) where
  -- Whether a class that may be there has a byte.
  abbrev pub in_class : Option (List ℕ) → ℕ → Bool
  in_class none c = false
  in_class (some bits) c = class_has bits c

  -- Whether an instruction takes the byte at the cursor.
  abbrev pub takes : Op → Inst → ℕ → Bool
  takes re_char i sp = ltb sp (length subject) && (byte_at subject sp == i.x)
  takes re_any i sp =
      ltb sp (length subject) && (regex.dot_all || not (byte_at subject sp == b'\n'))
  takes re_class i sp =
      ltb sp (length subject) && in_class (get_elem? regex.classes i.x) (byte_at subject sp)
  takes op i sp = false

  -- Whether an assertion holds at the cursor.
  abbrev pub holds : Op → Inst → ℕ → Bool
  holds re_assert_bol i sp = sp == 0 || regex.multiline && (byte_at subject (sp - 1) == b'\n')
  holds re_assert_eol i sp =
      sp == length subject || regex.multiline && (byte_at subject sp == b'\n')
  holds re_assert_word i sp = bool_eq (at_boundary subject sp) (i.x == 1)
  holds op i sp = false

  -- A run from an instruction on, when `A` says from where the runs behind it end in a match.
  abbrev pub Next : (ℕ → ℕ → Type 0) → Op → Inst → ℕ → ℕ → Type 0
  Next A re_char i pc sp = (takes re_char i sp ≡ true) × A (pc + 1) (sp + 1)
  Next A re_any i pc sp = (takes re_any i sp ≡ true) × A (pc + 1) (sp + 1)
  Next A re_class i pc sp = (takes re_class i sp ≡ true) × A (pc + 1) (sp + 1)
  Next A re_split i pc sp = A i.x sp ⊎ A i.y sp
  Next A re_jump i pc sp = A i.x sp
  Next A re_save i pc sp = A (pc + 1) sp
  Next A re_assert_bol i pc sp = (holds re_assert_bol i sp ≡ true) × A (pc + 1) sp
  Next A re_assert_eol i pc sp = (holds re_assert_eol i sp ≡ true) × A (pc + 1) sp
  Next A re_assert_word i pc sp = (holds re_assert_word i sp ≡ true) × A (pc + 1) sp
  Next A re_match i pc sp = Unit {0}
  Next A op i pc sp = ⊥

  abbrev pub From : (ℕ → ℕ → Type 0) → Option Inst → ℕ → ℕ → Type 0
  From A none pc sp = ⊥
  From A (some i) pc sp = Next A i.op i pc sp

  -- A run of at most `k` instructions from `pc`, with the cursor at `sp`, ends in `RE_MATCH`.
  unfoldable pub AcceptsIn : ℕ → ℕ → ℕ → Type 0
  AcceptsIn zero pc sp = ⊥
  AcceptsIn (suc k) pc sp = From (AcceptsIn k) (get_elem? regex.code pc) pc sp

  abbrev pub Accepts : ℕ → ℕ → Type 0
  Accepts pc sp = (k : ℕ) × AcceptsIn k pc sp

  enter :
      (k : ℕ) (op : Op) (i : Inst) (pc sp : ℕ)
      → Next (AcceptsIn k) op i pc sp
      → Next Accepts op i pc sp
  enter k re_char i pc sp (t, a) = (t, (k, a))
  enter k re_any i pc sp (t, a) = (t, (k, a))
  enter k re_class i pc sp (t, a) = (t, (k, a))
  enter k re_split i pc sp (inl a) = inl (k, a)
  enter k re_split i pc sp (inr a) = inr (k, a)
  enter k re_jump i pc sp a = (k, a)
  enter k re_save i pc sp a = (k, a)
  enter k re_assert_bol i pc sp (t, a) = (t, (k, a))
  enter k re_assert_eol i pc sp (t, a) = (t, (k, a))
  enter k re_assert_word i pc sp (t, a) = (t, (k, a))
  enter k re_match i pc sp a = tt
  enter k re_backref i pc sp a = a
  enter k re_look i pc sp a = a
  enter k re_lookbehind i pc sp a = a
  enter k re_look_end i pc sp a = a

  leave :
      (op : Op) (i : Inst) (pc sp : ℕ)
      → Next Accepts op i pc sp
      → (k : ℕ) × Next (AcceptsIn k) op i pc sp
  leave re_char i pc sp (t, (k, a)) = (k, (t, a))
  leave re_any i pc sp (t, (k, a)) = (k, (t, a))
  leave re_class i pc sp (t, (k, a)) = (k, (t, a))
  leave re_split i pc sp (inl (k, a)) = (k, inl a)
  leave re_split i pc sp (inr (k, a)) = (k, inr a)
  leave re_jump i pc sp (k, a) = (k, a)
  leave re_save i pc sp (k, a) = (k, a)
  leave re_assert_bol i pc sp (t, (k, a)) = (k, (t, a))
  leave re_assert_eol i pc sp (t, (k, a)) = (k, (t, a))
  leave re_assert_word i pc sp (t, (k, a)) = (k, (t, a))
  leave re_match i pc sp a = (0, a)
  leave re_backref i pc sp a = absurd a
  leave re_look i pc sp a = absurd a
  leave re_lookbehind i pc sp a = absurd a
  leave re_look_end i pc sp a = absurd a

  -- A match from an instruction is a match behind it.
  Accepts-next :
      (pc sp : ℕ) (i : Inst)
      → get_elem? regex.code pc ≡ some i
      → Accepts pc sp
      → Next Accepts i.op i pc sp
  unfolding AcceptsIn
  Accepts-next pc sp i e (zero, a) = absurd a
  Accepts-next pc sp i e (suc k, a) =
      enter k i.op i pc sp (subst (λ o. From (AcceptsIn k) o pc sp) e a)

  next-Accepts :
      (pc sp : ℕ) (i : Inst)
      → get_elem? regex.code pc ≡ some i
      → Next Accepts i.op i pc sp
      → Accepts pc sp
  unfolding AcceptsIn
  next-Accepts pc sp i e a =
      let (k, b) = leave i.op i pc sp a in
      (suc k, subst (λ o. From (AcceptsIn k) o pc sp) (sym e) b)

  abbrev pub Waiting : List Thread → Type 0
  Waiting [] = ⊥
  Waiting (t ∷ threads) = Accepts t.pc t.sp ⊎ Waiting threads

  -- A match is reached from the frame or from one of its alternatives.
  abbrev pub IsAlive : Frame → Type 0
  IsAlive f = Accepts f.pc f.sp ⊎ Waiting f.threads

  -- What a turn does to the question whether a match is reached.
  abbrev pub Keeps : Frame → Turn → Type 0
  Keeps f (onward g s) = (IsAlive f → IsAlive g) × (IsAlive g → IsAlive f)
  Keeps f (dead s) = ¬ Accepts f.pc f.sp
  Keeps f (accept s) = Accepts f.pc f.sp
  Keeps f (stop e) = Unit {0}

  -- The turn of an instruction that goes on in one way, if a test holds.
  Keeps-if :
      (f : Frame) (b : Bool) (pc sp : ℕ) (s : Shared)
      → (Accepts f.pc f.sp → (b ≡ true) × Accepts pc sp)
      → (b ≡ true → Accepts pc sp → Accepts f.pc f.sp)
      → Keeps f (if b then onward (record f { pc = pc; sp = sp }) s else dead s)
  Keeps-if f true pc sp s to from = (ahead, back)
    where
      ahead : IsAlive f → IsAlive (record f { pc = pc; sp = sp })
      ahead (inl a) = inl (to a).1
      ahead (inr w) = inr w

      back : IsAlive (record f { pc = pc; sp = sp }) → IsAlive f
      back (inl a) = inl (from refl a)
      back (inr w) = inr w
  Keeps-if f false pc sp s to from = λ a. true≢false (sym (to a).0)

  module _ (f : Frame) (s : Shared) (i : Inst) (fetched : get_elem? regex.code f.pc ≡ some i)
      (o : Op) (same : i.op ≡ o) where
    to : Accepts f.pc f.sp → Next Accepts o i f.pc f.sp
    to a = subst (λ o. Next Accepts o i f.pc f.sp) same (Accepts-next f.pc f.sp i fetched a)

    from : Next Accepts o i f.pc f.sp → Accepts f.pc f.sp
    from a = next-Accepts f.pc f.sp i fetched (subst (λ o. Next Accepts o i f.pc f.sp) (sym same) a)

  save-Keeps :
      (i : Inst) (f : Frame) (s : Shared)
      → (Accepts f.pc f.sp → Accepts (f.pc + 1) f.sp)
      → (Accepts (f.pc + 1) f.sp → Accepts f.pc f.sp)
      → Keeps f (save i f s)
  unfolding save
  save-Keeps i f s to from = elim (Option-cases (get_elem? s.slots i.x)) [
    | inl e ↦ rw (e, save) tt
    | inr (old, e) ↦
        rw (e, save) (Keeps-if f true (f.pc + 1) f.sp s (λ a. (refl, to a)) (λ _. from))
  ]

  class-Keeps :
      (o : Option (List ℕ)) (f : Frame) (s : Shared)
      → (Accepts f.pc f.sp
          → ((ltb f.sp (length subject) && in_class o (byte_at subject f.sp)) ≡ true)
            × Accepts (f.pc + 1) (f.sp + 1))
      → ((ltb f.sp (length subject) && in_class o (byte_at subject f.sp)) ≡ true
          → Accepts (f.pc + 1) (f.sp + 1)
          → Accepts f.pc f.sp)
      → Keeps f (take_class regex subject o f s)
  unfolding take_class
  class-Keeps none f s ahead back = elim (Bool-cases (ltb f.sp (length subject))) [
    | inl e ↦ rw e tt
    | inr e ↦ rw e (λ a. true≢false (sym (ahead a).0 ∙ rw e refl))
  ]
  class-Keeps (some bits) f s ahead back =
      Keeps-if f (ltb f.sp (length subject) && class_has bits (byte_at subject f.sp)) (f.pc + 1)
        (f.sp + 1) s ahead back

  pub execute-Keeps :
      (body : ℕ → Call) (o : Op) (i : Inst) (f : Frame) (s : Shared)
      → get_elem? regex.code f.pc ≡ some i
      → i.op ≡ o
      → is_plain o ≡ true
      → Keeps f (execute regex subject body re_match o i f s)
  unfolding execute
  execute-Keeps body re_char i f s e q h =
      Keeps-if f (takes re_char i f.sp) (f.pc + 1) (f.sp + 1) s (to f s i e re_char q)
        (λ t a. from f s i e re_char q (t, a))
  execute-Keeps body re_any i f s e q h =
      Keeps-if f (takes re_any i f.sp) (f.pc + 1) (f.sp + 1) s (to f s i e re_any q)
        (λ t a. from f s i e re_any q (t, a))
  execute-Keeps body re_class i f s e q h =
      class-Keeps (get_elem? regex.classes i.x) f s (to f s i e re_class q)
        (λ t a. from f s i e re_class q (t, a))
  execute-Keeps body re_split i f s e q h = (split_ahead, split_back)
    where
      split_ahead : IsAlive f → Accepts i.x f.sp ⊎ (Accepts i.y f.sp ⊎ Waiting f.threads)
      split_ahead (inl a) = regroup (to f s i e re_split q a)
        where
          regroup :
              Accepts i.x f.sp ⊎ Accepts i.y f.sp
              → Accepts i.x f.sp ⊎ (Accepts i.y f.sp ⊎ Waiting f.threads)
          regroup (inl a) = inl a
          regroup (inr a) = inr (inl a)
      split_ahead (inr w) = inr (inr w)

      split_back : Accepts i.x f.sp ⊎ (Accepts i.y f.sp ⊎ Waiting f.threads) → IsAlive f
      split_back (inl a) = inl (from f s i e re_split q (inl a))
      split_back (inr (inl a)) = inl (from f s i e re_split q (inr a))
      split_back (inr (inr w)) = inr w
  execute-Keeps body re_jump i f s e q h =
      Keeps-if f true i.x f.sp s (λ a. (refl, to f s i e re_jump q a))
        (λ _ a. from f s i e re_jump q a)
  execute-Keeps body re_save i f s e q h =
      save-Keeps i f s (to f s i e re_save q) (from f s i e re_save q)
  execute-Keeps body re_assert_bol i f s e q h =
      Keeps-if f (holds re_assert_bol i f.sp) (f.pc + 1) f.sp s (to f s i e re_assert_bol q)
        (λ t a. from f s i e re_assert_bol q (t, a))
  execute-Keeps body re_assert_eol i f s e q h =
      Keeps-if f (holds re_assert_eol i f.sp) (f.pc + 1) f.sp s (to f s i e re_assert_eol q)
        (λ t a. from f s i e re_assert_eol q (t, a))
  execute-Keeps body re_assert_word i f s e q h =
      Keeps-if f (holds re_assert_word i f.sp) (f.pc + 1) f.sp s (to f s i e re_assert_word q)
        (λ t a. from f s i e re_assert_word q (t, a))
  execute-Keeps body re_look_end i f s e q h = to f s i e re_look_end q
  execute-Keeps body re_match i f s e q h = from f s i e re_match q tt
  execute-Keeps body re_backref i f s e q h = cc
  execute-Keeps body re_look i f s e q h = cc
  execute-Keeps body re_lookbehind i f s e q h = cc
