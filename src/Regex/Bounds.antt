-- ===== src/Regex/Bounds.antt =====
-- src/runtime/regex_match.c: what a valid program and a valid state of the matcher are.
use cscript.Prelude.{
  ℕ, zero, suc, ◌+◌, ◌*◌, ◌≤◌, ◌<◌, ◌≡◌, refl, ap, ◌∙◌, inl, inr, Bool, true, false, ◌&&◌, ◌||◌,
  List, [], ◌∷◌, length, get_elem?, set, length-set, ltb, none, some, arith, Bool-cases,
  some-cancel, none≢some,
}
use mathlib.Core.Path.{subst}
use cscript.Regex.{
  Op, Inst, Regex, Slot, Thread, TrailEntry, Frame, Shared, re_char, re_any, re_class, re_split,
  re_jump, re_save, re_assert_bol, re_assert_eol, re_assert_word, re_backref, re_look,
  re_lookbehind, re_look_end, re_match, unwind,
}

-- The targets of an instruction lie within the program, and its slots within the captures.
abbrev pub valid_inst : ℕ → ℕ → ℕ → Op → ℕ → ℕ → Bool
valid_inst count size pc re_char x y = ltb (pc + 1) count
valid_inst count size pc re_any x y = ltb (pc + 1) count
valid_inst count size pc re_class x y = ltb (pc + 1) count
valid_inst count size pc re_split x y = ltb x count && ltb y count
valid_inst count size pc re_jump x y = ltb x count
valid_inst count size pc re_save x y = ltb (pc + 1) count && ltb x size
valid_inst count size pc re_assert_bol x y = ltb (pc + 1) count
valid_inst count size pc re_assert_eol x y = ltb (pc + 1) count
valid_inst count size pc re_assert_word x y = ltb (pc + 1) count
valid_inst count size pc re_backref x y = ltb (pc + 1) count && ltb (x * 2 + 1) size
valid_inst count size pc re_look x y = ltb (pc + 1) count && ltb y count
valid_inst count size pc re_lookbehind x y = ltb (pc + 1) count && ltb y count
valid_inst count size pc re_look_end x y = true
valid_inst count size pc re_match x y = true

abbrev pub valid_from : ℕ → ℕ → ℕ → List Inst → Bool
valid_from count size pc [] = true
valid_from count size pc (i ∷ code) =
    valid_inst count size pc i.op i.x i.y && valid_from count size (suc pc) code

-- The class of an instruction is among those of the program.
abbrev pub IsClassed : ℕ → Op → ℕ → Type 0
IsClassed classes re_class x = x < classes
IsClassed classes op x = Unit {0}

abbrev pub AllClassed : ℕ → List Inst → Type 0
AllClassed classes [] = Unit {0}
AllClassed classes (i ∷ code) = IsClassed classes i.op i.x × AllClassed classes code

pub fetch-IsClassed :
    (classes : ℕ) (code : List Inst) (k : ℕ) (i : Inst)
    → AllClassed classes code
    → get_elem? code k ≡ some i
    → IsClassed classes i.op i.x
fetch-IsClassed classes [] k i h e = absurd (none≢some e)
fetch-IsClassed classes (j ∷ code) zero i h e =
    subst (λ (i : Inst). IsClassed classes i.op i.x) (some-cancel e) h.0
fetch-IsClassed classes (j ∷ code) (suc k) i h e = fetch-IsClassed classes code k i h.1 e

abbrev is_backref : Op → Bool
is_backref re_backref = true
is_backref op = false

abbrev pub has_backref : List Inst → Bool
has_backref [] = false
has_backref (i ∷ code) = is_backref i.op || has_backref code

-- A program that is not empty and whose instructions stay within it, its captures and its classes.
pub record IsProgram (regex : Regex) : Type 0 where
  pub start : 0 < length regex.code
  pub insts : valid_from (length regex.code) (regex.group_count * 2) 0 regex.code ≡ true
  pub classed : AllClassed (length regex.classes) regex.code

both : (a b : Bool) → (a && b) ≡ true → (a ≡ true) × (b ≡ true)
both a b h = ground arith

fetched :
    (count size pc : ℕ) (code : List Inst) (k at : ℕ) (i : Inst)
    → valid_from count size pc code ≡ true
    → get_elem? code k ≡ some i
    → pc + k ≡ at
    → valid_inst count size at i.op i.x i.y ≡ true
fetched count size pc [] k at i v h e = absurd (none≢some h)
fetched count size pc (j ∷ code) zero at i v h e =
    let here = (both (valid_inst count size pc j.op j.x j.y) _ v).0 in
    let there =
      subst (λ (i : Inst). valid_inst count size pc i.op i.x i.y ≡ true) (some-cancel h) here in
    subst (λ at. valid_inst count size at i.op i.x i.y ≡ true) (omega (arith, e)) there
fetched count size pc (j ∷ code) (suc k) at i v h e =
    fetched count size (suc pc) code k at i (both (valid_inst count size pc j.op j.x j.y) _ v).1 h
      (omega (arith, e))

pub fetch_valid :
    (regex : Regex) (pc : ℕ) (i : Inst)
    → IsProgram regex
    → get_elem? regex.code pc ≡ some i
    → valid_inst (length regex.code) (regex.group_count * 2) pc i.op i.x i.y ≡ true
fetch_valid regex pc i v h =
    fetched (length regex.code) (regex.group_count * 2) 0 regex.code pc pc i v.insts h (omega arith)

pub fetch-backref :
    (code : List Inst) (k : ℕ) (i : Inst)
    → get_elem? code k ≡ some i
    → i.op ≡ re_backref
    → has_backref code ≡ true
fetch-backref [] k i h e = absurd (none≢some h)
fetch-backref (j ∷ code) zero i h e =
    ap (λ op. is_backref op || has_backref code) (ap (λ (i : Inst). i.op) (some-cancel h) ∙ e)
fetch-backref (j ∷ code) (suc k) i h e = ground (arith, fetch-backref code k i h e)

module _ (count size n : ℕ) where
  -- A capture lies within the subject.
  abbrev pub Within : Slot → Type 0
  Within none = Unit {0}
  Within (some v) = v ≤ n

  abbrev pub AllWithin : List Slot → Type 0
  AllWithin [] = Unit {0}
  AllWithin (v ∷ slots) = Within v × AllWithin slots

  abbrev pub GoodThreads : List Thread → Type 0
  GoodThreads [] = Unit {0}
  GoodThreads (t ∷ threads) = (t.pc < count) × (t.sp ≤ n) × GoodThreads threads

  abbrev pub GoodTrail : List TrailEntry → Type 0
  GoodTrail [] = Unit {0}
  GoodTrail (t ∷ trail) = (t.slot < size) × Within t.value × GoodTrail trail

  pub record GoodFrame (f : Frame) : Type 0 where
    pub pc : f.pc < count
    pub sp : f.sp ≤ n
    pub threads : GoodThreads f.threads
    pub trail : GoodTrail f.trail

  pub record GoodShared (s : Shared) : Type 0 where
    pub sized : length s.slots ≡ size
    pub within : AllWithin s.slots

  pub AllWithin-set :
      (slots : List Slot) (i : ℕ) (v : Slot)
      → AllWithin slots
      → Within v
      → AllWithin (set slots i v)
  AllWithin-set [] i v h w = tt
  AllWithin-set (u ∷ slots) zero v h w = (w, h.1)
  AllWithin-set (u ∷ slots) (suc i) v h w = (h.0, AllWithin-set slots i v h.1 w)

  pub AllWithin-fetch :
      (slots : List Slot) (i : ℕ) (v : Slot)
      → AllWithin slots
      → get_elem? slots i ≡ some v
      → Within v
  AllWithin-fetch [] i v h e = absurd (none≢some e)
  AllWithin-fetch (u ∷ slots) zero v h e = subst Within (some-cancel e) h.0
  AllWithin-fetch (u ∷ slots) (suc i) v h e = AllWithin-fetch slots i v h.1 e

  -- Undoing captures keeps the slots within the subject.
  pub unwind-Good :
      (k : ℕ) (trail : List TrailEntry) (slots : List Slot)
      → GoodTrail trail
      → AllWithin slots
      → GoodTrail (unwind k trail slots).0
        × AllWithin (unwind k trail slots).1
        × (length (unwind k trail slots).1 ≡ length slots)
  unfolding unwind
  unwind-Good k [] slots h w = (tt, w, refl)
  unwind-Good k (t ∷ trail) slots h w = elim (Bool-cases (ltb k (suc (length trail)))) [
    | inl e ↦
        let (g, a, l) =
          unwind-Good k trail (set slots t.slot t.value) h.2
            (AllWithin-set slots t.slot t.value w h.1) in
        rw e (g, a, l ∙ length-set slots t.slot t.value)
    | inr e ↦ rw e (h, w, refl)
  ]
