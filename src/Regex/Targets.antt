-- ===== src/Regex/Targets.antt =====
-- src/runtime/regex.c: while a pattern is compiled every target lies within the code so far or at its end.
use cscript.Prelude.{
  ℕ, zero, suc, ◌+◌, ◌*◌, ◌≤◌, ◌<◌, ◌≡◌, refl, List, [], ◌∷◌, ◌++◌, map, take, drop, set, arith,
}
use cscript.Regex.{
  Op, Inst, re_char, re_any, re_class, re_split, re_jump, re_save, re_assert_bol, re_assert_eol,
  re_assert_word, re_backref, re_look, re_lookbehind, re_look_end, re_match,
}
use cscript.Regex.Compile.{move_op, move_inst, shift_op, shift_inst}

abbrev pub IsTarget : ℕ → ℕ → Op → ℕ → ℕ → Type 0
IsTarget len groups re_split x y = (x ≤ len) × (y ≤ len)
IsTarget len groups re_jump x y = x ≤ len
IsTarget len groups re_save x y = x < groups * 2
IsTarget len groups re_backref x y = x < groups
IsTarget len groups re_look x y = y ≤ len
IsTarget len groups re_lookbehind x y = y ≤ len
IsTarget len groups op x y = Unit {0}

abbrev pub AreTargets : ℕ → ℕ → List Inst → Type 0
AreTargets len groups [] = Unit {0}
AreTargets len groups (i ∷ code) = IsTarget len groups i.op i.x i.y × AreTargets len groups code

IsTarget-le :
    (len len' groups groups' : ℕ) (op : Op) (x y : ℕ)
    → len ≤ len'
    → groups ≤ groups'
    → IsTarget len groups op x y
    → IsTarget len' groups' op x y
IsTarget-le len len' g g' re_split x y h k t = omega arith
IsTarget-le len len' g g' re_jump x y h k t = omega arith
IsTarget-le len len' g g' re_save x y h k t = omega arith
IsTarget-le len len' g g' re_backref x y h k t = omega arith
IsTarget-le len len' g g' re_look x y h k t = omega arith
IsTarget-le len len' g g' re_lookbehind x y h k t = omega arith
IsTarget-le len len' g g' op x y h k t = tt

pub AreTargets-le :
    (len len' groups groups' : ℕ) (code : List Inst)
    → len ≤ len'
    → groups ≤ groups'
    → AreTargets len groups code
    → AreTargets len' groups' code
AreTargets-le len len' g g' [] h k t = tt
AreTargets-le len len' g g' (i ∷ code) h k (t, ts) =
    (IsTarget-le len len' g g' i.op i.x i.y h k t, AreTargets-le len len' g g' code h k ts)

module _ (len groups : ℕ) where
  pub AreTargets-append :
      (a b : List Inst)
      → AreTargets len groups a
      → AreTargets len groups b
      → AreTargets len groups (a ++ b)
  AreTargets-append [] b ha hb = hb
  AreTargets-append (i ∷ a) b (h, ha) hb = (h, AreTargets-append a b ha hb)

  pub AreTargets-take :
      (n : ℕ) (code : List Inst) → AreTargets len groups code → AreTargets len groups (take n code)
  AreTargets-take zero [] h = tt
  AreTargets-take zero (i ∷ code) h = tt
  AreTargets-take (suc n) [] h = tt
  AreTargets-take (suc n) (i ∷ code) (h, hs) = (h, AreTargets-take n code hs)

  pub AreTargets-drop :
      (n : ℕ) (code : List Inst) → AreTargets len groups code → AreTargets len groups (drop n code)
  AreTargets-drop zero [] h = tt
  AreTargets-drop zero (i ∷ code) h = h
  AreTargets-drop (suc n) [] h = tt
  AreTargets-drop (suc n) (i ∷ code) (h, hs) = AreTargets-drop n code hs

  pub AreTargets-set :
      (code : List Inst) (k : ℕ) (i : Inst)
      → AreTargets len groups code
      → IsTarget len groups i.op i.x i.y
      → AreTargets len groups (set code k i)
  AreTargets-set [] k i h t = tt
  AreTargets-set (j ∷ code) zero i (h, hs) t = (t, hs)
  AreTargets-set (j ∷ code) (suc k) i (h, hs) t = (h, AreTargets-set code k i hs t)

-- A copied instruction has its targets within the copy, or where they were.
move_op-IsTarget :
    (len len' groups d : ℕ) (op : Op) (i : Inst)
    → i.op ≡ op
    → len + d ≤ len'
    → IsTarget len groups op i.x i.y
    → IsTarget len' groups (move_op d op i).op (move_op d op i).x (move_op d op i).y
unfolding move_op
move_op-IsTarget len len' g d re_split i e h t = rw e (omega arith)
move_op-IsTarget len len' g d re_jump i e h t = rw e (omega arith)
move_op-IsTarget len len' g d re_save i e h t = rw e t
move_op-IsTarget len len' g d re_backref i e h t = rw e t
move_op-IsTarget len len' g d re_look i e h t = rw e (omega arith)
move_op-IsTarget len len' g d re_lookbehind i e h t = rw e (omega arith)
move_op-IsTarget len len' g d re_char i e h t = rw e tt
move_op-IsTarget len len' g d re_any i e h t = rw e tt
move_op-IsTarget len len' g d re_class i e h t = rw e tt
move_op-IsTarget len len' g d re_assert_bol i e h t = rw e tt
move_op-IsTarget len len' g d re_assert_eol i e h t = rw e tt
move_op-IsTarget len len' g d re_assert_word i e h t = rw e tt
move_op-IsTarget len len' g d re_look_end i e h t = rw e tt
move_op-IsTarget len len' g d re_match i e h t = rw e tt

pub moved :
    (len len' groups d : ℕ) (code : List Inst)
    → len + d ≤ len'
    → AreTargets len groups code
    → AreTargets len' groups (map (move_inst d) code)
moved len len' g d [] h t = tt
moved len len' g d (i ∷ code) h (t, ts) =
    (move_op-IsTarget len len' g d i.op i refl h t, moved len len' g d code h ts)

shift_op-IsTarget :
    (len len' groups start : ℕ) (op : Op) (i : Inst)
    → i.op ≡ op
    → len + 1 ≤ len'
    → IsTarget len groups op i.x i.y
    → IsTarget len' groups (shift_op start op i).op (shift_op start op i).x (shift_op start op i).y
unfolding shift_op
shift_op-IsTarget len len' g s re_split i e h t = rw e (ground arith)
shift_op-IsTarget len len' g s re_jump i e h t = rw e (ground arith)
shift_op-IsTarget len len' g s re_save i e h t = rw e t
shift_op-IsTarget len len' g s re_backref i e h t = rw e t
shift_op-IsTarget len len' g s re_look i e h t = rw e (omega arith)
shift_op-IsTarget len len' g s re_lookbehind i e h t = rw e (omega arith)
shift_op-IsTarget len len' g s re_char i e h t = rw e tt
shift_op-IsTarget len len' g s re_any i e h t = rw e tt
shift_op-IsTarget len len' g s re_class i e h t = rw e tt
shift_op-IsTarget len len' g s re_assert_bol i e h t = rw e tt
shift_op-IsTarget len len' g s re_assert_eol i e h t = rw e tt
shift_op-IsTarget len len' g s re_assert_word i e h t = rw e tt
shift_op-IsTarget len len' g s re_look_end i e h t = rw e tt
shift_op-IsTarget len len' g s re_match i e h t = rw e tt

pub shifted :
    (len len' groups start : ℕ) (code : List Inst)
    → len + 1 ≤ len'
    → AreTargets len groups code
    → AreTargets len' groups (map (shift_inst start) code)
shifted len len' g s [] h t = tt
shifted len len' g s (i ∷ code) h (t, ts) =
    (shift_op-IsTarget len len' g s i.op i refl h t, shifted len len' g s code h ts)
