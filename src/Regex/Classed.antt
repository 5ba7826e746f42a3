-- ===== src/Regex/Classed.antt =====
-- src/runtime/regex.c: while a pattern is compiled the class of every instruction is among those so far.
use cscript.Prelude.{
  ℕ, zero, suc, ◌-◌, ◌≤◌, ◌≡◌, refl, Bool, true, false, List, [], ◌∷◌, ◌++◌, map, take, drop, set,
  Option, none, some, arith,
}
use cscript.Regex.{
  Op, Inst, re_char, re_any, re_class, re_split, re_jump, re_save, re_assert_bol, re_assert_eol,
  re_assert_word, re_backref, re_look, re_lookbehind, re_look_end, re_match,
}
use cscript.Regex.Compile.{
  move_op, move_inst, shift_op, shift_inst, copies, star, optional, extend, repeat, branch,
}
use cscript.Regex.Bounds.{IsClassed, AllClassed}

abbrev pub is_class : Op → Bool
is_class re_class = true
is_class op = false

pub IsClassed-other : (n : ℕ) (op : Op) (x : ℕ) → is_class op ≡ false → IsClassed n op x
IsClassed-other n re_class x h = absurd cc
IsClassed-other n op x h = tt

IsClassed-le : (n m : ℕ) (op : Op) (x : ℕ) → n ≤ m → IsClassed n op x → IsClassed m op x
IsClassed-le n m re_class x h k = omega arith
IsClassed-le n m op x h k = tt

pub AllClassed-le : (n m : ℕ) (code : List Inst) → n ≤ m → AllClassed n code → AllClassed m code
AllClassed-le n m [] h k = tt
AllClassed-le n m (i ∷ code) h (k, ks) =
    (IsClassed-le n m i.op i.x h k, AllClassed-le n m code h ks)

move_op-IsClassed :
    (n d : ℕ) (op : Op) (i : Inst)
    → i.op ≡ op
    → IsClassed n op i.x
    → IsClassed n (move_op d op i).op (move_op d op i).x
unfolding move_op
move_op-IsClassed n d re_split i e t = rw e tt
move_op-IsClassed n d re_jump i e t = rw e tt
move_op-IsClassed n d re_save i e t = rw e tt
move_op-IsClassed n d re_backref i e t = rw e tt
move_op-IsClassed n d re_look i e t = rw e tt
move_op-IsClassed n d re_lookbehind i e t = rw e tt
move_op-IsClassed n d re_char i e t = rw e tt
move_op-IsClassed n d re_any i e t = rw e tt
move_op-IsClassed n d re_class i e t = rw e t
move_op-IsClassed n d re_assert_bol i e t = rw e tt
move_op-IsClassed n d re_assert_eol i e t = rw e tt
move_op-IsClassed n d re_assert_word i e t = rw e tt
move_op-IsClassed n d re_look_end i e t = rw e tt
move_op-IsClassed n d re_match i e t = rw e tt

shift_op-IsClassed :
    (n start : ℕ) (op : Op) (i : Inst)
    → i.op ≡ op
    → IsClassed n op i.x
    → IsClassed n (shift_op start op i).op (shift_op start op i).x
unfolding shift_op
shift_op-IsClassed n start re_split i e t = rw e tt
shift_op-IsClassed n start re_jump i e t = rw e tt
shift_op-IsClassed n start re_save i e t = rw e tt
shift_op-IsClassed n start re_backref i e t = rw e tt
shift_op-IsClassed n start re_look i e t = rw e tt
shift_op-IsClassed n start re_lookbehind i e t = rw e tt
shift_op-IsClassed n start re_char i e t = rw e tt
shift_op-IsClassed n start re_any i e t = rw e tt
shift_op-IsClassed n start re_class i e t = rw e t
shift_op-IsClassed n start re_assert_bol i e t = rw e tt
shift_op-IsClassed n start re_assert_eol i e t = rw e tt
shift_op-IsClassed n start re_assert_word i e t = rw e tt
shift_op-IsClassed n start re_look_end i e t = rw e tt
shift_op-IsClassed n start re_match i e t = rw e tt

module _ (n : ℕ) where
  pub AllClassed-append :
      (a b : List Inst) → AllClassed n a → AllClassed n b → AllClassed n (a ++ b)
  AllClassed-append [] b h k = k
  AllClassed-append (i ∷ a) b (h, hs) k = (h, AllClassed-append a b hs k)

  AllClassed-take : (k : ℕ) (code : List Inst) → AllClassed n code → AllClassed n (take k code)
  AllClassed-take zero [] h = tt
  AllClassed-take zero (i ∷ code) h = tt
  AllClassed-take (suc k) [] h = tt
  AllClassed-take (suc k) (i ∷ code) (h, hs) = (h, AllClassed-take k code hs)

  AllClassed-drop : (k : ℕ) (code : List Inst) → AllClassed n code → AllClassed n (drop k code)
  AllClassed-drop zero [] h = tt
  AllClassed-drop zero (i ∷ code) h = h
  AllClassed-drop (suc k) [] h = tt
  AllClassed-drop (suc k) (i ∷ code) (h, hs) = AllClassed-drop k code hs

  pub AllClassed-set :
      (code : List Inst) (k : ℕ) (i : Inst)
      → AllClassed n code
      → IsClassed n i.op i.x
      → AllClassed n (set code k i)
  AllClassed-set [] k i h t = tt
  AllClassed-set (j ∷ code) zero i (h, hs) t = (t, hs)
  AllClassed-set (j ∷ code) (suc k) i (h, hs) t = (h, AllClassed-set code k i hs t)

  moved_classed :
      (d : ℕ) (code : List Inst) → AllClassed n code → AllClassed n (map (move_inst d) code)
  moved_classed d [] h = tt
  moved_classed d (i ∷ code) (h, hs) =
      (move_op-IsClassed n d i.op i refl h, moved_classed d code hs)

  shifted_classed :
      (start : ℕ) (code : List Inst)
      → AllClassed n code
      → AllClassed n (map (shift_inst start) code)
  shifted_classed start [] h = tt
  shifted_classed start (i ∷ code) (h, hs) =
      (shift_op-IsClassed n start i.op i refl h, shifted_classed start code hs)

  module _ (start : ℕ) (atom : List Inst) (classed : AllClassed n atom) where
    copies-AllClassed :
        (k : ℕ) (code : List Inst) → AllClassed n code → AllClassed n (copies k start atom code)
    unfolding copies
    copies-AllClassed zero code h = h
    copies-AllClassed (suc k) code h =
        copies-AllClassed k _ (AllClassed-append code _ h (moved_classed _ atom classed))

    optional-AllClassed :
        (lazy : Bool) (k end : ℕ) (code : List Inst)
        → AllClassed n code
        → AllClassed n (optional lazy k end start atom code)
    unfolding optional
    optional-AllClassed lazy zero end code h = h
    optional-AllClassed lazy (suc k) end code h =
        optional-AllClassed lazy k end _
          (AllClassed-append code _ h (tt, moved_classed _ atom classed))

    extend-AllClassed :
        (lazy : Bool) (least : ℕ) (most : Option ℕ) (code : List Inst)
        → AllClassed n code
        → AllClassed n (extend lazy least most start atom code)
    unfolding star
    extend-AllClassed lazy least none code h =
        AllClassed-append code _ h
          (tt, AllClassed-append _ _ (moved_classed _ atom classed) (tt, tt))
    extend-AllClassed lazy least (some most) code h =
        optional-AllClassed lazy (most - least) _ code h

  -- The code of a quantified atom, and of an alternation at a further branch.
  pub repeat-AllClassed :
      (lazy : Bool) (least : ℕ) (most : Option ℕ) (start : ℕ) (code : List Inst)
      → AllClassed n code
      → AllClassed n (repeat lazy least most start code)
  unfolding repeat
  repeat-AllClassed lazy least most start code h =
      let atom = AllClassed-drop start code h in
      extend-AllClassed start (drop start code) atom lazy least most _ (
        copies-AllClassed start (drop start code) atom least (take start code)
          (AllClassed-take start code h))

  pub branch-AllClassed :
      (start : ℕ) (code : List Inst) → AllClassed n code → AllClassed n (branch start code)
  branch-AllClassed start code h =
      AllClassed-append (take start code) _ (AllClassed-take start code h) (
        tt,
        AllClassed-append _ _ (shifted_classed start _ (AllClassed-drop start code h)) (tt, tt),
      )
