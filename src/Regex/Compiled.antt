-- ===== src/Regex/Compiled.antt =====
-- src/runtime/regex.c: every pattern compiles to a valid program, or to an error.
use cscript.Prelude.{
  ℕ, suc, ◌+◌, ◌*◌, ◌<◌, ◌≡◌, refl, ap, ◌∙◌, inl, inr, Bool, true, List, [], ◌∷◌, ◌++◌, length,
  length-append, ◌==◌, arith, Bool-cases,
}
use mathlib.Core.Path.{subst}
use cscript.Regex.{
  Op, Inst, re_char, re_any, re_class, re_split, re_jump, re_save, re_assert_bol, re_assert_eol,
  re_assert_word, re_backref, re_look, re_lookbehind, re_look_end, re_match,
}
use cscript.Regex.Parsed.{parse_alternation-Fine}
use cscript.Regex.Classes.{Parser, Answer, parsed, failed, no_fuel, and_then, emit}
use cscript.Regex.Compile.{parse_alternation, blank, finish_program, compile}
use cscript.Regex.Targets.{IsTarget, AreTargets}
use cscript.Regex.Classed.{AllClassed-append}
use cscript.Regex.Bounds.{valid_inst, valid_from, IsProgram}
use cscript.Regex.Grows.{Good, Grows, Fine}

valid-append :
    (count size pc : ℕ) (a b : List Inst)
    → valid_from count size pc a ≡ true
    → valid_from count size (pc + length a) b ≡ true
    → valid_from count size pc (a ++ b) ≡ true
valid-append count size pc [] b h k = subst (λ n. valid_from count size n b ≡ true) (omega arith) k
valid-append count size pc (i ∷ a) b h k = ground (
  arith,
  h,
  valid-append count size (suc pc) a b (ground (arith, h))
      (subst (λ n. valid_from count size n b ≡ true) (omega arith) k),
)

-- A target at the end of the code is within, once more code follows.
IsTarget-valid :
    (len groups count pc : ℕ) (op : Op) (x y : ℕ)
    → len < count
    → pc + 1 < count
    → IsTarget len groups op x y
    → valid_inst count (groups * 2) pc op x y ≡ true
IsTarget-valid len groups count pc re_char x y h k t = ground arith
IsTarget-valid len groups count pc re_any x y h k t = ground arith
IsTarget-valid len groups count pc re_class x y h k t = ground arith
IsTarget-valid len groups count pc re_split x y h k t = ground arith
IsTarget-valid len groups count pc re_jump x y h k t = ground arith
IsTarget-valid len groups count pc re_save x y h k t = ground arith
IsTarget-valid len groups count pc re_assert_bol x y h k t = ground arith
IsTarget-valid len groups count pc re_assert_eol x y h k t = ground arith
IsTarget-valid len groups count pc re_assert_word x y h k t = ground arith
IsTarget-valid len groups count pc re_backref x y h k t = ground arith
IsTarget-valid len groups count pc re_look x y h k t = ground arith
IsTarget-valid len groups count pc re_lookbehind x y h k t = ground arith
IsTarget-valid len groups count pc re_look_end x y h k t = refl
IsTarget-valid len groups count pc re_match x y h k t = refl

AreTargets-valid :
    (len groups count pc : ℕ) (code : List Inst)
    → len < count
    → pc + length code < count
    → AreTargets len groups code
    → valid_from count (groups * 2) pc code ≡ true
AreTargets-valid len groups count pc [] h k t = refl
AreTargets-valid len groups count pc (i ∷ code) h k (t, ts) = ground (
  arith,
  IsTarget-valid len groups count pc i.op i.x i.y h (omega (arith, k)) t,
  AreTargets-valid len groups count (suc pc) code h (omega (arith, k)) ts,
)

-- A valid program, or an error message.
abbrev pub IsCompiled : Answer → Type 0
IsCompiled (parsed p) = IsProgram p.regex
IsCompiled (failed m) = Unit {0}
IsCompiled no_fuel = ⊥

-- The last two instructions make the targets at the end valid.
finished :
    (p : Parser)
    → Good p
    → 0 < p.regex.group_count
    → IsProgram (emit re_match 0 0 (emit re_save 1 0 p.regex))
finished p h g =
    let code = p.regex.code in
    let save : List Inst = record { op = re_save; x = 1; y = 0 } ∷ [] in
    let match : List Inst = record { op = re_match; x = 0; y = 0 } ∷ [] in
    let count = length ((code ++ save) ++ match) in
    let size = p.regex.group_count * 2 in
    let total : count ≡ length code + 2 =
      length-append (code ++ save) match
      ∙ (ap (λ n. n + 1) (length-append code save) ∙ omega arith) in
    record {
      start = omega (arith, total);
      insts =
          valid-append count size 0 (code ++ save) match
            (valid-append count size 0 code save
              (AreTargets-valid (length code) p.regex.group_count count 0 code
                (omega (arith, total)) (omega (arith, total)) h.0)
              (ground (arith, total)))
            refl;
      classed =
          AllClassed-append _ (code ++ save) match (AllClassed-append _ code save h.1 (tt, tt))
            (tt, tt);
    }

finish_program-IsCompiled :
    (p q : Parser) → 0 < p.regex.group_count → Grows p q → IsCompiled (finish_program q)
unfolding finish_program
finish_program-IsCompiled p q h g = elim (Bool-cases (length q.rest == 0)) [
  | inl e ↦ rw (e, IsCompiled) (finished q g.good (omega (arith, h, g.groups)))
  | inr e ↦ rw (e, IsCompiled) tt
]

-- Compiling any pattern with any flags ends, with an error message or with a valid program: one that is
-- not empty, whose every target lies within it, whose every slot lies within the captures, and whose every
-- class is among its classes.
pub compile-IsCompiled :
    (pattern : List ℕ) (ignore_case multiline dot_all : Bool)
    → IsCompiled (compile pattern ignore_case multiline dot_all)
unfolding compile
compile-IsCompiled pattern ignore_case multiline dot_all =
    let first : Parser = record {
      regex = emit re_save 0 0 (blank ignore_case multiline dot_all);
      rest = pattern;
    } in
    last first (parse_alternation (suc (length pattern)) first) (omega arith) (
      parse_alternation-Fine (suc (length pattern)) first ((omega arith, tt), (tt, tt))
        (omega arith))
  where
    last :
        (p : Parser) (a : Answer)
        → 0 < p.regex.group_count
        → Fine p a
        → IsCompiled (and_then a finish_program)
    last p (parsed q) h g = finish_program-IsCompiled p q h g
    last p (failed m) h g = tt
    last p no_fuel h g = g
