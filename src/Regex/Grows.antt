-- ===== src/Regex/Grows.antt =====
-- src/runtime/regex.c: what a part of the compiler keeps of the parser it is given.
use cscript.Prelude.{
  ℕ, suc, ◌≤◌, ◌<◌, ◌≡◌, refl, ap, ◌∙◌, Bool, true, false, List, [], ◌∷◌, ◌++◌, length, take,
  take-append, set, length-set, set-append, ◌-◌, length-append, sym, append-append, arith,
  if◌then◌else◌,
}
use mathlib.Core.Path.{subst}
use mathlib.Core.List.{append-nil}
use cscript.Regex.{Op, Inst, Regex}
use cscript.Regex.Classes.{Parser, Answer, parsed, failed, no_fuel, and_then, emit}
use cscript.Regex.Targets.{IsTarget, AreTargets, AreTargets-append, AreTargets-le, AreTargets-set}
use cscript.Regex.Repeat.{Extends}
use cscript.Regex.Bounds.{IsClassed, AllClassed}
use cscript.Regex.Classed.{AllClassed-append, AllClassed-le, AllClassed-set}

abbrev pub Good : Parser → Type 0
Good p =
    AreTargets (length p.regex.code) p.regex.group_count p.regex.code
    × AllClassed (length p.regex.classes) p.regex.code

-- A parser that has more code, groups and classes, no more text, and only valid targets and classes.
pub record Grows (p q : Parser) : Type 0 where
  pub part : List Inst
  pub joined : q.regex.code ≡ p.regex.code ++ part
  pub groups : p.regex.group_count ≤ q.regex.group_count
  pub classes : length p.regex.classes ≤ length q.regex.classes
  pub text : length q.rest ≤ length p.rest
  pub good : Good q

-- An answer with a parser that grows, or an error message.
abbrev pub Fine : Parser → Answer → Type 0
Fine p (parsed q) = Grows p q
Fine p (failed m) = Unit {0}
Fine p no_fuel = ⊥

-- What is parsed inside a group, with less text than `b`.
abbrev pub IsParse : ℕ → (Parser → Answer) → Type 0
IsParse b inside = (p : Parser) → Good p → length p.rest < b → Fine p (inside p)

pub Grows-trans : (p q r : Parser) → Grows p q → Grows q r → Grows p r
Grows-trans p q r g h = record {
  part = g.part ++ h.part;
  joined = h.joined ∙ (ap (λ c. c ++ h.part) g.joined ∙ append-append p.regex.code g.part h.part);
  groups = omega (arith, g.groups, h.groups);
  classes = omega (arith, g.classes, h.classes);
  text = omega (arith, g.text, h.text);
  good = h.good;
}

pub Grows-refl : (p : Parser) → Good p → Grows p p
Grows-refl p h = record {
  part = [];
  joined = sym (append-nil p.regex.code);
  groups = omega arith;
  classes = omega arith;
  text = omega arith;
  good = h;
}

pub Fine-trans : (p q : Parser) (a : Answer) → Grows p q → Fine q a → Fine p a
Fine-trans p q (parsed r) g h = Grows-trans p q r g h
Fine-trans p q (failed m) g h = tt
Fine-trans p q no_fuel g h = h

pub bind-Fine :
    (p : Parser) (a : Answer) (f : Parser → Answer)
    → Fine p a
    → ((q : Parser) → Grows p q → Fine p (f q))
    → Fine p (and_then a f)
bind-Fine p (parsed q) f g h = h q g
bind-Fine p (failed m) f g h = tt
bind-Fine p no_fuel f g h = g

pub and_then-Fine :
    (p : Parser) (a : Answer) (f : Parser → Answer)
    → Fine p a
    → ((q : Parser) → Grows p q → Fine q (f q))
    → Fine p (and_then a f)
and_then-Fine p a f g h = bind-Fine p a f g (λ q k. Fine-trans p q (f q) k (h q k))

-- One more instruction, of a class that has just been added or of none.
pub emit-Grows :
    (p : Parser) (op : Op) (x y : ℕ) (regex : Regex) (rest : List ℕ)
    → Good p
    → regex.code ≡ p.regex.code
    → length p.regex.classes ≤ length regex.classes
    → IsClassed (length regex.classes) op x
    → p.regex.group_count ≤ regex.group_count
    → length rest ≤ length p.rest
    → IsTarget (suc (length p.regex.code)) regex.group_count op x y
    → Grows p (record { regex = emit op x y regex; rest = rest })
emit-Grows p op x y regex rest (h, k) e more c g l t =
    let one : List Inst = record { op = op; x = x; y = y } ∷ [] in
    let n = length regex.classes in
    let size : length (regex.code ++ one) ≡ suc (length p.regex.code) =
      length-append regex.code one ∙ omega (arith, ap length e) in
    record {
      part = one;
      joined = ap (λ c. c ++ one) e;
      groups = g;
      classes = more;
      text = l;
      good = (
        subst (λ n. AreTargets n regex.group_count (regex.code ++ one)) (sym size)
            (AreTargets-append _ regex.group_count regex.code one
              (subst (λ c. AreTargets (suc (length p.regex.code)) regex.group_count c) (sym e)
                (AreTargets-le _ _ _ _ p.regex.code (omega arith) g h))
              (t, tt)),
        AllClassed-append n regex.code one
            (subst (AllClassed n) (sym e) (AllClassed-le _ n p.regex.code more k)) (c, tt),
      );
    }

-- Code that extends that of an earlier parser.
pub Extends-Grows :
    (p q : Parser) (code : List Inst) (rest : List ℕ)
    → Grows p q
    → Extends q.regex.group_count (take (length p.regex.code) q.regex.code) code
    → AllClassed (length q.regex.classes) code
    → length rest ≤ length p.rest
    → Grows p (record { regex = record q.regex { code = code }; rest = rest })
Extends-Grows p q code rest g e c l = record {
  part = e.part;
  joined =
      e.joined
      ∙ ap (λ c. c ++ e.part)
          (ap (take (length p.regex.code)) g.joined ∙ take-append p.regex.code g.part);
  groups = g.groups;
  classes = g.classes;
  text = l;
  good = (e.targets, c);
}

-- The text that an earlier parser has left does not matter beyond its length.
pub rest-Grows :
    (p q : Parser) (rest : List ℕ)
    → Grows p q
    → length q.rest ≤ length rest
    → Grows (record p { rest = rest }) q
rest-Grows p q rest g l = record {
  part = g.part;
  joined = g.joined;
  groups = g.groups;
  classes = g.classes;
  text = l;
  good = g.good;
}

-- One instruction replaced, among those that are new.
pub set-Grows :
    (p q : Parser) (k : ℕ) (i : Inst)
    → Grows p q
    → length p.regex.code ≤ k
    → IsTarget (length q.regex.code) q.regex.group_count i.op i.x i.y
    → IsClassed (length q.regex.classes) i.op i.x
    → Grows p (record q { regex = record q.regex { code = set q.regex.code k i } })
set-Grows p q k i g h t c = record {
  part = set g.part (k - length p.regex.code) i;
  joined = ap (λ c. set c k i) g.joined ∙ set-append p.regex.code g.part k i h;
  groups = g.groups;
  classes = g.classes;
  text = g.text;
  good = (
    subst (λ n. AreTargets n q.regex.group_count (set q.regex.code k i))
        (sym (length-set q.regex.code k i)) (AreTargets-set _ _ q.regex.code k i g.good.0 t),
    AllClassed-set (length q.regex.classes) q.regex.code k i g.good.1 c,
  );
}

pub Fine-if :
    (p : Parser) (b : Bool) (x y : Answer) → Fine p x → Fine p y → Fine p (if b then x else y)
Fine-if p true x y hx hy = hx
Fine-if p false x y hx hy = hy

pub Fine-test :
    (p : Parser) (b : Bool) (x y : Answer)
    → (b ≡ true → Fine p x)
    → (b ≡ false → Fine p y)
    → Fine p (if b then x else y)
Fine-test p true x y hx hy = hx refl
Fine-test p false x y hx hy = hy refl
