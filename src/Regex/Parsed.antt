-- ===== src/Regex/Parsed.antt =====
-- src/runtime/regex.c: parsing a pattern ends, and leaves only valid targets.
use cscript.Prelude.{
  ℕ, zero, suc, ◌+◌, ◌-◌, ◌*◌, ◌≤◌, ◌<◌, ◌≡◌, sym, ap, ◌∙◌, inl, inr, Bool, true, false, ◌&&◌, ◌||◌,
  List, [], ◌∷◌, take, length, length-append, take-append, ltb, ◌==◌, in_range, if◌then◌else◌,
  Option, none, some, arith, Bool-cases,
}
use mathlib.Core.Path.{subst}
use cscript.Regex.Classes.{
  Parser, Answer, parsed, and_then, backwards_bounds, large_bounds, peek_char, next_char,
}
use cscript.Regex.Compile.{
  Parse, read_number, Bounds, unquantified, bounded, refused, below, exceeds, finish_bounds,
  read_most, read_bounds, quantify, quantified, parse_atom, parse_repetition, parse_concatenation,
  branch, land, alternatives, parse_alternation,
}
use cscript.Regex.Targets.{AreTargets, AreTargets-le}
use cscript.Regex.Repeat.{repeat-Extends, branch-Extends}
use cscript.Regex.Classed.{repeat-AllClassed, branch-AllClassed}
use cscript.Regex.Grows.{
  Good, Grows, Fine, IsParse, Grows-refl, Fine-trans, bind-Fine, and_then-Fine, Extends-Grows,
  rest-Grows, set-Grows, Fine-if, Fine-test,
}
use cscript.Regex.Members.{next_char-shorter}
use cscript.Regex.Atoms.{skip-Grows, parse_atom-Fine}

read_number-shorter :
    (saw : Bool) (n : ℕ) (text : List ℕ) → length (read_number saw n text).2 ≤ length text
unfolding read_number
read_number-shorter saw n [] = omega arith
read_number-shorter saw n (c ∷ text) = elim (Bool-cases (in_range c b'0' b'9')) [
  | inl e ↦ rw e (omega (arith, read_number-shorter true (n * 10 + (c - b'0')) text))
  | inr e ↦ rw e (omega arith)
]

-- A quantifier that leaves at most `n` bytes.
abbrev IsBounds : ℕ → Bounds → Type 0
IsBounds n (bounded least most text) = length text ≤ n
IsBounds n unquantified = Unit {0}
IsBounds n (refused m) = Unit {0}

IsBounds-if :
    (n : ℕ) (b : Bool) (x y : Bounds)
    → IsBounds n x
    → IsBounds n y
    → IsBounds n (if b then x else y)
IsBounds-if n true x y hx hy = hx
IsBounds-if n false x y hx hy = hy

finish_bounds-IsBounds :
    (n least : ℕ) (most : Option ℕ) (text : List ℕ)
    → length text ≤ n
    → IsBounds n (finish_bounds least most text)
unfolding finish_bounds
finish_bounds-IsBounds n least most text h =
    IsBounds-if n (peek_char text == b'}') _ unquantified
      (IsBounds-if n (below most least) (refused backwards_bounds) _ tt (
        IsBounds-if n (exceeds 1000 most || ltb 1000 least) (refused large_bounds)
          (bounded least most (next_char text)) tt (omega (arith, next_char-shorter text, h))))
      tt

read_most-IsBounds :
    (n least : ℕ) (text : List ℕ) → length text ≤ n → IsBounds n (read_most least text)
unfolding read_most
read_most-IsBounds n least text h =
    let after = next_char text in
    let l = next_char-shorter text in
    let number = read_number false 0 after in
    IsBounds-if n (peek_char text == b',') _ _
      (IsBounds-if n (peek_char after == b'}') _ _
        (finish_bounds-IsBounds n least none after (omega (arith, l, h)))
        (finish_bounds-IsBounds n least (some number.1) number.2
          (omega (arith, l, h, read_number-shorter false 0 after))))
      (finish_bounds-IsBounds n least (some least) text h)

read_bounds-IsBounds : (text : List ℕ) → IsBounds (length text) (read_bounds text)
unfolding read_bounds
read_bounds-IsBounds [] = tt
read_bounds-IsBounds (c ∷ text) =
    let n = length (c ∷ text) in
    let number = read_number false 0 text in
    IsBounds-if n (c == b'*') (bounded 0 none text) _ (omega arith) (
      IsBounds-if n (c == b'+') (bounded 1 none text) _ (omega arith) (
        IsBounds-if n (c == b'?') (bounded 0 (some 1) text) _ (omega arith) (
          IsBounds-if n ((c == b'{') && number.0) (read_most number.1 number.2) unquantified
            (read_most-IsBounds n number.1 number.2
              (omega (arith, read_number-shorter false 0 text)))
            tt)))

-- What stood before `q` is what stood in `p`.
front :
    (p q : Parser)
    → Good p
    → Grows p q
    → AreTargets (length p.regex.code) q.regex.group_count (take (length p.regex.code) q.regex.code)
front p q h g =
    subst (λ c. AreTargets (length p.regex.code) q.regex.group_count c)
      (sym (ap (take (length p.regex.code)) g.joined ∙ take-append p.regex.code g.part))
      (AreTargets-le _ _ _ _ p.regex.code (omega arith) g.groups h.0)

longer : (p q : Parser) → Grows p q → length p.regex.code ≤ length q.regex.code
longer p q g = omega (arith, ap length g.joined, length-append p.regex.code g.part)

quantify-Fine :
    (p q : Parser) (bounds : Bounds)
    → Good p
    → Grows p q
    → IsBounds (length q.rest) bounds
    → Fine p (quantify (length p.regex.code) bounds q)
unfolding quantify
quantify-Fine p q unquantified h g i = g
quantify-Fine p q (refused m) h g i = tt
quantify-Fine p q (bounded least most text) h g i =
    Extends-Grows p q _ _ g
      (repeat-Extends q.regex.group_count (peek_char text == b'?') least most (length p.regex.code)
        q.regex.code (longer p q g) (front p q h g) g.good.0)
      (repeat-AllClassed _ (peek_char text == b'?') least most (length p.regex.code) q.regex.code
        g.good.1)
      (lazy (peek_char text == b'?'))
  where
    lazy : (b : Bool) → length (if b then next_char text else text) ≤ length p.rest
    lazy true = omega (arith, next_char-shorter text, i, g.text)
    lazy false = omega (arith, i, g.text)

module _ (b : ℕ) (inside : Parse) (parse : IsParse b inside) where
  parse_repetition-Fine :
      (c : ℕ) (p : Parser) → Good p → length p.rest < b → Fine p (parse_repetition inside c p)
  unfolding parse_repetition quantified
  parse_repetition-Fine c p h l =
      bind-Fine p (parse_atom inside c p) _ (parse_atom-Fine b inside parse c p h l)
        (λ q g. quantify-Fine p q (read_bounds q.rest) h g (read_bounds-IsBounds q.rest))

  parse_concatenation-Fine :
      (fuel : ℕ) (text : List ℕ) (p : Parser)
      → Good p
      → length text < fuel
      → length text ≤ b
      → length text ≤ length p.rest
      → Fine p (parse_concatenation fuel inside text p)
  unfolding parse_concatenation
  parse_concatenation-Fine zero text p h f l s = absurd (omega arith)
  parse_concatenation-Fine (suc fuel) [] p h f l s = Grows-refl p h
  parse_concatenation-Fine (suc fuel) (c ∷ text) p h f l s =
      let behind : Parser = record p { rest = text } in
      Fine-if p (c == b'|' || c == b')') (parsed p) _ (Grows-refl p h) (
        Fine-trans p behind _ (skip-Grows p text h (omega arith)) (
          and_then-Fine behind (parse_repetition inside c behind) _
            (parse_repetition-Fine c behind h (omega arith))
            (λ q g.
              parse_concatenation-Fine fuel q.rest q g.good (omega (arith, g.text, f))
                (omega (arith, g.text, l)) (omega arith))))

  next_shorter :
      (text : List ℕ) → (peek_char text == b'|') ≡ true → length (next_char text) < length text
  next_shorter [] e = ground (arith, e)
  next_shorter (c ∷ text) e = omega arith

  land-Fine :
      (p q : Parser) (jump : ℕ) → Grows p q → length p.regex.code ≤ jump → Fine p (land jump q)
  unfolding land
  land-Fine p q jump g h = set-Grows p q jump _ g h (omega arith) tt

  -- A further branch, with what comes behind it.
  another-Fine :
      (p q : Parser) (next : Parser → Answer)
      → Good p
      → Grows p q
      → length q.rest ≤ b
      → length (next_char q.rest) < length q.rest
      → ((r : Parser)
          → Grows (record p { rest = next_char q.rest }) r
          → Fine (record p { rest = next_char q.rest }) (next r))
      → Fine p (
          and_then
            (and_then
              (parse_concatenation
                (suc (length (next_char q.rest)))
                inside
                (next_char q.rest)
                (record {
                  regex = record q.regex { code = branch (length p.regex.code) q.regex.code };
                  rest = next_char q.rest;
                }))
              (land (length q.regex.code + 1)))
            next)
  another-Fine p q next h g l s follow =
      let text = next_char q.rest in
      let short : Parser = record p { rest = text } in
      let opened : Parser = record {
        regex = record q.regex { code = branch (length p.regex.code) q.regex.code };
        rest = text;
      } in
      let k : Grows short opened =
        rest-Grows p opened text
          (Extends-Grows p q (branch (length p.regex.code) q.regex.code) text g
            (branch-Extends q.regex.group_count (length p.regex.code) q.regex.code (longer p q g)
              (front p q h g) g.good.0)
            (branch-AllClassed _ (length p.regex.code) q.regex.code g.good.1)
            (omega (arith, s, g.text)))
          (omega arith) in
      Fine-trans p short _ (skip-Grows p text h (omega (arith, s, g.text))) (
        bind-Fine short _ next
          (bind-Fine short _ (land (length q.regex.code + 1))
            (Fine-trans short opened _ k (
              parse_concatenation-Fine (suc (length text)) text opened k.good (omega arith)
                (omega (arith, s, l)) (omega arith)))
            (λ r j. land-Fine short r (length q.regex.code + 1) j (omega (arith, longer p q g))))
          follow)

  alternatives-Fine :
      (fuel : ℕ) (p q : Parser)
      → Good p
      → Grows p q
      → length q.rest < fuel
      → length q.rest ≤ b
      → Fine p (alternatives fuel inside (length p.regex.code) q)
  unfolding alternatives
  alternatives-Fine zero p q h g f l = absurd (omega arith)
  alternatives-Fine (suc fuel) p q h g f l =
      Fine-test p (peek_char q.rest == b'|') _ (parsed q)
        (λ e.
          another-Fine p q (alternatives fuel inside (length p.regex.code)) h g l
            (next_shorter q.rest e)
            (λ r k.
              alternatives-Fine fuel (record p { rest = next_char q.rest }) r h k
                (omega (arith, k.text, next_shorter q.rest e, f))
                (omega (arith, k.text, next_shorter q.rest e, l))))
        (λ e. g)

pub parse_alternation-Fine : (depth : ℕ) → IsParse depth (parse_alternation depth)
unfolding parse_alternation
parse_alternation-Fine zero p h l = absurd (omega arith)
parse_alternation-Fine (suc depth) p h l =
    let inside = parse_alternation depth in
    let parse = parse_alternation-Fine depth in
    bind-Fine p (parse_concatenation (suc (length p.rest)) inside p.rest p) _
      (parse_concatenation-Fine depth inside parse (suc (length p.rest)) p.rest p h (omega arith)
        (omega arith) (omega arith))
      (λ q g.
        alternatives-Fine depth inside parse (suc (length p.rest)) p q h g (omega (arith, g.text))
          (omega (arith, g.text, l)))
