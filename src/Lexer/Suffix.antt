-- ===== src/Lexer/Suffix.antt =====
-- src/compiler/lexer.c: every step of the scanners leaves the cursor within the text.
use cscript.Prelude.{
  append-append, ℕ, zero, suc, ◌≤◌, ◌≡◌, ◌∙◌, refl, ap, inl, inr, Bool, true, false, ◌&&◌, ◌||◌,
  List, [], ◌∷◌, ◌++◌, length, not, ◌==◌, if◌then◌else◌, Option, none, some, arith, Bool-cases,
  length-append,
}
use cscript.Lexer.Kinds.{Kind}
use cscript.Lexer.Words.{when◌then◌else◌}
use cscript.Lexer.Scan.{
  peek, peek_next, advance, skip_while, skip_block, skip_fraction, skip_exponent, template_end,
  string_end,
}
use cscript.Lexer.Next.{
  Operator, bracket, mark, arithmetic, comparison, logic, or_else, operator, is_eof,
}

-- `rest` is what is left of `text`.
pub data Suffix (rest : List ℕ) (text : List ℕ) : Type 0 where
  behind : (w : List ℕ) → w ++ rest ≡ text → Suffix rest text

pub Suffix-refl : (text : List ℕ) → Suffix text text
Suffix-refl text = behind [] refl

pub Suffix-trans : (a b c : List ℕ) → Suffix a b → Suffix b c → Suffix a c
Suffix-trans a b c (behind u hu) (behind v hv) =
    behind (v ++ u) (append-append v u a ∙ (ap (λ t. v ++ t) hu ∙ hv))

pub Suffix-length : (a b : List ℕ) → Suffix a b → length a ≤ length b
Suffix-length a b (behind w h) = omega (arith, length-append w a, ap length h)

pub Suffix-advance : (text : List ℕ) → Suffix (advance text) text
Suffix-advance [] = behind [] refl
Suffix-advance (c ∷ text) = behind (c ∷ []) refl

pub Suffix-if :
    (b : Bool) (x y text : List ℕ)
    → Suffix x text
    → Suffix y text
    → Suffix (if b then x else y) text
Suffix-if true x y text hx hy = hx
Suffix-if false x y text hx hy = hy

pub Suffix-next : (rest text : List ℕ) → Suffix rest (advance text) → Suffix rest text
Suffix-next rest text h = Suffix-trans rest (advance text) text h (Suffix-advance text)

pub Suffix-cons : (rest text : List ℕ) (c : ℕ) → Suffix rest text → Suffix rest (c ∷ text)
Suffix-cons rest text c h = Suffix-next rest (c ∷ text) h

pub skip_while-Suffix : (test : ℕ → Bool) (text : List ℕ) → Suffix (skip_while test text) text
unfolding skip_while
skip_while-Suffix test [] = Suffix-refl []
skip_while-Suffix test (c ∷ text) =
    Suffix-if (test c) _ _ _ (Suffix-cons _ text c (skip_while-Suffix test text))
      (Suffix-refl (c ∷ text))

pub skip_block-Suffix : (text : List ℕ) (line : ℕ) → Suffix (skip_block text line).0 text
unfolding skip_block
skip_block-Suffix [] line = Suffix-refl []
skip_block-Suffix (c ∷ text) line = elim (Bool-cases (c == 0)) [
  | inl e ↦ rw e (Suffix-refl (c ∷ text))
  | inr e ↦ elim (Bool-cases (c == b'*' && peek text == b'/')) [
    | inl f ↦ rw (e, f) (Suffix-cons _ text c (Suffix-advance text))
    | inr f ↦ rw (e, f) (Suffix-cons _ text c (skip_block-Suffix text _))
  ]
]

pub skip_fraction-Suffix : (text : List ℕ) → Suffix (skip_fraction text) text
unfolding skip_fraction
skip_fraction-Suffix text =
    Suffix-if _ _ _ _ (Suffix-next _ text (skip_while-Suffix _ _)) (Suffix-refl text)

pub skip_exponent-Suffix : (text : List ℕ) → Suffix (skip_exponent text) text
unfolding skip_exponent
skip_exponent-Suffix text =
    let sign =
      Suffix-if (peek (advance text) == b'+' || peek (advance text) == b'-') _ _ _
        (Suffix-advance (advance text)) (Suffix-refl (advance text)) in
    Suffix-if _ _ _ _
      (Suffix-if _ _ _ _ (Suffix-next _ text (Suffix-trans _ _ _ (skip_while-Suffix _ _) sign))
        (Suffix-refl text))
      (Suffix-refl text)

-- Two steps of the cursor that may be one.
hop : (b : Bool) (text : List ℕ) → Suffix (if b then advance (advance text) else advance text) text
hop b text =
    Suffix-if b _ _ _ (Suffix-next _ text (Suffix-advance (advance text))) (Suffix-advance text)

pub template_end-Suffix :
    (fuel : ℕ) (text : List ℕ) (line depth : ℕ) → Suffix (template_end fuel text line depth).1 text
unfolding template_end
template_end-Suffix zero text line depth = Suffix-refl text
template_end-Suffix (suc fuel) text line depth = elim (Bool-cases (peek text == 0)) [
  | inl e ↦ rw e (Suffix-refl text)
  | inr e ↦
      let c = peek text in
      let escape = (c == b'\\') && not (peek_next text == 0) in
      let rest =
        Suffix-trans _ _ _ (template_end-Suffix fuel _ _ _)
          (hop (escape || (c == b'$' && peek_next text == b'{')) text) in
      elim (Bool-cases (not escape && (depth == 0) && (c == b'`'))) [
        | inl f ↦ rw (e, f) (Suffix-advance text)
        | inr f ↦ rw (e, f) rest
      ]
]

pub string_end-Suffix :
    (fuel : ℕ) (text : List ℕ) (quote : ℕ) → Suffix (string_end fuel text quote).1 text
unfolding string_end
string_end-Suffix zero text quote = Suffix-refl text
string_end-Suffix (suc fuel) text quote =
    let c = peek text in
    let rest =
      Suffix-trans _ _ _ (string_end-Suffix fuel _ quote)
        (hop ((c == b'\\') && not (peek_next text == 0)) text) in
    elim (Bool-cases (c == 0)) [
      | inl e ↦ rw e (Suffix-refl text)
      | inr e ↦ elim (Bool-cases (c == quote)) [
        | inl f ↦ rw (e, f) (Suffix-refl text)
        | inr f ↦ elim (Bool-cases (c == b'\n')) [
          | inl g ↦ rw (e, f, g) (Suffix-refl text)
          | inr g ↦ rw (e, f, g) rest
        ]
      ]
    ]

-- What the cases of the `switch` may leave: a cursor within the text, and a kind that is not the end.
pub data Fine (text : List ℕ) : Operator → Type 0 where
  fine :
      {rest : List ℕ} {kind : Kind}
      → Suffix rest text
      → is_eof kind ≡ false
      → Fine text (rest, some kind)
  refused : {rest : List ℕ} → Suffix rest text → Fine text (rest, none)

pub data AllFine (text : List ℕ) : Option Operator → Type 0 where
  other : AllFine text none
  case : {o : Operator} → Fine text o → AllFine text (some o)

when-Fine :
    (text : List ℕ) (b : Bool) (x y : Operator)
    → Fine text x
    → Fine text y
    → Fine text (when b then x else y)
unfolding when◌then◌else◌
when-Fine text true x y hx hy = hx
when-Fine text false x y hx hy = hy

when-AllFine :
    (text : List ℕ) (b : Bool) (x y : Option Operator)
    → AllFine text x
    → AllFine text y
    → AllFine text (when b then x else y)
unfolding when◌then◌else◌
when-AllFine text true x y hx hy = hx
when-AllFine text false x y hx hy = hy

-- The leaves.
fine0 : (text : List ℕ) (kind : Kind) → is_eof kind ≡ false → Fine text (text, some kind)
fine0 text kind h = fine (Suffix-refl text) h

fine1 : (text : List ℕ) (kind : Kind) → is_eof kind ≡ false → Fine text (advance text, some kind)
fine1 text kind h = fine (Suffix-advance text) h

fine2 :
    (text : List ℕ) (kind : Kind)
    → is_eof kind ≡ false
    → Fine text (advance (advance text), some kind)
fine2 text kind h = fine (Suffix-next _ text (Suffix-advance (advance text))) h

ruleset cases = (when-AllFine, when-Fine, fine0, fine1, fine2, refused, other, case, Suffix-refl)

bracket-AllFine : (c : ℕ) (text : List ℕ) → AllFine text (bracket c text)
unfolding bracket
bracket-AllFine c text = search cases depth 30

mark-AllFine : (c : ℕ) (text : List ℕ) → AllFine text (mark c text)
unfolding mark
mark-AllFine c text = search cases depth 30

arithmetic-AllFine : (c : ℕ) (text : List ℕ) → AllFine text (arithmetic c text)
unfolding arithmetic
arithmetic-AllFine c text = search cases depth 30

comparison-AllFine : (c : ℕ) (text : List ℕ) → AllFine text (comparison c text)
unfolding comparison
comparison-AllFine c text = search cases depth 30

logic-AllFine : (c : ℕ) (text : List ℕ) → AllFine text (logic c text)
unfolding logic
logic-AllFine c text = search cases depth 30

either :
    {text : List ℕ} {a b : Option Operator}
    → AllFine text a
    → AllFine text b
    → AllFine text (or_else a b)
unfolding or_else
either other h = h
either (case f) h = case f

pub operator-AllFine : (c : ℕ) (text : List ℕ) → AllFine text (operator c text)
unfolding operator
operator-AllFine c text = either (bracket-AllFine c text) (
    either (mark-AllFine c text) (
      either (arithmetic-AllFine c text)
        (either (comparison-AllFine c text) (logic-AllFine c text))))
