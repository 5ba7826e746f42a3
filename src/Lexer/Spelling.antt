-- ===== src/Lexer/Spelling.antt =====
-- src/compiler/lexer.c: what the text of a token of each kind is, and the operators of `csLexerNext`, whose text
-- is their spelling.
use cscript.Prelude.{
  ℕ, ◌≡◌, refl, sym, ap, ◌∙◌, arith, Bool, true, false, not, ◌&&◌, List, [], ◌∷◌, ◌++◌,
  append-append, ◌==◌, ==_iff, Option, none, some, inl, inr, Bool-cases,
}
use mathlib.Core.Path.{subst}
use cscript.Lexer.Kinds.{
  Kind, token_eof, token_error, token_string, token_template, token_regex, token_number,
  token_bigint, token_private_name, token_left_paren, token_right_paren, token_left_brace,
  token_right_brace, token_left_bracket, token_right_bracket, token_comma, token_dot,
  token_ellipsis, token_semicolon, token_colon, token_question, token_question_dot, token_plus,
  token_minus, token_star, token_slash, token_percent, token_plus_plus, token_minus_minus,
  token_plus_equal, token_minus_equal, token_star_equal, token_slash_equal, token_percent_equal,
  token_star_star, token_star_star_equal, token_arrow, token_bang, token_bang_equal,
  token_bang_equal_equal, token_equal, token_equal_equal, token_equal_equal_equal, token_greater,
  token_greater_equal, token_less, token_less_equal, token_amp_amp, token_pipe, token_pipe_pipe,
  token_question_question, token_amp_amp_equal, token_pipe_pipe_equal,
  token_question_question_equal,
}
use cscript.Lexer.Words.{when◌then◌else◌}
use cscript.Lexer.Scan.{peek, peek_next, advance, next_is}
use cscript.Lexer.Next.{Operator, bracket, mark, arithmetic, comparison, logic, or_else, operator}
use cscript.Lexer.Literals.{both, peek_next-cons}

-- The forms of tokens; that of an operator is its spelling.
pub data Form : Type 0 where
  spelled : List ℕ → Form
  name : Form
  private_name : Form
  string_form : Form
  template_form : Form
  number_form : Form
  regex_form : Form
  error_form : Form
  end_form : Form

abbrev pub form : Kind → Form
form token_left_paren = spelled (b'(' ∷ [])
form token_right_paren = spelled (b')' ∷ [])
form token_left_brace = spelled (b'{' ∷ [])
form token_right_brace = spelled (b'}' ∷ [])
form token_left_bracket = spelled (b'[' ∷ [])
form token_right_bracket = spelled (b']' ∷ [])
form token_comma = spelled (b',' ∷ [])
form token_dot = spelled (b'.' ∷ [])
form token_ellipsis = spelled (b'.' ∷ b'.' ∷ b'.' ∷ [])
form token_semicolon = spelled (b';' ∷ [])
form token_colon = spelled (b':' ∷ [])
form token_question = spelled (b'?' ∷ [])
form token_question_dot = spelled (b'?' ∷ b'.' ∷ [])
form token_plus = spelled (b'+' ∷ [])
form token_minus = spelled (b'-' ∷ [])
form token_star = spelled (b'*' ∷ [])
form token_slash = spelled (b'/' ∷ [])
form token_percent = spelled (b'%' ∷ [])
form token_plus_plus = spelled (b'+' ∷ b'+' ∷ [])
form token_minus_minus = spelled (b'-' ∷ b'-' ∷ [])
form token_plus_equal = spelled (b'+' ∷ b'=' ∷ [])
form token_minus_equal = spelled (b'-' ∷ b'=' ∷ [])
form token_star_equal = spelled (b'*' ∷ b'=' ∷ [])
form token_slash_equal = spelled (b'/' ∷ b'=' ∷ [])
form token_percent_equal = spelled (b'%' ∷ b'=' ∷ [])
form token_star_star = spelled (b'*' ∷ b'*' ∷ [])
form token_star_star_equal = spelled (b'*' ∷ b'*' ∷ b'=' ∷ [])
form token_arrow = spelled (b'=' ∷ b'>' ∷ [])
form token_bang = spelled (b'!' ∷ [])
form token_bang_equal = spelled (b'!' ∷ b'=' ∷ [])
form token_bang_equal_equal = spelled (b'!' ∷ b'=' ∷ b'=' ∷ [])
form token_equal = spelled (b'=' ∷ [])
form token_equal_equal = spelled (b'=' ∷ b'=' ∷ [])
form token_equal_equal_equal = spelled (b'=' ∷ b'=' ∷ b'=' ∷ [])
form token_greater = spelled (b'>' ∷ [])
form token_greater_equal = spelled (b'>' ∷ b'=' ∷ [])
form token_less = spelled (b'<' ∷ [])
form token_less_equal = spelled (b'<' ∷ b'=' ∷ [])
form token_amp_amp = spelled (b'&' ∷ b'&' ∷ [])
form token_pipe = spelled (b'|' ∷ [])
form token_pipe_pipe = spelled (b'|' ∷ b'|' ∷ [])
form token_question_question = spelled (b'?' ∷ b'?' ∷ [])
form token_amp_amp_equal = spelled (b'&' ∷ b'&' ∷ b'=' ∷ [])
form token_pipe_pipe_equal = spelled (b'|' ∷ b'|' ∷ b'=' ∷ [])
form token_question_question_equal = spelled (b'?' ∷ b'?' ∷ b'=' ∷ [])
form token_eof = end_form
form token_error = error_form
form token_string = string_form
form token_template = template_form
form token_regex = regex_form
form token_number = number_form
form token_bigint = number_form
form token_private_name = private_name
form kind = name

-- Behind the bytes `front` and before `text`, an operator ends at its cursor, which is behind its spelling;
-- the error stands behind a `&`.
pub data After (front text : List ℕ) : Operator → Type 0 where
  spells :
      {rest : List ℕ} {kind : Kind} (w : List ℕ)
      → form kind ≡ spelled w
      → w ++ rest ≡ front ++ text
      → After front text (rest, some kind)
  lone : {rest : List ℕ} → b'&' ∷ rest ≡ front ++ text → After front text (rest, none)

pub data AllAfter (c : ℕ) (text : List ℕ) : Option Operator → Type 0 where
  other_after : AllAfter c text none
  case_after : {o : Operator} → After (c ∷ []) text o → AllAfter c text (some o)

leaf :
    (front text : List ℕ) (kind : Kind)
    → form kind ≡ spelled front
    → After front text (text, some kind)
leaf front text kind h = spells front h refl

-- The error of a lone `&`.
ampersand : (text : List ℕ) → After (b'&' ∷ []) text (text, none)
ampersand text = lone refl

-- One byte further.
moved :
    (front text : List ℕ) (k : ℕ) (o : Operator)
    → text ≡ k ∷ advance text
    → After (front ++ k ∷ []) (advance text) o
    → After front text o
moved front text k o at (spells w f e) =
    spells w f (e ∙ (append-append front (k ∷ []) (advance text) ∙ ap (λ t. front ++ t) (sym at)))
moved front text k o at (lone e) =
    lone (e ∙ (append-append front (k ∷ []) (advance text) ∙ ap (λ t. front ++ t) (sym at)))

is_byte :
    (text : List ℕ) (k : ℕ) → (peek text == k) ≡ true → (k == 0) ≡ false → text ≡ k ∷ advance text
is_byte [] k e z = absurd (ground (arith, e, z))
is_byte (c ∷ text) k e z = ap (λ c. c ∷ text) ((==_iff c k).0 e)

when-After :
    (front text : List ℕ) (b : Bool) (x y : Operator)
    → (b ≡ true → After front text x)
    → After front text y
    → After front text (when b then x else y)
unfolding when◌then◌else◌
when-After front text true x y hx hy = hx refl
when-After front text false x y hx hy = hy

next_is-byte : (text : List ℕ) (k : ℕ) → next_is text k ≡ true → text ≡ k ∷ advance text
next_is-byte [] k e = absurd cc
next_is-byte (c ∷ text) k e =
    let (x, y) = both (not (c == 0)) (c == k) e in ap (λ c. c ∷ text) ((==_iff c k).0 y)

step :
    (front text : List ℕ) (k : ℕ) (x y : Operator)
    → After (front ++ k ∷ []) (advance text) x
    → After front text y
    → After front text (when next_is text k then x else y)
step front text k x y hx hy =
    when-After front text (next_is text k) x y
      (λ e. moved front text k x (next_is-byte text k e) hx) hy

-- The two dots of an ellipsis, and the dot behind a question mark.
dots :
    (front text : List ℕ) (x y : Operator)
    → After (front ++ b'.' ∷ b'.' ∷ []) (advance (advance text)) x
    → After front text y
    → After front text (when (peek text == b'.') && (peek_next text == b'.') then x else y)
dots front text x y hx hy =
    when-After front text _ x y
      (λ e.
        let (a, b) = both (peek text == b'.') (peek_next text == b'.') e in
        let first = is_byte text b'.' a refl in
        let second =
          is_byte (advance text) b'.' (subst (λ t. (t == b'.') ≡ true) (peek_next-dot text first) b)
            refl in
        moved front text b'.' x first (
          moved (front ++ b'.' ∷ []) (advance text) b'.' x second (
            subst (λ u. After u (advance (advance text)) x)
              (sym (append-append front (b'.' ∷ []) (b'.' ∷ []))) hx)))
      hy
  where
    peek_next-dot :
        (text : List ℕ) → text ≡ b'.' ∷ advance text → peek_next text ≡ peek (advance text)
    peek_next-dot text e =
        subst (λ t. peek_next t ≡ peek (advance t)) (sym e)
          (peek_next-cons b'.' (advance text) refl)

dot :
    (front text : List ℕ) (b : Bool) (x y : Operator)
    → After (front ++ b'.' ∷ []) (advance text) x
    → After front text y
    → After front text (when (peek text == b'.') && b then x else y)
dot front text b x y hx hy =
    when-After front text _ x y
      (λ e.
        let (a, c) = both (peek text == b'.') b e in
        moved front text b'.' x (is_byte text b'.' a refl) hx)
      hy

-- A case of the `switch`.
when-AllAfter :
    (c k : ℕ) (text : List ℕ) (x : Operator) (y : Option Operator)
    → After (k ∷ []) text x
    → AllAfter c text y
    → AllAfter c text (when c == k then some x else y)
unfolding when◌then◌else◌
when-AllAfter c k text x y hx hy = elim (Bool-cases (c == k)) [
  | inl e ↦ rw e (case_after (subst (λ k. After (k ∷ []) text x) (sym ((==_iff c k).0 e)) hx))
  | inr e ↦ rw e hy
]

ruleset spellings = (when-AllAfter, step, dots, dot, leaf, ampersand, other_after)

bracket-AllAfter : (c : ℕ) (text : List ℕ) → AllAfter c text (bracket c text)
unfolding bracket
bracket-AllAfter c text = search spellings depth 40

mark-AllAfter : (c : ℕ) (text : List ℕ) → AllAfter c text (mark c text)
unfolding mark
mark-AllAfter c text = search spellings depth 40

arithmetic-AllAfter : (c : ℕ) (text : List ℕ) → AllAfter c text (arithmetic c text)
unfolding arithmetic
arithmetic-AllAfter c text = search spellings depth 40

comparison-AllAfter : (c : ℕ) (text : List ℕ) → AllAfter c text (comparison c text)
unfolding comparison
comparison-AllAfter c text = search spellings depth 40

logic-AllAfter : (c : ℕ) (text : List ℕ) → AllAfter c text (logic c text)
unfolding logic
logic-AllAfter c text = search spellings depth 40

first_of :
    (c : ℕ) (text : List ℕ) (a b : Option Operator)
    → AllAfter c text a
    → AllAfter c text b
    → AllAfter c text (or_else a b)
unfolding or_else
first_of c text none b h g = g
first_of c text (some o) b h g = h

pub operator-AllAfter : (c : ℕ) (text : List ℕ) → AllAfter c text (operator c text)
unfolding operator
operator-AllAfter c text = first_of c text _ _ (bracket-AllAfter c text) (
    first_of c text _ _ (mark-AllAfter c text) (
      first_of c text _ _ (arithmetic-AllAfter c text)
        (first_of c text _ _ (comparison-AllAfter c text) (logic-AllAfter c text))))
