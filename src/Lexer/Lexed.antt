-- ===== src/Lexer/Lexed.antt =====
-- src/compiler/lexer.c: what the scanners take of the text, and that none of them gives the end token.
use cscript.Prelude.{
  same_bytes, ℕ, suc, ◌≡◌, ◌∙◌, refl, ap, inl, inr, Bool, true, false, not, ◌&&◌, List, [], ◌∷◌,
  ◌||◌, ◌==◌, ==_iff, sym, length, if◌then◌else◌, Option, none, some, arith, Bool-cases,
}
use mathlib.Core.Path.{subst}
use cscript.Lexer.Kinds.{token_private_name, token_bigint, token_number}
use cscript.Lexer.Words.{identifier_type}
use cscript.Lexer.Keyword.{kind_of, identifier_type-table}
use cscript.Lexer.Sound.{Words, keywords, lookup}
use cscript.Lexer.Scan.{
  Lexer, is_hex_digit, skip_exponent, skip_fraction, advance, make_token, identifier, hex_number,
  number, template_literal, string, is_alpha, is_digit, is_name_part, is_hex_part, is_digit_part,
  peek, is_at_end, skip_while, Ending, closed, unclosed, spent, finish_template, finish_string,
}
use cscript.Lexer.Literals.{skip_while-Run, Quoted, StringEnds, string_end-StringEnds, both}
use cscript.Lexer.Templates.{TemplateEnds, template_end-TemplateEnds}
use cscript.Lexer.Spelling.{
  Form, spelled, name, private_name, string_form, template_form, number_form, regex_form,
  error_form, end_form, form, After, spells, lone, AllAfter, case_after, operator-AllAfter,
}
use cscript.Lexer.Next.{Operator, operator, finish_operator, scan_literal, scan_token, is_eof}
use cscript.Lexer.Suffix.{
  Suffix, Suffix-refl, Suffix-trans, Suffix-advance, skip_while-Suffix, skip_fraction-Suffix,
  skip_exponent-Suffix, template_end-Suffix, string_end-Suffix, Fine, fine, refused, AllFine, case,
  operator-AllFine,
}
use cscript.Lexer.Forms.{Formed, Digits, Lexed, make_token-Lexed, error_token-Lexed, Lexed-if}

abbrev has_no_eof : Words → Bool
has_no_eof [] = true
has_no_eof ((word, kind) ∷ words) = not (is_eof kind) && has_no_eof words

kind_of-is_eof :
    (words : Words) (text : List ℕ)
    → has_no_eof words ≡ true
    → is_eof (kind_of (lookup words text)) ≡ false
unfolding lookup
kind_of-is_eof [] text h = refl
kind_of-is_eof ((word, kind) ∷ words) text h = elim (Bool-cases (same_bytes text word)) [
  | inl e ↦ rw e (ground arith)
  | inr e ↦ rw e (kind_of-is_eof words text (ground arith))
]

identifier_type-is_eof : (text : List ℕ) → is_eof (identifier_type text) ≡ false
unfolding keywords
identifier_type-is_eof text =
    ap is_eof (identifier_type-table text) ∙ kind_of-is_eof keywords text refl

-- Every keyword, and every other identifier, has the form of a name.
abbrev is_name : Form → Bool
is_name name = true
is_name f = false

is_name-name : (f : Form) → is_name f ≡ true → f ≡ name
is_name-name name h = refl
is_name-name (spelled w) h = absurd cc
is_name-name private_name h = absurd cc
is_name-name string_form h = absurd cc
is_name-name template_form h = absurd cc
is_name-name number_form h = absurd cc
is_name-name regex_form h = absurd cc
is_name-name error_form h = absurd cc
is_name-name end_form h = absurd cc

abbrev has_names : Words → Bool
has_names [] = true
has_names ((word, kind) ∷ words) = is_name (form kind) && has_names words

kind_of-is_name :
    (words : Words) (text : List ℕ)
    → has_names words ≡ true
    → is_name (form (kind_of (lookup words text))) ≡ true
unfolding lookup
kind_of-is_name [] text h = refl
kind_of-is_name ((word, kind) ∷ words) text h =
    let (x, y) = both (is_name (form kind)) (has_names words) h in
    elim (Bool-cases (same_bytes text word)) [
      | inl e ↦ rw e x
      | inr e ↦ rw e (kind_of-is_name words text y)
    ]

form-identifier_type : (text : List ℕ) → form (identifier_type text) ≡ name
unfolding keywords
form-identifier_type text =
    is_name-name _
      (ap (λ k. is_name (form k)) (identifier_type-table text) ∙ kind_of-is_name keywords text refl)

none_of :
    (a b c d e : Bool)
    → a ≡ false
    → b ≡ false
    → (c || d) ≡ false
    → e ≡ false
    → (a || b || c || d || e) ≡ false
none_of a b true d e x y z w = absurd cc
none_of a b false d e x y z w = rw (x, y, z, w) refl

-- The token behind its first byte.
module _ (lexer : Lexer) (c : ℕ) (text : List ℕ) (at : lexer.start ≡ c ∷ text) where
  skipped : (rest : List ℕ) → Suffix rest text → Suffix rest (advance lexer.start)
  skipped rest h = subst (λ t. Suffix rest (advance t)) (sym at) h

  identifier-Lexed : is_alpha c ≡ true → Lexed lexer.start (identifier lexer text)
  unfolding identifier
  identifier-Lexed a =
      make_token-Lexed lexer _ _ _ (skipped _ (skip_while-Suffix _ text)) (identifier_type-is_eof _)
        (subst (Formed lexer.start (skip_while is_name_part text) none)
          (sym (form-identifier_type _)) (c, text, at, a, skip_while-Run is_name_part text refl))

  hex_number-Lexed :
      (x : ℕ) (digits : List ℕ)
      → lexer.start ≡ b'0' ∷ x ∷ digits
      → (x == b'x' || x == b'X') ≡ true
      → Suffix digits text
      → Lexed lexer.start (hex_number lexer digits)
  unfolding hex_number
  hex_number-Lexed x digits s e h =
      let whole = skip_while is_hex_part digits in
      let rest = Suffix-trans _ _ _ (skip_while-Suffix is_hex_part digits) h in
      elim (Bool-cases (is_hex_digit (peek digits))) [
        | inl k ↦
            let form : (end : List ℕ) → Suffix end whole → Digits lexer.start end =
              λ end t. inr (x, digits, whole, s, e, k, skip_while-Run is_hex_part digits refl, t) in
            rw k (
              Lexed-if _ _ _ _
                (make_token-Lexed lexer _ _ _
                  (skipped _ (Suffix-trans _ _ _ (Suffix-advance _) rest)) refl
                  (form _ (Suffix-advance whole)))
                (make_token-Lexed lexer _ _ _ (skipped _ rest) refl (form _ (Suffix-refl whole))))
        | inr k ↦ rw k (error_token-Lexed lexer _ _ _ (skipped _ h) (x, s, e, k))
      ]

  hex_prefix :
      (more : List ℕ)
      → text ≡ more
      → (c == b'0') ≡ true
      → (peek more == b'x' || peek more == b'X') ≡ true
      → lexer.start ≡ b'0' ∷ peek more ∷ advance more
  hex_prefix [] t z e = absurd cc
  hex_prefix (x ∷ more) t z e =
      at ∙ (ap (λ t. c ∷ t) t ∙ ap (λ c. c ∷ x ∷ more) ((==_iff c b'0').0 z))

  whole_number-Lexed :
      is_digit c ≡ true
      → Lexed lexer.start (
          let whole = skip_while is_digit_part text in
          if peek whole == b'n'
          then make_token lexer (advance whole) lexer.line token_bigint
          else make_token lexer (skip_exponent (skip_fraction whole)) lexer.line token_number)
  whole_number-Lexed d =
      let whole = skip_while is_digit_part text in
      let within = skip_while-Suffix is_digit_part text in
      let tail = Suffix-trans _ _ _ (skip_exponent-Suffix _) (skip_fraction-Suffix whole) in
      let form : (end : List ℕ) → Suffix end whole → Digits lexer.start end =
        λ end t. inl (c, text, whole, at, d, skip_while-Run is_digit_part text refl, t) in
      Lexed-if _ _ _ _
        (make_token-Lexed lexer _ _ _ (skipped _ (Suffix-trans _ _ _ (Suffix-advance _) within))
          refl (form _ (Suffix-advance whole)))
        (make_token-Lexed lexer _ _ _ (skipped _ (Suffix-trans _ _ _ tail within)) refl
          (form _ tail))

  number-Lexed : is_digit c ≡ true → Lexed lexer.start (number lexer c text)
  unfolding number
  number-Lexed d = elim (Bool-cases ((c == b'0') && (peek text == b'x' || peek text == b'X'))) [
    | inl e ↦
        let (z, x) = both (c == b'0') (peek text == b'x' || peek text == b'X') e in
        rw e (
          hex_number-Lexed (peek text) (advance text) (hex_prefix text refl z x) x
            (Suffix-advance text))
    | inr e ↦ rw e (whole_number-Lexed d)
  ]

  finish_template-Lexed :
      (r : Ending × List ℕ × ℕ)
      → c ≡ b'`'
      → Suffix r.1 text
      → TemplateEnds 0 text r
      → Lexed lexer.start (finish_template lexer r)
  unfolding finish_template
  finish_template-Lexed (closed, end, line) e h t =
      make_token-Lexed lexer _ _ _ (skipped _ h) refl (text, at ∙ ap (λ c. c ∷ text) e, t)
  finish_template-Lexed (unclosed, end, line) e h (later, q, stops) =
      error_token-Lexed lexer _ _ _ (skipped _ h) (text, later, at ∙ ap (λ c. c ∷ text) e, q, stops)
  finish_template-Lexed (spent, end, line) e h t = absurd t

  template_literal-Lexed : (c == b'`') ≡ true → Lexed lexer.start (template_literal lexer text)
  unfolding template_literal
  template_literal-Lexed e =
      finish_template-Lexed _ ((==_iff c b'`').0 e)
        (template_end-Suffix (suc (length text)) text lexer.line 0)
        (template_end-TemplateEnds (suc (length text)) text lexer.line 0 (omega arith))

  first_byte : (end : List ℕ) → is_at_end end ≡ false → peek end ≡ c → end ≡ c ∷ advance end
  first_byte [] e p = absurd cc
  first_byte (d ∷ end) e p = ap (λ d. d ∷ end) p

  finish_string-Lexed :
      (r : Ending × List ℕ)
      → (c == b'"' || c == b'\'') ≡ true
      → Suffix r.1 text
      → StringEnds c text r
      → Lexed lexer.start (finish_string lexer r)
  unfolding finish_string
  finish_string-Lexed (closed, end) e h (q, live, p) =
      make_token-Lexed lexer _ _ _ (skipped _ (Suffix-trans _ _ _ (Suffix-advance _) h)) refl
        (c, text, at, e, subst (Quoted c text) (first_byte end live p) q)
  finish_string-Lexed (unclosed, end) e h (q, stops) =
      error_token-Lexed lexer _ _ _ (skipped _ h) (c, text, at, e, q, stops)
  finish_string-Lexed (spent, end) e h t = absurd t

  string-Lexed : (c == b'"' || c == b'\'') ≡ true → Lexed lexer.start (string lexer c text)
  unfolding string
  string-Lexed e =
      finish_string-Lexed _ e (string_end-Suffix (suc (length text)) text c)
        (string_end-StringEnds (suc (length text)) text c (omega arith))

  finish_operator-Lexed :
      (o : Operator)
      → Fine text o
      → After (c ∷ []) text o
      → Lexed lexer.start (finish_operator lexer o)
  unfolding finish_operator
  finish_operator-Lexed (rest, some kind) (fine h k) (spells w f e) =
      make_token-Lexed lexer _ _ _ (skipped _ h) k
        (subst (Formed lexer.start rest none) (sym f) (e ∙ sym at))
  finish_operator-Lexed (rest, none) (refused h) (lone e) =
      error_token-Lexed lexer _ _ _ (skipped _ h) (e ∙ sym at)

  scan_literal-Lexed :
      is_alpha c ≡ false
      → is_digit c ≡ false
      → operator c text ≡ none
      → Lexed lexer.start (scan_literal lexer c text)
  unfolding scan_literal
  scan_literal-Lexed a d o = elim (Bool-cases (c == b'"' || c == b'\'')) [
    | inl e ↦ rw e (string-Lexed e)
    | inr e ↦ elim (Bool-cases (c == b'`')) [
      | inl f ↦ rw (e, f) (template_literal-Lexed f)
      | inr f ↦
          rw (e, f)
            (error_token-Lexed lexer _ _ _ (skipped _ (Suffix-refl text))
              (c, at, none_of _ _ _ _ _ a d e f, o))
    ]
  ]

  scan_operator-Lexed :
      (o : Option Operator)
      → operator c text ≡ o
      → is_alpha c ≡ false
      → is_digit c ≡ false
      → AllFine text o
      → AllAfter c text o
      → Lexed lexer.start
          (elim o [ some o ↦ finish_operator lexer o | none ↦ scan_literal lexer c text ])
  scan_operator-Lexed (some o) e a d (case h) (case_after s) = finish_operator-Lexed o h s
  scan_operator-Lexed none e a d h s = scan_literal-Lexed a d e

  private-Lexed :
      (c == b'#' && is_alpha (peek text)) ≡ true
      → Lexed lexer.start
          (make_token lexer (skip_while is_name_part text) lexer.line token_private_name)
  private-Lexed e =
      let (x, y) = both (c == b'#') (is_alpha (peek text)) e in
      make_token-Lexed lexer _ _ _ (skipped _ (skip_while-Suffix is_name_part text)) refl (
        text,
        at ∙ ap (λ c. c ∷ text) ((==_iff c b'#').0 x),
        y,
        skip_while-Run is_name_part text refl,
      )

  pub scan_token-Lexed : Lexed lexer.start (scan_token lexer c text)
  unfolding scan_token
  scan_token-Lexed = elim (Bool-cases (is_alpha c)) [
    | inl a ↦ rw a (identifier-Lexed a)
    | inr a ↦ elim (Bool-cases ((c == b'#') && is_alpha (peek text))) [
      | inl p ↦ rw (a, p) (private-Lexed p)
      | inr p ↦ elim (Bool-cases (is_digit c)) [
        | inl d ↦ rw (a, p, d) (number-Lexed d)
        | inr d ↦
            rw (a, p, d)
              (scan_operator-Lexed _ refl a d (operator-AllFine c text) (operator-AllAfter c text))
      ]
    ]
  ]
