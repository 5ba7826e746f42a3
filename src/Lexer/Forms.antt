-- ===== src/Lexer/Forms.antt =====
-- src/compiler/lexer.c: the form that a token has in the text, and where the cursor of an error stands.
use cscript.Prelude.{
  ◌⊎◌, ℕ, ◌≡◌, refl, Bool, true, false, List, ◌∷◌, ◌++◌, ◌||◌, ◌==◌, if◌then◌else◌, Option, none,
  some,
}
use cscript.Lexer.Kinds.{Kind}
use cscript.Lexer.Scan.{
  Lexer, Scanned, Message, hex_digits, open_template, open_string, open_regex, lone_ampersand,
  unexpected, is_hex_digit, advance, lexeme, make_token, error_token, endless, is_alpha, is_digit,
  is_name_part, is_digit_part, is_hex_part, peek, is_at_end,
}
use cscript.Lexer.Literals.{Run, Quoted}
use cscript.Lexer.Templates.{Template}
use cscript.Lexer.Spelling.{
  Form, spelled, name, private_name, string_form, template_form, number_form, regex_form,
  error_form, end_form, form,
}
use cscript.Lexer.Next.{operator, is_eof}
use cscript.Lexer.Suffix.{Suffix}

-- Where the cursor of an error stands, by its message: behind `0x` at no hexadecimal digit, at the end of the
-- source in a template, at a newline or the end of the source in a string, behind a `&`, or behind a byte
-- with which no token begins. The other messages are none of `csLexerNext`.
abbrev pub Fault : List ℕ → List ℕ → Option Message → Type 0
Fault start end (some hex_digits) =
    (x : ℕ) × (start ≡ b'0' ∷ x ∷ end)
    × ((x == b'x' || x == b'X') ≡ true)
    × (is_hex_digit (peek end) ≡ false)
Fault start end (some open_template) =
    (body : List ℕ) × (later : ℕ) × (start ≡ b'`' ∷ body)
    × Template 0 body later end
    × (is_at_end end ≡ true)
Fault start end (some open_string) =
    (quote : ℕ) × (body : List ℕ) × (start ≡ quote ∷ body)
    × ((quote == b'"' || quote == b'\'') ≡ true)
    × Quoted quote body end
    × ((is_at_end end || peek end == b'\n') ≡ true)
Fault start end (some lone_ampersand) = b'&' ∷ end ≡ start
Fault start end (some unexpected) =
    (c : ℕ) × (start ≡ c ∷ end)
    × ((is_alpha c || is_digit c || c == b'"' || c == b'\'' || c == b'`') ≡ false)
    × (operator c end ≡ none)
Fault start end m = ⊥

-- A number takes all digits behind the first, or behind `0x` all hexadecimal digits, underscores included; a
-- fraction, an exponent or an `n` may follow.
abbrev pub Digits : List ℕ → List ℕ → Type 0
Digits start end =
    ((c : ℕ) × (body : List ℕ) × (whole : List ℕ) × (start ≡ c ∷ body)
      × (is_digit c ≡ true)
      × Run is_digit_part body whole
      × Suffix end whole)
    ⊎ ((x : ℕ) × (digits : List ℕ) × (whole : List ℕ) × (start ≡ b'0' ∷ x ∷ digits)
        × ((x == b'x' || x == b'X') ≡ true)
        × (is_hex_digit (peek digits) ≡ true)
        × Run is_hex_part digits whole
        × Suffix end whole)

-- What stands between the start of a token and the cursor behind it, by its form.
abbrev pub Formed : List ℕ → List ℕ → Option Message → Form → Type 0
Formed start end m (spelled w) = w ++ end ≡ start
Formed start end m name =
    (c : ℕ) × (body : List ℕ) × (start ≡ c ∷ body) × (is_alpha c ≡ true) × Run is_name_part body end
Formed start end m private_name =
    (body : List ℕ) × (start ≡ b'#' ∷ body)
    × (is_alpha (peek body) ≡ true)
    × Run is_name_part body end
Formed start end m string_form =
    (quote : ℕ) × (body : List ℕ) × (start ≡ quote ∷ body)
    × ((quote == b'"' || quote == b'\'') ≡ true)
    × Quoted quote body (quote ∷ end)
Formed start end m template_form =
    (body : List ℕ) × (start ≡ b'`' ∷ body) × Template 0 body 0 (b'`' ∷ end)
Formed start end m number_form = Digits start end
Formed start end m regex_form = ⊥
Formed start end m error_form = Fault start end m
Formed start end m end_form = ⊥

abbrev pub is_endless : Option Message → Bool
is_endless (some endless) = true
is_endless m = false

-- A token from `start` on: it takes its first byte, its text is the bytes taken, which have the form of its
-- kind, and no loop has run out of rounds.
pub record Lexed (start : List ℕ) (s : Scanned) : Type 0 where
  pub same : s.0.start ≡ start
  pub rest : Suffix s.0.current (advance start)
  pub text : s.1.text ≡ lexeme start s.0.current
  pub kind : is_eof s.1.kind ≡ false
  pub shape : Formed start s.0.current s.1.message (form s.1.kind)
  pub ended : is_endless s.1.message ≡ false

pub make_token-Lexed :
    (lexer : Lexer) (rest : List ℕ) (line : ℕ) (kind : Kind)
    → Suffix rest (advance lexer.start)
    → is_eof kind ≡ false
    → Formed lexer.start rest none (form kind)
    → Lexed lexer.start (make_token lexer rest line kind)
unfolding make_token
make_token-Lexed lexer rest line kind h k s = record {
  same = refl;
  rest = h;
  text = refl;
  kind = k;
  shape = s;
  ended = refl;
}

Fault-ends :
    (start end : List ℕ) (message : Message)
    → Fault start end (some message)
    → is_endless (some message) ≡ false
Fault-ends start end hex_digits f = refl
Fault-ends start end open_template f = refl
Fault-ends start end open_string f = refl
Fault-ends start end open_regex f = refl
Fault-ends start end lone_ampersand f = refl
Fault-ends start end unexpected f = refl
Fault-ends start end endless f = absurd f

pub error_token-Lexed :
    (lexer : Lexer) (rest : List ℕ) (line : ℕ) (message : Message)
    → Suffix rest (advance lexer.start)
    → Fault lexer.start rest (some message)
    → Lexed lexer.start (error_token lexer rest line message)
unfolding error_token
error_token-Lexed lexer rest line message h f = record {
  same = refl;
  rest = h;
  text = refl;
  kind = refl;
  shape = f;
  ended = Fault-ends _ _ message f;
}

pub Lexed-if :
    (start : List ℕ) (b : Bool) (x y : Scanned)
    → Lexed start x
    → Lexed start y
    → Lexed start (if b then x else y)
Lexed-if start true x y hx hy = hx
Lexed-if start false x y hx hy = hy
