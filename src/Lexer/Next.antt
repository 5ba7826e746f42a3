-- ===== src/Lexer/Next.antt =====
-- src/compiler/lexer.c: operators, `csLexerNext`, and the loop over all tokens.
use cscript.Prelude.{
  ℕ, zero, suc, Bool, false, true, not, ◌&&◌, ◌||◌, List, [], ◌∷◌, length, ◌==◌, if◌then◌else◌,
  Option, none, some,
}
use cscript.Lexer.Words.{when◌then◌else◌}
use cscript.Lexer.Kinds.{
  Kind, token_left_paren, token_right_paren, token_left_brace, token_right_brace,
  token_left_bracket, token_right_bracket, token_comma, token_dot, token_ellipsis, token_semicolon,
  token_colon, token_question, token_question_dot, token_plus, token_minus, token_star, token_slash,
  token_percent, token_plus_plus, token_minus_minus, token_plus_equal, token_minus_equal,
  token_star_equal, token_slash_equal, token_percent_equal, token_star_star, token_star_star_equal,
  token_arrow, token_bang, token_bang_equal, token_bang_equal_equal, token_equal, token_equal_equal,
  token_equal_equal_equal, token_greater, token_greater_equal, token_less, token_less_equal,
  token_amp_amp, token_pipe, token_pipe_pipe, token_question_question, token_amp_amp_equal,
  token_pipe_pipe_equal, token_question_question_equal, token_private_name, token_eof,
}
use cscript.Lexer.Scan.{
  Lexer, Token, Scanned, peek, peek_next, is_at_end, advance, next_is, is_alpha, is_digit,
  is_name_part, make_token, error_token, lone_ampersand, unexpected, skip_while, skip_space,
  identifier, number, string, template_literal,
}

-- The cursor behind an operator and its kind; `none` in the kind is the error of a lone `&`.
abbrev pub Operator : Type 0
Operator = List ℕ × Option Kind

-- Brackets and the comma.
unfoldable pub bracket : ℕ → List ℕ → Option Operator
bracket c text =
    when c == b'('
    then some ((text, some token_left_paren))
    else (when c == b')'
        then some ((text, some token_right_paren))
        else (when c == b'{'
            then some ((text, some token_left_brace))
            else (when c == b'}'
                then some ((text, some token_right_brace))
                else (when c == b'['
                    then some ((text, some token_left_bracket))
                    else (when c == b']'
                        then some ((text, some token_right_bracket))
                        else (when c == b',' then some ((text, some token_comma)) else none))))))

-- The dot, the semicolon, the colon and the question mark.
unfoldable pub mark : ℕ → List ℕ → Option Operator
mark c text =
    when c == b'.'
    then some (
        when (peek text == b'.') && (peek_next text == b'.')
        then (advance (advance text), some token_ellipsis)
        else (text, some token_dot))
    else (when c == b';'
        then some ((text, some token_semicolon))
        else (when c == b':'
            then some ((text, some token_colon))
            else (when c == b'?'
                then some (
                    when next_is text b'?'
                    then (when next_is (advance text) b'='
                        then (advance (advance text), some token_question_question_equal)
                        else (advance text, some token_question_question))
                    else (when (peek text == b'.') && not (is_digit (peek_next text))
                        then (advance text, some token_question_dot)
                        else (text, some token_question)))
                else none)))

-- Arithmetic.
unfoldable pub arithmetic : ℕ → List ℕ → Option Operator
arithmetic c text =
    when c == b'+'
    then some (
        when next_is text b'+'
        then (advance text, some token_plus_plus)
        else (when next_is text b'='
            then (advance text, some token_plus_equal)
            else (text, some token_plus)))
    else (when c == b'-'
        then some (
            when next_is text b'-'
            then (advance text, some token_minus_minus)
            else (when next_is text b'='
                then (advance text, some token_minus_equal)
                else (text, some token_minus)))
        else (when c == b'*'
            then some (
                when next_is text b'*'
                then (when next_is (advance text) b'='
                    then (advance (advance text), some token_star_star_equal)
                    else (advance text, some token_star_star))
                else (when next_is text b'='
                    then (advance text, some token_star_equal)
                    else (text, some token_star)))
            else (when c == b'/'
                then some (
                    when next_is text b'='
                    then (advance text, some token_slash_equal)
                    else (text, some token_slash))
                else (when c == b'%'
                    then some (
                        when next_is text b'='
                        then (advance text, some token_percent_equal)
                        else (text, some token_percent))
                    else none))))

-- Comparison and assignment.
unfoldable pub comparison : ℕ → List ℕ → Option Operator
comparison c text =
    when c == b'!'
    then some (
        when next_is text b'='
        then (when next_is (advance text) b'='
            then (advance (advance text), some token_bang_equal_equal)
            else (advance text, some token_bang_equal))
        else (text, some token_bang))
    else (when c == b'='
        then some (
            when next_is text b'>'
            then (advance text, some token_arrow)
            else (when next_is text b'='
                then (when next_is (advance text) b'='
                    then (advance (advance text), some token_equal_equal_equal)
                    else (advance text, some token_equal_equal))
                else (text, some token_equal)))
        else (when c == b'<'
            then some (
                when next_is text b'='
                then (advance text, some token_less_equal)
                else (text, some token_less))
            else (when c == b'>'
                then some (
                    when next_is text b'='
                    then (advance text, some token_greater_equal)
                    else (text, some token_greater))
                else none)))

-- `&` and `|`; the inner `none` is the error of a lone `&`.
unfoldable pub logic : ℕ → List ℕ → Option Operator
logic c text =
    when c == b'&'
    then some (
        when next_is text b'&'
        then (when next_is (advance text) b'='
            then (advance (advance text), some token_amp_amp_equal)
            else (advance text, some token_amp_amp))
        else (text, none))
    else (when c == b'|'
        then some (
            when next_is text b'|'
            then (when next_is (advance text) b'='
                then (advance (advance text), some token_pipe_pipe_equal)
                else (advance text, some token_pipe_pipe))
            else (text, some token_pipe))
        else none)

-- The first of two answers.
unfoldable pub or_else : Option Operator → Option Operator → Option Operator
or_else none o = o
or_else (some x) o = some x

-- The cases of the `switch` of `csLexerNext` that are operators.
unfoldable pub operator : ℕ → List ℕ → Option Operator
operator c text = or_else (bracket c text) (
    or_else (mark c text)
      (or_else (arithmetic c text) (or_else (comparison c text) (logic c text))))

unfoldable pub finish_operator : Lexer → Operator → Scanned
finish_operator lexer (text, some kind) = make_token lexer text lexer.line kind
finish_operator lexer (text, none) = error_token lexer text lexer.line lone_ampersand

-- The end of `csLexerNext`: no operator begins with `c`.
unfoldable pub scan_literal : Lexer → ℕ → List ℕ → Scanned
scan_literal lexer c text =
    if c == b'"' || c == b'\''
    then string lexer c text
    else (if c == b'`'
        then template_literal lexer text
        else error_token lexer text lexer.line unexpected)

-- `csLexerNext` behind the first character `c`.
unfoldable pub scan_token : Lexer → ℕ → List ℕ → Scanned
scan_token lexer c text =
    if is_alpha c
    then identifier lexer text
    else (if (c == b'#') && is_alpha (peek text)
        then make_token lexer (skip_while is_name_part text) lexer.line token_private_name
        else (if is_digit c then number lexer c text else elim (operator c text) [
          | some o ↦ finish_operator lexer o
          | none ↦ scan_literal lexer c text
        ]))

-- `csLexerNext` behind the white space.
unfoldable pub scan : List ℕ → ℕ → Scanned
scan text line =
    let lexer : Lexer = record { start = text; current = text; line = line } in
    if is_at_end text
    then make_token lexer text line token_eof
    else scan_token lexer (peek text) (advance text)

-- `csLexerNext`; every round of the white space takes a byte, which bounds the rounds.
unfoldable pub next : Lexer → Option Scanned
next lexer = elim (skip_space (suc (length lexer.current)) lexer.current lexer.line) [
  | none ↦ none
  | some (text, line) ↦ some (scan text line)
]

abbrev pub is_eof : Kind → Bool
is_eof token_eof = true
is_eof kind = false

-- The loop of `csLexerDumpTokens`: the tokens up to the end, the last one included.
unfoldable pub tokens : ℕ → Lexer → Option (List Token)
tokens zero lexer = none
tokens (suc fuel) lexer = elim (next lexer) [
  | none ↦ none
  | some (behind, token) ↦
      let rest = tokens fuel behind in
      if is_eof token.kind
      then some (token ∷ [])
      else elim rest [ none ↦ none | some more ↦ some (token ∷ more) ]
]

-- `csLexerInit`
abbrev pub init : List ℕ → Lexer
init source = record { start = source; current = source; line = 1 }
