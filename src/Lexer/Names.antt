-- ===== src/Lexer/Names.antt =====
-- src/compiler/lexer_keyword.c: the names of the kinds of tokens, which dumps and messages show.
use cscript.Prelude.{ℕ, ◌≡◌, ◌∙◌, refl, sym, ap, List, [], ◌∷◌, some, some-cancel}
use cscript.Lexer.Kinds.{
  Kind, token_left_paren, token_right_paren, token_left_brace, token_right_brace,
  token_left_bracket, token_right_bracket, token_comma, token_dot, token_ellipsis, token_semicolon,
  token_colon, token_question, token_question_dot, token_plus, token_minus, token_star, token_slash,
  token_percent, token_plus_plus, token_minus_minus, token_plus_equal, token_minus_equal,
  token_star_equal, token_slash_equal, token_percent_equal, token_star_star, token_star_star_equal,
  token_arrow, token_bang, token_bang_equal, token_bang_equal_equal, token_equal, token_equal_equal,
  token_equal_equal_equal, token_greater, token_greater_equal, token_less, token_less_equal,
  token_amp_amp, token_pipe, token_pipe_pipe, token_question_question, token_amp_amp_equal,
  token_pipe_pipe_equal, token_question_question_equal, token_identifier, token_string,
  token_number, token_bigint, token_template, token_regex, token_private_name, token_true,
  token_false, token_null, token_undefined, token_let, token_const, token_var, token_function,
  token_return, token_if, token_else, token_while, token_for, token_typeof, token_switch,
  token_case, token_default, token_of, token_break, token_continue, token_try, token_catch,
  token_finally, token_throw, token_class, token_extends, token_new, token_this, token_super,
  token_static, token_instanceof, token_import, token_export, token_await, token_do, token_in,
  token_delete, token_yield, token_void, token_error, token_eof,
}
use cscript.Lexer.Sound.{Words, lookup}

-- `csTokenTypeName`
unfoldable pub token_name : Kind → List ℕ
token_name token_left_paren =
    b'L' ∷ b'E' ∷ b'F' ∷ b'T' ∷ b'_' ∷ b'P' ∷ b'A' ∷ b'R' ∷ b'E' ∷ b'N' ∷ []
token_name token_right_paren =
    b'R' ∷ b'I' ∷ b'G' ∷ b'H' ∷ b'T' ∷ b'_' ∷ b'P' ∷ b'A' ∷ b'R' ∷ b'E' ∷ b'N' ∷ []
token_name token_left_brace =
    b'L' ∷ b'E' ∷ b'F' ∷ b'T' ∷ b'_' ∷ b'B' ∷ b'R' ∷ b'A' ∷ b'C' ∷ b'E' ∷ []
token_name token_right_brace =
    b'R' ∷ b'I' ∷ b'G' ∷ b'H' ∷ b'T' ∷ b'_' ∷ b'B' ∷ b'R' ∷ b'A' ∷ b'C' ∷ b'E' ∷ []
token_name token_left_bracket =
    b'L' ∷ b'E' ∷ b'F' ∷ b'T' ∷ b'_' ∷ b'B' ∷ b'R' ∷ b'A' ∷ b'C' ∷ b'K' ∷ b'E' ∷ b'T' ∷ []
token_name token_right_bracket =
    b'R' ∷ b'I' ∷ b'G' ∷ b'H' ∷ b'T' ∷ b'_' ∷ b'B' ∷ b'R' ∷ b'A' ∷ b'C' ∷ b'K' ∷ b'E' ∷ b'T' ∷ []
token_name token_comma = b'C' ∷ b'O' ∷ b'M' ∷ b'M' ∷ b'A' ∷ []
token_name token_dot = b'D' ∷ b'O' ∷ b'T' ∷ []
token_name token_ellipsis = b'E' ∷ b'L' ∷ b'L' ∷ b'I' ∷ b'P' ∷ b'S' ∷ b'I' ∷ b'S' ∷ []
token_name token_semicolon = b'S' ∷ b'E' ∷ b'M' ∷ b'I' ∷ b'C' ∷ b'O' ∷ b'L' ∷ b'O' ∷ b'N' ∷ []
token_name token_colon = b'C' ∷ b'O' ∷ b'L' ∷ b'O' ∷ b'N' ∷ []
token_name token_question = b'Q' ∷ b'U' ∷ b'E' ∷ b'S' ∷ b'T' ∷ b'I' ∷ b'O' ∷ b'N' ∷ []
token_name token_question_dot =
    b'Q' ∷ b'U' ∷ b'E' ∷ b'S' ∷ b'T' ∷ b'I' ∷ b'O' ∷ b'N' ∷ b'_' ∷ b'D' ∷ b'O' ∷ b'T' ∷ []
token_name token_plus = b'P' ∷ b'L' ∷ b'U' ∷ b'S' ∷ []
token_name token_minus = b'M' ∷ b'I' ∷ b'N' ∷ b'U' ∷ b'S' ∷ []
token_name token_star = b'S' ∷ b'T' ∷ b'A' ∷ b'R' ∷ []
token_name token_slash = b'S' ∷ b'L' ∷ b'A' ∷ b'S' ∷ b'H' ∷ []
token_name token_percent = b'P' ∷ b'E' ∷ b'R' ∷ b'C' ∷ b'E' ∷ b'N' ∷ b'T' ∷ []
token_name token_plus_plus = b'P' ∷ b'L' ∷ b'U' ∷ b'S' ∷ b'_' ∷ b'P' ∷ b'L' ∷ b'U' ∷ b'S' ∷ []
token_name token_minus_minus =
    b'M' ∷ b'I' ∷ b'N' ∷ b'U' ∷ b'S' ∷ b'_' ∷ b'M' ∷ b'I' ∷ b'N' ∷ b'U' ∷ b'S' ∷ []
token_name token_plus_equal =
    b'P' ∷ b'L' ∷ b'U' ∷ b'S' ∷ b'_' ∷ b'E' ∷ b'Q' ∷ b'U' ∷ b'A' ∷ b'L' ∷ []
token_name token_minus_equal =
    b'M' ∷ b'I' ∷ b'N' ∷ b'U' ∷ b'S' ∷ b'_' ∷ b'E' ∷ b'Q' ∷ b'U' ∷ b'A' ∷ b'L' ∷ []
token_name token_star_equal =
    b'S' ∷ b'T' ∷ b'A' ∷ b'R' ∷ b'_' ∷ b'E' ∷ b'Q' ∷ b'U' ∷ b'A' ∷ b'L' ∷ []
token_name token_slash_equal =
    b'S' ∷ b'L' ∷ b'A' ∷ b'S' ∷ b'H' ∷ b'_' ∷ b'E' ∷ b'Q' ∷ b'U' ∷ b'A' ∷ b'L' ∷ []
token_name token_percent_equal =
    b'P' ∷ b'E' ∷ b'R' ∷ b'C' ∷ b'E' ∷ b'N' ∷ b'T' ∷ b'_' ∷ b'E' ∷ b'Q' ∷ b'U' ∷ b'A' ∷ b'L' ∷ []
token_name token_star_star = b'S' ∷ b'T' ∷ b'A' ∷ b'R' ∷ b'_' ∷ b'S' ∷ b'T' ∷ b'A' ∷ b'R' ∷ []
token_name token_star_star_equal =
    b'S' ∷ b'T' ∷ b'A' ∷ b'R' ∷ b'_' ∷ b'S' ∷ b'T' ∷ b'A' ∷ b'R' ∷ b'_' ∷ b'E' ∷ b'Q' ∷ b'U' ∷ b'A'
    ∷ b'L' ∷ []
token_name token_arrow = b'A' ∷ b'R' ∷ b'R' ∷ b'O' ∷ b'W' ∷ []
token_name token_bang = b'B' ∷ b'A' ∷ b'N' ∷ b'G' ∷ []
token_name token_bang_equal =
    b'B' ∷ b'A' ∷ b'N' ∷ b'G' ∷ b'_' ∷ b'E' ∷ b'Q' ∷ b'U' ∷ b'A' ∷ b'L' ∷ []
token_name token_bang_equal_equal =
    b'B' ∷ b'A' ∷ b'N' ∷ b'G' ∷ b'_' ∷ b'E' ∷ b'Q' ∷ b'U' ∷ b'A' ∷ b'L' ∷ b'_' ∷ b'E' ∷ b'Q' ∷ b'U'
    ∷ b'A' ∷ b'L' ∷ []
token_name token_equal = b'E' ∷ b'Q' ∷ b'U' ∷ b'A' ∷ b'L' ∷ []
token_name token_equal_equal =
    b'E' ∷ b'Q' ∷ b'U' ∷ b'A' ∷ b'L' ∷ b'_' ∷ b'E' ∷ b'Q' ∷ b'U' ∷ b'A' ∷ b'L' ∷ []
token_name token_equal_equal_equal =
    b'E' ∷ b'Q' ∷ b'U' ∷ b'A' ∷ b'L' ∷ b'_' ∷ b'E' ∷ b'Q' ∷ b'U' ∷ b'A' ∷ b'L' ∷ b'_' ∷ b'E' ∷ b'Q'
    ∷ b'U' ∷ b'A' ∷ b'L' ∷ []
token_name token_greater = b'G' ∷ b'R' ∷ b'E' ∷ b'A' ∷ b'T' ∷ b'E' ∷ b'R' ∷ []
token_name token_greater_equal =
    b'G' ∷ b'R' ∷ b'E' ∷ b'A' ∷ b'T' ∷ b'E' ∷ b'R' ∷ b'_' ∷ b'E' ∷ b'Q' ∷ b'U' ∷ b'A' ∷ b'L' ∷ []
token_name token_less = b'L' ∷ b'E' ∷ b'S' ∷ b'S' ∷ []
token_name token_less_equal =
    b'L' ∷ b'E' ∷ b'S' ∷ b'S' ∷ b'_' ∷ b'E' ∷ b'Q' ∷ b'U' ∷ b'A' ∷ b'L' ∷ []
token_name token_amp_amp = b'A' ∷ b'M' ∷ b'P' ∷ b'_' ∷ b'A' ∷ b'M' ∷ b'P' ∷ []
token_name token_pipe = b'P' ∷ b'I' ∷ b'P' ∷ b'E' ∷ []
token_name token_pipe_pipe = b'P' ∷ b'I' ∷ b'P' ∷ b'E' ∷ b'_' ∷ b'P' ∷ b'I' ∷ b'P' ∷ b'E' ∷ []
token_name token_question_question =
    b'Q' ∷ b'U' ∷ b'E' ∷ b'S' ∷ b'T' ∷ b'I' ∷ b'O' ∷ b'N' ∷ b'_' ∷ b'Q' ∷ b'U' ∷ b'E' ∷ b'S' ∷ b'T'
    ∷ b'I' ∷ b'O' ∷ b'N' ∷ []
token_name token_amp_amp_equal =
    b'A' ∷ b'M' ∷ b'P' ∷ b'_' ∷ b'A' ∷ b'M' ∷ b'P' ∷ b'_' ∷ b'E' ∷ b'Q' ∷ b'U' ∷ b'A' ∷ b'L' ∷ []
token_name token_pipe_pipe_equal =
    b'P' ∷ b'I' ∷ b'P' ∷ b'E' ∷ b'_' ∷ b'P' ∷ b'I' ∷ b'P' ∷ b'E' ∷ b'_' ∷ b'E' ∷ b'Q' ∷ b'U' ∷ b'A'
    ∷ b'L' ∷ []
token_name token_question_question_equal =
    b'Q' ∷ b'U' ∷ b'E' ∷ b'S' ∷ b'T' ∷ b'I' ∷ b'O' ∷ b'N' ∷ b'_' ∷ b'Q' ∷ b'U' ∷ b'E' ∷ b'S' ∷ b'T'
    ∷ b'I' ∷ b'O' ∷ b'N' ∷ b'_' ∷ b'E' ∷ b'Q' ∷ b'U' ∷ b'A' ∷ b'L' ∷ []
token_name token_identifier =
    b'I' ∷ b'D' ∷ b'E' ∷ b'N' ∷ b'T' ∷ b'I' ∷ b'F' ∷ b'I' ∷ b'E' ∷ b'R' ∷ []
token_name token_string = b'S' ∷ b'T' ∷ b'R' ∷ b'I' ∷ b'N' ∷ b'G' ∷ []
token_name token_number = b'N' ∷ b'U' ∷ b'M' ∷ b'B' ∷ b'E' ∷ b'R' ∷ []
token_name token_bigint = b'B' ∷ b'I' ∷ b'G' ∷ b'I' ∷ b'N' ∷ b'T' ∷ []
token_name token_template = b'T' ∷ b'E' ∷ b'M' ∷ b'P' ∷ b'L' ∷ b'A' ∷ b'T' ∷ b'E' ∷ []
token_name token_regex = b'R' ∷ b'E' ∷ b'G' ∷ b'E' ∷ b'X' ∷ []
token_name token_private_name =
    b'P' ∷ b'R' ∷ b'I' ∷ b'V' ∷ b'A' ∷ b'T' ∷ b'E' ∷ b'_' ∷ b'N' ∷ b'A' ∷ b'M' ∷ b'E' ∷ []
token_name token_true = b'T' ∷ b'R' ∷ b'U' ∷ b'E' ∷ []
token_name token_false = b'F' ∷ b'A' ∷ b'L' ∷ b'S' ∷ b'E' ∷ []
token_name token_null = b'N' ∷ b'U' ∷ b'L' ∷ b'L' ∷ []
token_name token_undefined = b'U' ∷ b'N' ∷ b'D' ∷ b'E' ∷ b'F' ∷ b'I' ∷ b'N' ∷ b'E' ∷ b'D' ∷ []
token_name token_let = b'L' ∷ b'E' ∷ b'T' ∷ []
token_name token_const = b'C' ∷ b'O' ∷ b'N' ∷ b'S' ∷ b'T' ∷ []
token_name token_var = b'V' ∷ b'A' ∷ b'R' ∷ []
token_name token_function = b'F' ∷ b'U' ∷ b'N' ∷ b'C' ∷ b'T' ∷ b'I' ∷ b'O' ∷ b'N' ∷ []
token_name token_return = b'R' ∷ b'E' ∷ b'T' ∷ b'U' ∷ b'R' ∷ b'N' ∷ []
token_name token_if = b'I' ∷ b'F' ∷ []
token_name token_else = b'E' ∷ b'L' ∷ b'S' ∷ b'E' ∷ []
token_name token_while = b'W' ∷ b'H' ∷ b'I' ∷ b'L' ∷ b'E' ∷ []
token_name token_for = b'F' ∷ b'O' ∷ b'R' ∷ []
token_name token_typeof = b'T' ∷ b'Y' ∷ b'P' ∷ b'E' ∷ b'O' ∷ b'F' ∷ []
token_name token_switch = b'S' ∷ b'W' ∷ b'I' ∷ b'T' ∷ b'C' ∷ b'H' ∷ []
token_name token_case = b'C' ∷ b'A' ∷ b'S' ∷ b'E' ∷ []
token_name token_default = b'D' ∷ b'E' ∷ b'F' ∷ b'A' ∷ b'U' ∷ b'L' ∷ b'T' ∷ []
token_name token_of = b'O' ∷ b'F' ∷ []
token_name token_break = b'B' ∷ b'R' ∷ b'E' ∷ b'A' ∷ b'K' ∷ []
token_name token_continue = b'C' ∷ b'O' ∷ b'N' ∷ b'T' ∷ b'I' ∷ b'N' ∷ b'U' ∷ b'E' ∷ []
token_name token_try = b'T' ∷ b'R' ∷ b'Y' ∷ []
token_name token_catch = b'C' ∷ b'A' ∷ b'T' ∷ b'C' ∷ b'H' ∷ []
token_name token_finally = b'F' ∷ b'I' ∷ b'N' ∷ b'A' ∷ b'L' ∷ b'L' ∷ b'Y' ∷ []
token_name token_throw = b'T' ∷ b'H' ∷ b'R' ∷ b'O' ∷ b'W' ∷ []
token_name token_class = b'C' ∷ b'L' ∷ b'A' ∷ b'S' ∷ b'S' ∷ []
token_name token_extends = b'E' ∷ b'X' ∷ b'T' ∷ b'E' ∷ b'N' ∷ b'D' ∷ b'S' ∷ []
token_name token_new = b'N' ∷ b'E' ∷ b'W' ∷ []
token_name token_this = b'T' ∷ b'H' ∷ b'I' ∷ b'S' ∷ []
token_name token_super = b'S' ∷ b'U' ∷ b'P' ∷ b'E' ∷ b'R' ∷ []
token_name token_static = b'S' ∷ b'T' ∷ b'A' ∷ b'T' ∷ b'I' ∷ b'C' ∷ []
token_name token_instanceof =
    b'I' ∷ b'N' ∷ b'S' ∷ b'T' ∷ b'A' ∷ b'N' ∷ b'C' ∷ b'E' ∷ b'O' ∷ b'F' ∷ []
token_name token_import = b'I' ∷ b'M' ∷ b'P' ∷ b'O' ∷ b'R' ∷ b'T' ∷ []
token_name token_export = b'E' ∷ b'X' ∷ b'P' ∷ b'O' ∷ b'R' ∷ b'T' ∷ []
token_name token_await = b'A' ∷ b'W' ∷ b'A' ∷ b'I' ∷ b'T' ∷ []
token_name token_do = b'D' ∷ b'O' ∷ []
token_name token_in = b'I' ∷ b'N' ∷ []
token_name token_delete = b'D' ∷ b'E' ∷ b'L' ∷ b'E' ∷ b'T' ∷ b'E' ∷ []
token_name token_yield = b'Y' ∷ b'I' ∷ b'E' ∷ b'L' ∷ b'D' ∷ []
token_name token_void = b'V' ∷ b'O' ∷ b'I' ∷ b'D' ∷ []
token_name token_error = b'E' ∷ b'R' ∷ b'R' ∷ b'O' ∷ b'R' ∷ []
token_name token_eof = b'E' ∷ b'O' ∷ b'F' ∷ []

unfoldable names : Words
unfolding token_name
names =
    (token_name token_left_paren, token_left_paren)
    ∷ (token_name token_right_paren, token_right_paren)
    ∷ (token_name token_left_brace, token_left_brace)
    ∷ (token_name token_right_brace, token_right_brace)
    ∷ (token_name token_left_bracket, token_left_bracket)
    ∷ (token_name token_right_bracket, token_right_bracket)
    ∷ (token_name token_comma, token_comma)
    ∷ (token_name token_dot, token_dot)
    ∷ (token_name token_ellipsis, token_ellipsis)
    ∷ (token_name token_semicolon, token_semicolon)
    ∷ (token_name token_colon, token_colon)
    ∷ (token_name token_question, token_question)
    ∷ (token_name token_question_dot, token_question_dot)
    ∷ (token_name token_plus, token_plus)
    ∷ (token_name token_minus, token_minus)
    ∷ (token_name token_star, token_star)
    ∷ (token_name token_slash, token_slash)
    ∷ (token_name token_percent, token_percent)
    ∷ (token_name token_plus_plus, token_plus_plus)
    ∷ (token_name token_minus_minus, token_minus_minus)
    ∷ (token_name token_plus_equal, token_plus_equal)
    ∷ (token_name token_minus_equal, token_minus_equal)
    ∷ (token_name token_star_equal, token_star_equal)
    ∷ (token_name token_slash_equal, token_slash_equal)
    ∷ (token_name token_percent_equal, token_percent_equal)
    ∷ (token_name token_star_star, token_star_star)
    ∷ (token_name token_star_star_equal, token_star_star_equal)
    ∷ (token_name token_arrow, token_arrow)
    ∷ (token_name token_bang, token_bang)
    ∷ (token_name token_bang_equal, token_bang_equal)
    ∷ (token_name token_bang_equal_equal, token_bang_equal_equal)
    ∷ (token_name token_equal, token_equal)
    ∷ (token_name token_equal_equal, token_equal_equal)
    ∷ (token_name token_equal_equal_equal, token_equal_equal_equal)
    ∷ (token_name token_greater, token_greater)
    ∷ (token_name token_greater_equal, token_greater_equal)
    ∷ (token_name token_less, token_less)
    ∷ (token_name token_less_equal, token_less_equal)
    ∷ (token_name token_amp_amp, token_amp_amp)
    ∷ (token_name token_pipe, token_pipe)
    ∷ (token_name token_pipe_pipe, token_pipe_pipe)
    ∷ (token_name token_question_question, token_question_question)
    ∷ (token_name token_amp_amp_equal, token_amp_amp_equal)
    ∷ (token_name token_pipe_pipe_equal, token_pipe_pipe_equal)
    ∷ (token_name token_question_question_equal, token_question_question_equal)
    ∷ (token_name token_identifier, token_identifier)
    ∷ (token_name token_string, token_string)
    ∷ (token_name token_number, token_number)
    ∷ (token_name token_bigint, token_bigint)
    ∷ (token_name token_template, token_template)
    ∷ (token_name token_regex, token_regex)
    ∷ (token_name token_private_name, token_private_name)
    ∷ (token_name token_true, token_true)
    ∷ (token_name token_false, token_false)
    ∷ (token_name token_null, token_null)
    ∷ (token_name token_undefined, token_undefined)
    ∷ (token_name token_let, token_let)
    ∷ (token_name token_const, token_const)
    ∷ (token_name token_var, token_var)
    ∷ (token_name token_function, token_function)
    ∷ (token_name token_return, token_return)
    ∷ (token_name token_if, token_if)
    ∷ (token_name token_else, token_else)
    ∷ (token_name token_while, token_while)
    ∷ (token_name token_for, token_for)
    ∷ (token_name token_typeof, token_typeof)
    ∷ (token_name token_switch, token_switch)
    ∷ (token_name token_case, token_case)
    ∷ (token_name token_default, token_default)
    ∷ (token_name token_of, token_of)
    ∷ (token_name token_break, token_break)
    ∷ (token_name token_continue, token_continue)
    ∷ (token_name token_try, token_try)
    ∷ (token_name token_catch, token_catch)
    ∷ (token_name token_finally, token_finally)
    ∷ (token_name token_throw, token_throw)
    ∷ (token_name token_class, token_class)
    ∷ (token_name token_extends, token_extends)
    ∷ (token_name token_new, token_new)
    ∷ (token_name token_this, token_this)
    ∷ (token_name token_super, token_super)
    ∷ (token_name token_static, token_static)
    ∷ (token_name token_instanceof, token_instanceof)
    ∷ (token_name token_import, token_import)
    ∷ (token_name token_export, token_export)
    ∷ (token_name token_await, token_await)
    ∷ (token_name token_do, token_do)
    ∷ (token_name token_in, token_in)
    ∷ (token_name token_delete, token_delete)
    ∷ (token_name token_yield, token_yield)
    ∷ (token_name token_void, token_void)
    ∷ (token_name token_error, token_error)
    ∷ (token_name token_eof, token_eof)
    ∷ []

-- Each kind is found under its name.
lookup-token_name : (kind : Kind) → lookup names (token_name kind) ≡ some kind
unfolding names lookup token_name
lookup-token_name token_left_paren = refl
lookup-token_name token_right_paren = refl
lookup-token_name token_left_brace = refl
lookup-token_name token_right_brace = refl
lookup-token_name token_left_bracket = refl
lookup-token_name token_right_bracket = refl
lookup-token_name token_comma = refl
lookup-token_name token_dot = refl
lookup-token_name token_ellipsis = refl
lookup-token_name token_semicolon = refl
lookup-token_name token_colon = refl
lookup-token_name token_question = refl
lookup-token_name token_question_dot = refl
lookup-token_name token_plus = refl
lookup-token_name token_minus = refl
lookup-token_name token_star = refl
lookup-token_name token_slash = refl
lookup-token_name token_percent = refl
lookup-token_name token_plus_plus = refl
lookup-token_name token_minus_minus = refl
lookup-token_name token_plus_equal = refl
lookup-token_name token_minus_equal = refl
lookup-token_name token_star_equal = refl
lookup-token_name token_slash_equal = refl
lookup-token_name token_percent_equal = refl
lookup-token_name token_star_star = refl
lookup-token_name token_star_star_equal = refl
lookup-token_name token_arrow = refl
lookup-token_name token_bang = refl
lookup-token_name token_bang_equal = refl
lookup-token_name token_bang_equal_equal = refl
lookup-token_name token_equal = refl
lookup-token_name token_equal_equal = refl
lookup-token_name token_equal_equal_equal = refl
lookup-token_name token_greater = refl
lookup-token_name token_greater_equal = refl
lookup-token_name token_less = refl
lookup-token_name token_less_equal = refl
lookup-token_name token_amp_amp = refl
lookup-token_name token_pipe = refl
lookup-token_name token_pipe_pipe = refl
lookup-token_name token_question_question = refl
lookup-token_name token_amp_amp_equal = refl
lookup-token_name token_pipe_pipe_equal = refl
lookup-token_name token_question_question_equal = refl
lookup-token_name token_identifier = refl
lookup-token_name token_string = refl
lookup-token_name token_number = refl
lookup-token_name token_bigint = refl
lookup-token_name token_template = refl
lookup-token_name token_regex = refl
lookup-token_name token_private_name = refl
lookup-token_name token_true = refl
lookup-token_name token_false = refl
lookup-token_name token_null = refl
lookup-token_name token_undefined = refl
lookup-token_name token_let = refl
lookup-token_name token_const = refl
lookup-token_name token_var = refl
lookup-token_name token_function = refl
lookup-token_name token_return = refl
lookup-token_name token_if = refl
lookup-token_name token_else = refl
lookup-token_name token_while = refl
lookup-token_name token_for = refl
lookup-token_name token_typeof = refl
lookup-token_name token_switch = refl
lookup-token_name token_case = refl
lookup-token_name token_default = refl
lookup-token_name token_of = refl
lookup-token_name token_break = refl
lookup-token_name token_continue = refl
lookup-token_name token_try = refl
lookup-token_name token_catch = refl
lookup-token_name token_finally = refl
lookup-token_name token_throw = refl
lookup-token_name token_class = refl
lookup-token_name token_extends = refl
lookup-token_name token_new = refl
lookup-token_name token_this = refl
lookup-token_name token_super = refl
lookup-token_name token_static = refl
lookup-token_name token_instanceof = refl
lookup-token_name token_import = refl
lookup-token_name token_export = refl
lookup-token_name token_await = refl
lookup-token_name token_do = refl
lookup-token_name token_in = refl
lookup-token_name token_delete = refl
lookup-token_name token_yield = refl
lookup-token_name token_void = refl
lookup-token_name token_error = refl
lookup-token_name token_eof = refl

-- Kinds with the same name in `csTokenTypeName` are the same.
token_name-injective : (a b : Kind) → token_name a ≡ token_name b → a ≡ b
token_name-injective a b h =
    some-cancel (sym (lookup-token_name a) ∙ ap (lookup names) h ∙ lookup-token_name b)
