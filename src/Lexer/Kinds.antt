-- ===== src/Lexer/Kinds.antt =====
-- include/cscript/lexer.h: the kinds of tokens.
-- `TokenType`
pub data Kind : Type 0 where
  token_left_paren : Kind
  token_right_paren : Kind
  token_left_brace : Kind
  token_right_brace : Kind
  token_left_bracket : Kind
  token_right_bracket : Kind
  token_comma : Kind
  token_dot : Kind
  token_ellipsis : Kind
  token_semicolon : Kind
  token_colon : Kind
  token_question : Kind
  token_question_dot : Kind
  token_plus : Kind
  token_minus : Kind
  token_star : Kind
  token_slash : Kind
  token_percent : Kind
  token_plus_plus : Kind
  token_minus_minus : Kind
  token_plus_equal : Kind
  token_minus_equal : Kind
  token_star_equal : Kind
  token_slash_equal : Kind
  token_percent_equal : Kind
  token_star_star : Kind
  token_star_star_equal : Kind
  token_arrow : Kind
  token_bang : Kind
  token_bang_equal : Kind
  token_bang_equal_equal : Kind
  token_equal : Kind
  token_equal_equal : Kind
  token_equal_equal_equal : Kind
  token_greater : Kind
  token_greater_equal : Kind
  token_less : Kind
  token_less_equal : Kind
  token_amp_amp : Kind
  token_pipe : Kind
  token_pipe_pipe : Kind
  token_question_question : Kind
  token_amp_amp_equal : Kind
  token_pipe_pipe_equal : Kind
  token_question_question_equal : Kind
  token_identifier : Kind
  token_string : Kind
  token_number : Kind
  token_bigint : Kind
  token_template : Kind
  token_regex : Kind
  token_private_name : Kind
  token_true : Kind
  token_false : Kind
  token_null : Kind
  token_undefined : Kind
  token_let : Kind
  token_const : Kind
  token_var : Kind
  token_function : Kind
  token_return : Kind
  token_if : Kind
  token_else : Kind
  token_while : Kind
  token_for : Kind
  token_typeof : Kind
  token_switch : Kind
  token_case : Kind
  token_default : Kind
  token_of : Kind
  token_break : Kind
  token_continue : Kind
  token_try : Kind
  token_catch : Kind
  token_finally : Kind
  token_throw : Kind
  token_class : Kind
  token_extends : Kind
  token_new : Kind
  token_this : Kind
  token_super : Kind
  token_static : Kind
  token_instanceof : Kind
  token_import : Kind
  token_export : Kind
  token_await : Kind
  token_do : Kind
  token_in : Kind
  token_delete : Kind
  token_yield : Kind
  token_void : Kind
  token_error : Kind
  token_eof : Kind
