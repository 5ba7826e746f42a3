-- ===== src/Lexer/Tests.antt =====
-- Runs of the lexer, and the theorems at concrete texts.
use cscript.Prelude.{ℕ, ◌≡◌, refl, [], ◌∷◌, List, arith, some, none}
use cscript.Lexer.Kinds.{
  Kind, token_let, token_identifier, token_star_star_equal, token_bigint, token_eof,
}
use cscript.Lexer.Words.{
  when◌then◌else◌, check_keyword, word_d, word_e, word_s, word_i, word_n, word_c, word_t, word_f,
  word_v, identifier_type,
}
use cscript.Lexer.Keyword.{kind_of, identifier_type-table}
use cscript.Lexer.Sound.{keywords, lookup}
use cscript.Lexer.Scan.{
  Lexer, Token, Scanned, peek_next, make_token, error_token, skip_while, skip_block, skip_round,
  skip_space, identifier, skip_fraction, skip_exponent, hex_number, number, template_end,
  template_literal, string_end, string, regex_end, scan_regex, finish_template, finish_string,
  finish_regex,
}
use cscript.Lexer.Next.{
  bracket, mark, arithmetic, comparison, logic, or_else, operator, finish_operator, scan_literal,
  scan_token, scan, next, tokens, init,
}
use cscript.Lexer.Regex.{RegexToken, scan_regex-RegexToken}
use cscript.Lexer.Tiles.{Tile, Tiles, next-Tile, tokens-Tiles}

program : Unit {0}
unfolding when◌then◌else◌ check_keyword word_d word_e word_s word_i word_n word_c word_t word_f
    word_v identifier_type keywords lookup peek_next make_token error_token skip_while skip_block
    skip_round skip_space identifier skip_fraction skip_exponent hex_number number template_end
    template_literal string_end string regex_end scan_regex finish_template finish_string
    finish_regex bracket mark arithmetic comparison logic or_else operator finish_operator
    scan_literal scan_token scan next tokens
program = tt

-- `let b **= 1_0n // x`
abbrev source : List ℕ
source =
    b'l' ∷ b'e' ∷ b't' ∷ b' ' ∷ b'b' ∷ b' ' ∷ b'*' ∷ b'*' ∷ b'=' ∷ b' ' ∷ b'1' ∷ b'_' ∷ b'0' ∷ b'n'
    ∷ b'\n' ∷ b'/' ∷ b'/' ∷ b'x' ∷ []

abbrev plain : Kind → List ℕ → ℕ → Token
plain kind text line = record { kind = kind; text = text; line = line; message = none }

splits :
    tokens 10 (init source)
    ≡ some (
        plain token_let (b'l' ∷ b'e' ∷ b't' ∷ []) 1
        ∷ plain token_identifier (b'b' ∷ []) 1
        ∷ plain token_star_star_equal (b'*' ∷ b'*' ∷ b'=' ∷ []) 1
        ∷ plain token_bigint (b'1' ∷ b'_' ∷ b'0' ∷ b'n' ∷ []) 1
        ∷ plain token_eof [] 2
        ∷ [])
unfolding program
splits = refl

-- `/[/]/g;`
abbrev slash_text : List ℕ
slash_text = b'/' ∷ b'[' ∷ b'/' ∷ b']' ∷ b'/' ∷ b'g' ∷ b';' ∷ []

abbrev behind_slash : Lexer
behind_slash = record {
  start = slash_text;
  current = b'[' ∷ b'/' ∷ b']' ∷ b'/' ∷ b'g' ∷ b';' ∷ [];
  line = 1;
}

-- The slash in the class does not close the expression, and the flag is part of it.
closes : (scan_regex behind_slash slash_text).0.current ≡ b';' ∷ []
unfolding program
closes = refl

scan_regex-RegexToken_example : RegexToken slash_text (scan_regex behind_slash slash_text)
scan_regex-RegexToken_example = scan_regex-RegexToken behind_slash slash_text refl

abbrev export_text : List ℕ
export_text = b'e' ∷ b'x' ∷ b'p' ∷ b'o' ∷ b'r' ∷ b't' ∷ []

identifier_type-table_example : identifier_type export_text ≡ kind_of (lookup keywords export_text)
identifier_type-table_example = identifier_type-table export_text

next-Tile_example : (s : Scanned) × (next (init source) ≡ some s) × Tile source s
next-Tile_example = next-Tile (init source)

tokens-Tiles_example : (ts : List Token) × (tokens 19 (init source) ≡ some ts) × Tiles source ts
tokens-Tiles_example = tokens-Tiles 19 (init source) (omega arith)
