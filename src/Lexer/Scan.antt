-- ===== src/Lexer/Scan.antt =====
-- src/compiler/lexer.c: the cursor, white space, and the tokens of several characters. The source is
-- the list of its bytes and ends, as in C, at a byte 0 or at the end of the list; `start` and
-- `current` are the text from those pointers on.
use cscript.Prelude.{
  in_range, ℕ, zero, suc, ◌+◌, ◌-◌, Bool, true, false, not, ◌&&◌, ◌||◌, List, [], ◌∷◌, length,
  get_or, take, ◌==◌, if◌then◌else◌, Option, none, some,
}
use cscript.Lexer.Kinds.{
  Kind, token_string, token_number, token_bigint, token_template, token_regex, token_error,
}
use cscript.Lexer.Words.{identifier_type}

-- The messages of the errors; `endless` is none of the source, but a loop that has not ended in the
-- rounds that it is given.
pub data Message : Type 0 where
  hex_digits : Message
  open_template : Message
  open_string : Message
  open_regex : Message
  lone_ampersand : Message
  unexpected : Message
  endless : Message

-- `Token`; the text of an error is the message, and here the lexeme that it is about.
pub record Token : Type 0 where
  pub kind : Kind
  pub text : List ℕ
  pub line : ℕ
  pub message : Option Message

-- `Lexer`
pub record Lexer : Type 0 where
  pub start : List ℕ
  pub current : List ℕ
  pub line : ℕ

-- `peek`
abbrev pub peek : List ℕ → ℕ
peek text = get_or text 0 0

-- `isAtEnd`
abbrev pub is_at_end : List ℕ → Bool
is_at_end text = peek text == 0

-- `advance`, on the text alone.
abbrev pub advance : List ℕ → List ℕ
advance [] = []
advance (c ∷ text) = text

-- `peekNext`
unfoldable pub peek_next : List ℕ → ℕ
peek_next text = if is_at_end text then 0 else get_or text 1 0

-- `match`, without the step: whether it is made.
abbrev pub next_is : List ℕ → ℕ → Bool
next_is text expected = not (is_at_end text) && (peek text == expected)

abbrev pub is_digit : ℕ → Bool
is_digit c = in_range c b'0' b'9'

abbrev pub is_hex_digit : ℕ → Bool
is_hex_digit c = is_digit c || in_range c b'a' b'f' || in_range c b'A' b'F'

abbrev pub is_alpha : ℕ → Bool
is_alpha c = in_range c b'a' b'z' || in_range c b'A' b'Z' || c == b'_' || c == b'$'

abbrev pub is_digit_part : ℕ → Bool
is_digit_part c = is_digit c || c == b'_'

abbrev pub is_hex_part : ℕ → Bool
is_hex_part c = is_hex_digit c || c == b'_'

abbrev pub is_name_part : ℕ → Bool
is_name_part c = is_alpha c || is_digit c

-- The bytes from `start` to `current`.
abbrev pub lexeme : List ℕ → List ℕ → List ℕ
lexeme start current = take (length start - length current) start

-- What a scanner gives: the lexer behind the token, and the token.
abbrev pub Scanned : Type 0
Scanned = Lexer × Token

-- `makeToken`, with `current` and `line` as they are then.
unfoldable pub make_token : Lexer → List ℕ → ℕ → Kind → Scanned
make_token lexer current line kind = (
  record lexer { current = current; line = line },
  record { kind = kind; text = lexeme lexer.start current; line = line; message = none },
)

-- `errorToken`
unfoldable pub error_token : Lexer → List ℕ → ℕ → Message → Scanned
error_token lexer current line message = (
  record lexer { current = current; line = line },
  record {
    kind = token_error;
    text = lexeme lexer.start current;
    line = line;
    message = some message;
  },
)

-- `while (test(peek(lexer))) advance(lexer);` for a test that fails on 0.
unfoldable pub skip_while : (ℕ → Bool) → List ℕ → List ℕ
skip_while test [] = []
skip_while test (c ∷ text) = let rest = skip_while test text in if test c then rest else c ∷ text

-- A line comment: up to the newline.
abbrev pub in_line : ℕ → Bool
in_line c = not (c == b'\n') && not (c == 0)

-- The text and the line behind a block comment, from behind its `/*`.
unfoldable pub skip_block : List ℕ → ℕ → List ℕ × ℕ
skip_block [] line = ([], line)
skip_block (c ∷ text) line =
    let rest = skip_block text (if c == b'\n' then line + 1 else line) in
    if c == 0
    then (c ∷ text, line)
    else (if c == b'*' && peek text == b'/' then (advance text, line) else rest)

-- One round of `skipWhitespaceAndComments`; `none` is the return.
unfoldable pub skip_round : List ℕ → ℕ → Option (List ℕ × ℕ)
skip_round text line =
    let c = peek text in
    if c == b' ' || c == b'\r' || c == b'\t'
    then some (advance text, line)
    else (if c == b'\n'
        then some (advance text, line + 1)
        else (if c == b'/'
            then (if peek_next text == b'/'
                then some (skip_while in_line text, line)
                else (if peek_next text == b'*'
                    then some (skip_block (advance (advance text)) line)
                    else none))
            else none))

-- `skipWhitespaceAndComments`; the outer `none` is a loop that does not end in that many rounds.
unfoldable pub skip_space : ℕ → List ℕ → ℕ → Option (List ℕ × ℕ)
skip_space zero text line = none
skip_space (suc fuel) text line = elim (skip_round text line) [
  | none ↦ some (text, line)
  | some (rest, next) ↦ skip_space fuel rest next
]

-- `identifier`
unfoldable pub identifier : Lexer → List ℕ → Scanned
identifier lexer text =
    let rest = skip_while is_name_part text in
    make_token lexer rest lexer.line (identifier_type (lexeme lexer.start rest))

-- The fraction of `number`, if there is one.
unfoldable pub skip_fraction : List ℕ → List ℕ
skip_fraction text =
    if (peek text == b'.') && is_digit (peek_next text)
    then skip_while is_digit_part (advance text)
    else text

abbrev pub skip_sign : List ℕ → List ℕ
skip_sign text = if peek text == b'+' || peek text == b'-' then advance text else text

-- The exponent of `number`, if there is one.
unfoldable pub skip_exponent : List ℕ → List ℕ
skip_exponent text =
    if peek text == b'e' || peek text == b'E'
    then (let digits = skip_sign (advance text) in
        if is_digit (peek digits) then skip_while is_digit_part digits else text)
    else text

-- The end of a whole number: a suffix `n` makes it a BigInt.
unfoldable pub hex_number : Lexer → List ℕ → Scanned
hex_number lexer text =
    if is_hex_digit (peek text)
    then (let rest = skip_while is_hex_part text in
        if peek rest == b'n'
        then make_token lexer (advance rest) lexer.line token_bigint
        else make_token lexer rest lexer.line token_number)
    else error_token lexer text lexer.line hex_digits

-- `number`; `c` is the digit before the cursor.
unfoldable pub number : Lexer → ℕ → List ℕ → Scanned
number lexer c text =
    if (c == b'0') && (peek text == b'x' || peek text == b'X')
    then hex_number lexer (advance text)
    else (let whole = skip_while is_digit_part text in
        if peek whole == b'n'
        then make_token lexer (advance whole) lexer.line token_bigint
        else make_token lexer (skip_exponent (skip_fraction whole)) lexer.line token_number)

-- How the loop over a literal ends: at its end, where it is not closed, or with no rounds left.
pub data Ending : Type 0 where
  closed : Ending
  unclosed : Ending
  spent : Ending

-- The loop of `templateLiteral`, with the line and the depth of braces.
unfoldable pub template_end : ℕ → List ℕ → ℕ → ℕ → Ending × List ℕ × ℕ
template_end zero text line depth = (spent, text, line)
template_end (suc fuel) text line depth =
    let c = peek text in
    let next = if c == b'\n' then line + 1 else line in
    let deeper =
      if depth == 0
      then 0
      else (if c == b'{' then depth + 1 else (if c == b'}' then depth - 1 else depth)) in
    let escape = (c == b'\\') && not (peek_next text == 0) in
    let opens = (c == b'$') && (peek_next text == b'{') in
    let rest =
      template_end fuel (if escape || opens then advance (advance text) else advance text)
        (if escape then line else next)
        (if escape then depth else (if opens then depth + 1 else deeper)) in
    if c == 0
    then (unclosed, text, line)
    else (if not escape && (depth == 0) && (c == b'`') then (closed, advance text, next) else rest)

unfoldable pub finish_template : Lexer → Ending × List ℕ × ℕ → Scanned
finish_template lexer (closed, rest, line) = make_token lexer rest line token_template
finish_template lexer (unclosed, rest, line) = error_token lexer rest line open_template
finish_template lexer (spent, rest, line) = error_token lexer rest line endless

-- `templateLiteral`; every round takes a byte, which bounds the rounds, here and below.
unfoldable pub template_literal : Lexer → List ℕ → Scanned
template_literal lexer text =
    finish_template lexer (template_end (suc (length text)) text lexer.line 0)

-- The loop of `string`: the cursor at the quote, or where no quote follows.
unfoldable pub string_end : ℕ → List ℕ → ℕ → Ending × List ℕ
string_end zero text quote = (spent, text)
string_end (suc fuel) text quote =
    let c = peek text in
    let escape = (c == b'\\') && not (peek_next text == 0) in
    let rest = string_end fuel (if escape then advance (advance text) else advance text) quote in
    if c == 0
    then (unclosed, text)
    else (if c == quote then (closed, text) else (if c == b'\n' then (unclosed, text) else rest))

unfoldable pub finish_string : Lexer → Ending × List ℕ → Scanned
finish_string lexer (closed, rest) = make_token lexer (advance rest) lexer.line token_string
finish_string lexer (unclosed, rest) = error_token lexer rest lexer.line open_string
finish_string lexer (spent, rest) = error_token lexer rest lexer.line endless

-- `string`
unfoldable pub string : Lexer → ℕ → List ℕ → Scanned
string lexer quote text = finish_string lexer (string_end (suc (length text)) text quote)

-- The loop of `csLexerScanRegex`, with the cursor; it is behind the slash that
-- closes.
unfoldable pub regex_end : ℕ → List ℕ → Bool → Ending × List ℕ
regex_end zero text in_class = (spent, text)
regex_end (suc fuel) text in_class =
    let c = peek text in
    let after = advance text in
    let class = if c == b'[' then true else (if c == b']' then false else in_class) in
    let rest =
      regex_end fuel (if c == b'\\' then advance after else after)
        (if c == b'\\' then in_class else class) in
    if c == 0 || c == b'\n'
    then (unclosed, text)
    else (if c == b'\\'
        then (if is_at_end after then (unclosed, after) else rest)
        else (if (c == b'/') && not in_class then (closed, after) else rest))

unfoldable pub finish_regex : Lexer → Ending × List ℕ → Scanned
finish_regex lexer (closed, rest) =
    make_token lexer (skip_while is_alpha rest) lexer.line token_regex
finish_regex lexer (unclosed, rest) = error_token lexer rest lexer.line open_regex
finish_regex lexer (spent, rest) = error_token lexer rest lexer.line endless

-- `csLexerScanRegex`; `start` is the text from the opening slash on.
unfoldable pub scan_regex : Lexer → List ℕ → Scanned
scan_regex lexer slash =
    finish_regex (record lexer { start = slash })
      (regex_end (suc (length lexer.current)) lexer.current false)
