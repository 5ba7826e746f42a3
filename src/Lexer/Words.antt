-- ===== src/Lexer/Words.antt =====
-- src/compiler/lexer_keyword.c: which identifiers are keywords. `text` is the lexeme, the bytes from
-- `lexer->start` to `lexer->current`.
use cscript.Prelude.{
  same_bytes, ℕ, ◌+◌, Bool, ◌&&◌, List, [], ◌∷◌, length, get_or, take, drop, ltb, ◌==◌,
  if◌then◌else◌,
}
use cscript.Lexer.Kinds.{
  Kind, token_identifier, token_true, token_false, token_null, token_undefined, token_let,
  token_const, token_var, token_function, token_return, token_if, token_else, token_while,
  token_for, token_typeof, token_switch, token_case, token_default, token_break, token_continue,
  token_try, token_catch, token_finally, token_throw, token_class, token_extends, token_new,
  token_this, token_super, token_static, token_instanceof, token_import, token_export, token_await,
  token_do, token_in, token_delete, token_yield, token_void,
}

-- A conditional that stays shut, so that a lemma on it applies.
infix 1 when◌then◌else◌
unfoldable pub when◌then◌else◌ {ℓ} : {A : Type ℓ} → Bool → A → A → A
when b then x else y = if b then x else y

-- A `switch` whose cases all return.
abbrev pub switch : ℕ → List (ℕ × Kind) → Kind → Kind
switch c [] other = other
switch c ((key, answer) ∷ cases) other = when c == key then answer else switch c cases other

-- `checkKeyword`
unfoldable pub check_keyword : List ℕ → ℕ → List ℕ → Kind → Kind
check_keyword text start rest kind =
    if (length text == start + length rest)
      && same_bytes (take (length rest) (drop start text)) rest
    then kind
    else token_identifier

-- `case 'd'`
unfoldable pub word_d : List ℕ → Kind
word_d text =
    when ltb 1 (length text)
    then switch (get_or text 1 0)
        ((
          b'e',
          when ltb 2 (length text) && get_or text 2 0 == b'l'
              then check_keyword text 2 (b'l' ∷ b'e' ∷ b't' ∷ b'e' ∷ []) token_delete
              else (check_keyword text 2 (b'f' ∷ b'a' ∷ b'u' ∷ b'l' ∷ b't' ∷ []) token_default),
        )
          ∷ (b'o', check_keyword text 2 [] token_do)
          ∷ [])
        token_identifier
    else token_identifier

-- `case 'e'`
unfoldable pub word_e : List ℕ → Kind
word_e text =
    when ltb 1 (length text)
    then switch (get_or text 1 0)
        ((b'l', check_keyword text 2 (b's' ∷ b'e' ∷ []) token_else)
          ∷ (
            b'x',
            when ltb 2 (length text) && get_or text 2 0 == b'p'
                then check_keyword text 2 (b'p' ∷ b'o' ∷ b'r' ∷ b't' ∷ []) token_export
                else (check_keyword text 2 (b't' ∷ b'e' ∷ b'n' ∷ b'd' ∷ b's' ∷ []) token_extends),
          )
          ∷ [])
        token_identifier
    else token_identifier

-- `case 's'`
unfoldable pub word_s : List ℕ → Kind
word_s text =
    when ltb 1 (length text)
    then switch (get_or text 1 0)
        ((b'w', check_keyword text 2 (b'i' ∷ b't' ∷ b'c' ∷ b'h' ∷ []) token_switch)
          ∷ (b'u', check_keyword text 2 (b'p' ∷ b'e' ∷ b'r' ∷ []) token_super)
          ∷ (b't', check_keyword text 2 (b'a' ∷ b't' ∷ b'i' ∷ b'c' ∷ []) token_static)
          ∷ [])
        token_identifier
    else token_identifier

-- `case 'i'`
unfoldable pub word_i : List ℕ → Kind
word_i text =
    when ltb 1 (length text)
    then switch (get_or text 1 0)
        ((b'f', check_keyword text 2 [] token_if)
          ∷ (b'm', check_keyword text 2 (b'p' ∷ b'o' ∷ b'r' ∷ b't' ∷ []) token_import)
          ∷ (
            b'n',
            when length text == 2
                then token_in
                else (check_keyword text 2
                    (b's' ∷ b't' ∷ b'a' ∷ b'n' ∷ b'c' ∷ b'e' ∷ b'o' ∷ b'f' ∷ []) token_instanceof),
          )
          ∷ [])
        token_identifier
    else token_identifier

-- `case 'n'`
unfoldable pub word_n : List ℕ → Kind
word_n text =
    when ltb 1 (length text)
    then switch (get_or text 1 0)
        ((b'u', check_keyword text 2 (b'l' ∷ b'l' ∷ []) token_null)
          ∷ (b'e', check_keyword text 2 (b'w' ∷ []) token_new)
          ∷ [])
        token_identifier
    else token_identifier

-- `case 'c'`
unfoldable pub word_c : List ℕ → Kind
word_c text =
    when ltb 1 (length text)
    then switch (get_or text 1 0)
        ((
          b'a',
          when ltb 2 (length text) && get_or text 2 0 == b't'
              then check_keyword text 1 (b'a' ∷ b't' ∷ b'c' ∷ b'h' ∷ []) token_catch
              else (check_keyword text 1 (b'a' ∷ b's' ∷ b'e' ∷ []) token_case),
        )
          ∷ (b'l', check_keyword text 2 (b'a' ∷ b's' ∷ b's' ∷ []) token_class)
          ∷ (
            b'o',
            when ltb 2 (length text) && get_or text 2 0 == b'n'
                then (when ltb 3 (length text) && get_or text 3 0 == b's'
                    then check_keyword text 1 (b'o' ∷ b'n' ∷ b's' ∷ b't' ∷ []) token_const
                    else (check_keyword text 1 (b'o' ∷ b'n' ∷ b't' ∷ b'i' ∷ b'n' ∷ b'u' ∷ b'e' ∷ [])
                        token_continue))
                else token_identifier,
          )
          ∷ [])
        token_identifier
    else token_identifier

-- `case 't'`
unfoldable pub word_t : List ℕ → Kind
word_t text =
    when ltb 1 (length text)
    then switch (get_or text 1 0)
        ((
          b'r',
          when ltb 2 (length text)
              then switch (get_or text 2 0)
                  ((b'u', check_keyword text 3 (b'e' ∷ []) token_true)
                    ∷ (b'y', check_keyword text 3 [] token_try)
                    ∷ [])
                  token_identifier
              else token_identifier,
        )
          ∷ (
            b'h',
            when ltb 2 (length text) && get_or text 2 0 == b'i'
                then check_keyword text 2 (b'i' ∷ b's' ∷ []) token_this
                else (check_keyword text 2 (b'r' ∷ b'o' ∷ b'w' ∷ []) token_throw),
          )
          ∷ (b'y', check_keyword text 2 (b'p' ∷ b'e' ∷ b'o' ∷ b'f' ∷ []) token_typeof)
          ∷ [])
        token_identifier
    else token_identifier

-- `case 'f'`
unfoldable pub word_f : List ℕ → Kind
word_f text =
    when ltb 1 (length text)
    then switch (get_or text 1 0)
        ((b'a', check_keyword text 2 (b'l' ∷ b's' ∷ b'e' ∷ []) token_false)
          ∷ (b'o', check_keyword text 2 (b'r' ∷ []) token_for)
          ∷ (
            b'u',
            check_keyword text 2 (b'n' ∷ b'c' ∷ b't' ∷ b'i' ∷ b'o' ∷ b'n' ∷ []) token_function,
          )
          ∷ (b'i', check_keyword text 2 (b'n' ∷ b'a' ∷ b'l' ∷ b'l' ∷ b'y' ∷ []) token_finally)
          ∷ [])
        token_identifier
    else token_identifier

-- `case 'v'`
unfoldable pub word_v : List ℕ → Kind
word_v text =
    when ltb 1 (length text) && get_or text 1 0 == b'o'
    then check_keyword text 1 (b'o' ∷ b'i' ∷ b'd' ∷ []) token_void
    else (check_keyword text 1 (b'a' ∷ b'r' ∷ []) token_var)

-- `csLexerIdentifierType`
unfoldable pub identifier_type : List ℕ → Kind
identifier_type text =
    switch (get_or text 0 0)
      ((b'a', check_keyword text 1 (b'w' ∷ b'a' ∷ b'i' ∷ b't' ∷ []) token_await)
        ∷ (b'b', check_keyword text 1 (b'r' ∷ b'e' ∷ b'a' ∷ b'k' ∷ []) token_break)
        ∷ (b'd', word_d text)
        ∷ (b'e', word_e text)
        ∷ (b'r', check_keyword text 1 (b'e' ∷ b't' ∷ b'u' ∷ b'r' ∷ b'n' ∷ []) token_return)
        ∷ (b'w', check_keyword text 1 (b'h' ∷ b'i' ∷ b'l' ∷ b'e' ∷ []) token_while)
        ∷ (b'y', check_keyword text 1 (b'i' ∷ b'e' ∷ b'l' ∷ b'd' ∷ []) token_yield)
        ∷ (b's', word_s text)
        ∷ (b'T', check_keyword text 1 (b'r' ∷ b'u' ∷ b'e' ∷ []) token_true)
        ∷ (b'l', check_keyword text 1 (b'e' ∷ b't' ∷ []) token_let)
        ∷ (b'v', word_v text)
        ∷ (b'i', word_i text)
        ∷ (b'n', word_n text)
        ∷ (
          b'u',
          check_keyword text 1 (b'n' ∷ b'd' ∷ b'e' ∷ b'f' ∷ b'i' ∷ b'n' ∷ b'e' ∷ b'd' ∷ [])
              token_undefined,
        )
        ∷ (b'c', word_c text)
        ∷ (b't', word_t text)
        ∷ (b'f', word_f text)
        ∷ [])
      token_identifier
