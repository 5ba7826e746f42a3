-- ===== src/Lexer/Regex.antt =====
-- src/compiler/lexer.c: `csLexerScanRegex` takes a regular expression.
use cscript.Prelude.{ℕ, suc, ◌≡◌, refl, ◌++◌, arith, false, List, length, none, some}
use mathlib.Core.Path.{subst}
use cscript.Lexer.Kinds.{token_regex, token_error}
use cscript.Lexer.Scan.{
  Lexer, Scanned, open_regex, advance, make_token, error_token, skip_while, is_alpha, Ending,
  closed, unclosed, spent, regex_end, finish_regex, scan_regex,
}
use cscript.Lexer.Suffix.{Suffix-trans, Suffix-next, skip_while-Suffix}
use cscript.Lexer.Literals.{Run, skip_while-Run}
use cscript.Lexer.Patterns.{RegexEnds, regex_end-RegexEnds, RegexEnds-Suffix}
use cscript.Lexer.Tiles.{lexeme-append}

-- The token for the way in which the loop has ended: the expression with its flags, which are all the
-- letters that follow, or the error.
abbrev pub Taken : Ending × List ℕ → Scanned → Type 0
Taken (closed, end) s =
    (s.1.kind ≡ token_regex) × (s.1.message ≡ none) × Run is_alpha end s.0.current
Taken (unclosed, end) s =
    (s.1.kind ≡ token_error) × (s.1.message ≡ some open_regex) × (s.0.current ≡ end)
Taken (spent, end) s = ⊥

pub record RegexToken (slash : List ℕ) (s : Scanned) : Type 0 where
  pub text : s.1.text ++ s.0.current ≡ slash
  pub ending : Ending × List ℕ
  pub ends : RegexEnds false (advance slash) ending
  pub taken : Taken ending s

finish :
    (here : Lexer) (r : Ending × List ℕ)
    → RegexEnds false (advance here.start) r
    → RegexToken here.start (finish_regex here r)
unfolding finish_regex make_token error_token
finish here (closed, end) h =
    let within =
      Suffix-next _ here.start (RegexEnds-Suffix false (advance here.start) (closed, end) h) in
    record {
      text =
          lexeme-append here.start (skip_while is_alpha end)
            (Suffix-trans _ _ _ (skip_while-Suffix is_alpha end) within);
      ending = (closed, end);
      ends = h;
      taken = (refl, refl, skip_while-Run is_alpha end refl);
    }
finish here (unclosed, end) h = record {
  text =
      lexeme-append here.start end
        (Suffix-next _ here.start (RegexEnds-Suffix false (advance here.start) (unclosed, end) h));
  ending = (unclosed, end);
  ends = h;
  taken = (refl, refl, refl);
}
finish here (spent, end) h = absurd h

-- When the cursor is just behind the slash, `csLexerScanRegex` ends. Either it takes the body up to the first
-- slash that is in no class and not escaped, and all letters behind it, or it reports an error at a newline
-- or the end of the source that come before such a slash. What it takes and what it leaves make up the text
-- from the slash on.
pub scan_regex-RegexToken :
    (lexer : Lexer) (slash : List ℕ)
    → lexer.current ≡ advance slash
    → RegexToken slash (scan_regex lexer slash)
unfolding scan_regex
scan_regex-RegexToken lexer slash h =
    finish (record lexer { start = slash })
      (regex_end (suc (length lexer.current)) lexer.current false)
      (subst (λ t. RegexEnds false t (regex_end (suc (length lexer.current)) lexer.current false)) h
        (regex_end-RegexEnds (suc (length lexer.current)) lexer.current false (omega arith)))
