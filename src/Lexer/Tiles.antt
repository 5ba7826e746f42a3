-- ===== src/Lexer/Tiles.antt =====
-- src/compiler/lexer.c: `csLexerNext` and the loop over the tokens, as a whole.
use cscript.Prelude.{
  ℕ, zero, suc, ◌-◌, ◌<◌, ◌≡◌, ◌∙◌, refl, sym, ap, inl, inr, true, false, List, [], ◌∷◌, ◌++◌,
  length, take, some, arith, Bool-cases, length-append, ◌≢◌,
}
use mathlib.Core.Path.{subst}
use cscript.Lexer.Kinds.{token_eof}
use cscript.Lexer.Scan.{Lexer, Token, Scanned, is_at_end, lexeme, make_token}
use cscript.Lexer.Next.{scan, next, tokens, is_eof}
use cscript.Lexer.Suffix.{Suffix, behind, Suffix-refl, Suffix-length, Suffix-next}
use cscript.Lexer.Gap.{Gap, begins_gap, Skipped, skip_space-Skipped}
use cscript.Lexer.Spelling.{form}
use cscript.Lexer.Forms.{Formed, is_endless, Lexed}
use cscript.Lexer.Lexed.{scan_token-Lexed}

take-zero : (text : List ℕ) → take 0 text ≡ []
take-zero [] = refl
take-zero (c ∷ text) = refl

take-length-append : (w rest : List ℕ) → take (length w) (w ++ rest) ≡ w
take-length-append [] [] = refl
take-length-append [] (c ∷ rest) = refl
take-length-append (c ∷ w) rest = ap (λ t. c ∷ t) (take-length-append w rest)

lexeme_refl : (text : List ℕ) → lexeme text text ≡ []
lexeme_refl text =
    let none : length text - length text ≡ 0 = omega arith in rw none (take-zero text)

pub lexeme-append : (start rest : List ℕ) → Suffix rest start → lexeme start rest ++ rest ≡ start
lexeme-append start rest (behind w h) =
    let size : length start - length rest ≡ length w =
      omega (arith, length-append w rest, ap length h) in
    rw (size, ← h) (ap (λ t. t ++ rest) (take-length-append w rest))

-- What one call of `csLexerNext` does to the text before it.
pub record Tile (before : List ℕ) (s : Scanned) : Type 0 where
  pub gap : Skipped before s.0.start
  pub text : s.1.text ++ s.0.current ≡ s.0.start
  pub taken : is_eof s.1.kind ≡ false → length s.0.current < length s.0.start
  pub shape : is_eof s.1.kind ≡ false → Formed s.0.start s.0.current s.1.message (form s.1.kind)
  pub last : is_eof s.1.kind ≡ true → (s.1.text ≡ []) × (is_at_end s.0.start ≡ true)
  pub ended : is_endless s.1.message ≡ false

true≢false : true ≢ false
true≢false h = cc

-- A token that begins with `c`.
Lexed-Tile :
    (before : List ℕ) (c : ℕ) (text : List ℕ) (s : Scanned)
    → Skipped before (c ∷ text)
    → Lexed (c ∷ text) s
    → Tile before s
Lexed-Tile before c text s h l = record {
  gap = subst (Skipped before) (sym l.same) h;
  text =
      ap (λ t. t ++ s.0.current) l.text
      ∙ (lexeme-append (c ∷ text) s.0.current (Suffix-next _ (c ∷ text) l.rest) ∙ sym l.same);
  taken = λ k. omega (arith, Suffix-length _ _ l.rest, ap length l.same);
  shape = λ k. subst (λ t. Formed t s.0.current s.1.message (form s.1.kind)) (sym l.same) l.shape;
  last = λ k. absurd (true≢false (sym k ∙ l.kind));
  ended = l.ended;
}

-- The end token.
end-Tile :
    (before text : List ℕ) (line : ℕ)
    → Skipped before text
    → is_at_end text ≡ true
    → Tile before
        (make_token (record { start = text; current = text; line = line }) text line token_eof)
unfolding make_token
end-Tile before text line h e = record {
  gap = h;
  text = lexeme-append text text (Suffix-refl text);
  taken = λ k. absurd (true≢false k);
  shape = λ k. absurd (true≢false k);
  last = λ k. (lexeme_refl text, e);
  ended = refl;
}

scan-Tile : (before text : List ℕ) (line : ℕ) → Skipped before text → Tile before (scan text line)
unfolding scan
scan-Tile before [] line h = end-Tile before [] line h refl
scan-Tile before (c ∷ text) line h = elim (Bool-cases (is_at_end (c ∷ text))) [
  | inl e ↦ rw e (end-Tile before (c ∷ text) line h e)
  | inr e ↦
      let lexer : Lexer = record { start = c ∷ text; current = c ∷ text; line = line } in
      rw e (Lexed-Tile before c text _ h (scan_token-Lexed lexer c text refl))
]

-- On every text `csLexerNext` ends. It skips white space and comments, to where no more begin, and gives the
-- token that begins there: its text and what it leaves make up the text from there on. Every token but the
-- end takes a byte and has the form of its kind: an operator is its spelling, a name or a number takes all the
-- name bytes or digits behind its first, a string or a template runs up to the quote or backtick that closes
-- it, and an error stands where its message says. The end token has no text, and stands at the end of the
-- source. No loop within the call runs out of its rounds.
pub next-Tile : (lexer : Lexer) → (s : Scanned) × (next lexer ≡ some s) × Tile lexer.current s
unfolding next
next-Tile lexer =
    let (text, line, run, skipped) =
      skip_space-Skipped (suc (length lexer.current)) lexer.current lexer.line (omega arith) in
    (scan text line, rw (run, next), scan-Tile lexer.current text line skipped)

-- The source up to its end: white space and comments, then a token that takes a byte and has the form of
-- its kind, and so on up to the end token.
pub data Tiles : List ℕ → List Token → Type 0 where
  last :
      {source : List ℕ} {t : Token} (end : List ℕ)
      → Gap source end
      → is_at_end end ≡ true
      → is_eof t.kind ≡ true
      → t.text ≡ []
      → Tiles source (t ∷ [])
  token :
      {source : List ℕ} {t : Token} {ts : List Token} (start rest : List ℕ)
      → Gap source start
      → begins_gap start ≡ false
      → t.text ++ rest ≡ start
      → length rest < length start
      → Formed start rest t.message (form t.kind)
      → is_endless t.message ≡ false
      → is_eof t.kind ≡ false
      → Tiles rest ts
      → Tiles source (t ∷ ts)

-- The loop over the tokens of any source ends within one round for each byte and one for the end. White
-- space, comments and the texts of its tokens, in their order, are the source up to its end, where the end
-- token stands; every other token takes a byte and has the form of its kind, and none comes from a loop that
-- has run out of its rounds.
pub tokens-Tiles :
    (fuel : ℕ) (lexer : Lexer)
    → length lexer.current < fuel
    → (ts : List Token) × (tokens fuel lexer ≡ some ts) × Tiles lexer.current ts
unfolding tokens
tokens-Tiles zero lexer h = absurd (omega arith)
tokens-Tiles (suc fuel) lexer h =
    let ((l, t), run, tile) = next-Tile lexer in
    elim (Bool-cases (is_eof t.kind)) [
      | inl e ↦
          let (empty, end) = tile.last e in
          (t ∷ [], rw (run, tokens, e), last l.start tile.gap.gap end e empty)
      | inr e ↦
          let (ts, rest, tiles) =
            tokens-Tiles fuel l (omega (arith, h, tile.taken e, tile.gap.within)) in
          (
            t ∷ ts,
            rw (run, tokens, e, rest),
            token l.start l.current tile.gap.gap tile.gap.over tile.text (tile.taken e)
                (tile.shape e) tile.ended e tiles,
          )
    ]
