-- ===== src/Lexer/Gap.antt =====
-- src/compiler/lexer.c: `skipWhitespaceAndComments` ends, and passes over white space and comments.
use cscript.Prelude.{
  ℕ, zero, suc, ◌<◌, ◌≤◌, ◌≡◌, refl, sym, ap, ◌∙◌, arith, Bool, true, false, ◌&&◌, ◌||◌, List, [],
  ◌∷◌, length, ◌==◌, ==_iff, if◌then◌else◌, Option, none, some, inl, inr, Bool-cases, Option-cases,
  some-cancel,
}
use mathlib.Core.Path.{subst}
use cscript.Lexer.Scan.{
  peek, is_at_end, advance, skip_while, in_line, skip_block, skip_round, skip_space,
}
use cscript.Lexer.Suffix.{Suffix-length, skip_while-Suffix, skip_block-Suffix}
use cscript.Lexer.Literals.{Run, skip_while-Run, both, peek_next-cons}

abbrev pub is_space : ℕ → Bool
is_space c = c == b' ' || c == b'\r' || c == b'\t' || c == b'\n'

-- A block comment from behind its `/*`: up to the first `*/`, or to the end of the source.
pub data Block : List ℕ → List ℕ → Type 0 where
  close : {text : List ℕ} → Block (b'*' ∷ b'/' ∷ text) text
  at_end : {text : List ℕ} → is_at_end text ≡ true → Block text text
  inside :
      {text end : List ℕ} (c : ℕ)
      → (c == 0) ≡ false
      → (c == b'*' && peek text == b'/') ≡ false
      → Block text end
      → Block (c ∷ text) end

-- White space and comments from one cursor to another.
pub data Gap : List ℕ → List ℕ → Type 0 where
  nothing : {text : List ℕ} → Gap text text
  space : {text end : List ℕ} (c : ℕ) → is_space c ≡ true → Gap text end → Gap (c ∷ text) end
  line_comment :
      {text end : List ℕ} (line : List ℕ)
      → Run in_line text line
      → Gap line end
      → Gap (b'/' ∷ b'/' ∷ text) end
  block_comment :
      {text end : List ℕ} (rest : List ℕ)
      → Block text rest
      → Gap rest end
      → Gap (b'/' ∷ b'*' ∷ text) end

-- More of it begins here.
abbrev pub begins_gap : List ℕ → Bool
begins_gap text =
    is_space (peek text)
    || (peek text == b'/' && (peek (advance text) == b'/' || peek (advance text) == b'*'))

-- Two bytes that have been looked at.
two_bytes :
    (a b : ℕ) (text : List ℕ)
    → (peek text == a) ≡ true
    → (peek (advance text) == b) ≡ true
    → (a == 0) ≡ false
    → (b == 0) ≡ false
    → (more : List ℕ) × (text ≡ a ∷ b ∷ more)
two_bytes a b [] e f x y = absurd (ground (arith, e, x))
two_bytes a b (c ∷ []) e f x y = absurd (ground (arith, f, y))
two_bytes a b (c ∷ d ∷ more) e f x y =
    (more, ap (λ c. c ∷ d ∷ more) ((==_iff c a).0 e) ∙ ap (λ d. a ∷ d ∷ more) ((==_iff d b).0 f))

skip_block-Block : (text : List ℕ) (line : ℕ) → Block text (skip_block text line).0
unfolding skip_block
skip_block-Block [] line = at_end refl
skip_block-Block (c ∷ text) line = elim (Bool-cases (c == 0)) [
  | inl e ↦ rw e (at_end e)
  | inr e ↦ elim (Bool-cases (c == b'*' && peek text == b'/')) [
    | inl f ↦
        let (x, y) = both (c == b'*') (peek text == b'/') f in
        let (more, at) = two_bytes b'*' b'/' (c ∷ text) x y refl refl in
        rw (e, f) (subst (λ t. Block t (advance (advance t))) (sym at) close)
    | inr f ↦ rw (e, f) (inside c e f (skip_block-Block text _))
  ]
]

-- What a round passes over.
abbrev Passes : List ℕ → List ℕ → Type 0
Passes text rest = ((end : List ℕ) → Gap rest end → Gap text end) × (length rest < length text)

round_result :
    (text r : List ℕ) (m : ℕ) (rest : List ℕ) (n : ℕ)
    → ◌≡◌ {A = Option (List ℕ × ℕ)} (some (r, m)) (some (rest, n))
    → Passes text r
    → Passes text rest
round_result text r m rest n h = subst (λ (p : List ℕ × ℕ). Passes text p.0) (some-cancel h)

line_Passes :
    (more : List ℕ) → Passes (b'/' ∷ b'/' ∷ more) (skip_while in_line (b'/' ∷ b'/' ∷ more))
unfolding skip_while
line_Passes more = (
  λ end g. line_comment (skip_while in_line more) (skip_while-Run in_line more refl) g,
  omega (arith, Suffix-length _ _ (skip_while-Suffix in_line more)),
)

block_Passes : (more : List ℕ) (line : ℕ) → Passes (b'/' ∷ b'*' ∷ more) (skip_block more line).0
block_Passes more line = (
  λ end g. block_comment (skip_block more line).0 (skip_block-Block more line) g,
  omega (arith, Suffix-length _ _ (skip_block-Suffix more line)),
)

-- A round goes on over white space or a comment, and stops where there is none.
abbrev Rounds : List ℕ → Option (List ℕ × ℕ) → Type 0
Rounds text none = begins_gap text ≡ false
Rounds text (some (rest, line)) = Passes text rest

no_comment : (a b c d : Bool) → a ≡ false → c ≡ false → d ≡ false → (a || (b && (c || d))) ≡ false
no_comment a true c d e f g = rw (e, f, g) refl
no_comment a false c d e f g = rw e refl

no_slash : (a b c : Bool) → a ≡ false → b ≡ false → (a || (b && c)) ≡ false
no_slash a b c e f = rw (e, f) refl

slash_Rounds :
    (text : List ℕ) (line : ℕ)
    → is_space (peek text) ≡ false
    → (peek text == b'/') ≡ true
    → Rounds text (
        if peek (advance text) == b'/'
        then some (skip_while in_line text, line)
        else (if peek (advance text) == b'*'
            then some (skip_block (advance (advance text)) line)
            else none))
slash_Rounds text line s e = elim (Bool-cases (peek (advance text) == b'/')) [
  | inl f ↦
      let (more, at) = two_bytes b'/' b'/' text e f refl refl in
      rw f (subst (λ t. Passes t (skip_while in_line t)) (sym at) (line_Passes more))
  | inr f ↦ elim (Bool-cases (peek (advance text) == b'*')) [
    | inl g ↦
        let (more, at) = two_bytes b'/' b'*' text e g refl refl in
        rw (f, g)
          (subst (λ t. Passes t (skip_block (advance (advance t)) line).0) (sym at)
            (block_Passes more line))
    | inr g ↦ rw (f, g) (no_comment _ _ _ _ s f g)
  ]
]

skip_round-Rounds : (text : List ℕ) (line : ℕ) → Rounds text (skip_round text line)
unfolding skip_round
skip_round-Rounds [] line = refl
skip_round-Rounds (c ∷ text) line = elim (Bool-cases (c == b' ' || c == b'\r' || c == b'\t')) [
  | inl e ↦ rw e (λ end g. space c (ground (arith, e)) g, omega arith)
  | inr e ↦ elim (Bool-cases (c == b'\n')) [
    | inl f ↦ rw (e, f) (λ end g. space c (ground (arith, f)) g, omega arith)
    | inr f ↦ elim (Bool-cases (c == b'/')) [
      | inl g ↦
          rw (e, f, g, peek_next-cons c text (ground (arith, g)))
            (slash_Rounds (c ∷ text) line (ground (arith, e, f)) g)
      | inr g ↦ rw (e, f, g) (no_slash _ _ _ (ground (arith, e, f)) g)
    ]
  ]
]

-- Where the white space ends.
pub record Skipped (text rest : List ℕ) : Type 0 where
  pub gap : Gap text rest
  pub over : begins_gap rest ≡ false
  pub within : length rest ≤ length text

round_cases :
    (text : List ℕ) (line : ℕ) (o : Option (List ℕ × ℕ)) → skip_round text line ≡ o → Rounds text o
round_cases text line o e = subst (Rounds text) e (skip_round-Rounds text line)

pub skip_space-Skipped :
    (fuel : ℕ) (text : List ℕ) (line : ℕ)
    → length text < fuel
    → (rest : List ℕ) × (n : ℕ) × (skip_space fuel text line ≡ some (rest, n)) × Skipped text rest
unfolding skip_space
skip_space-Skipped zero text line h = absurd (omega arith)
skip_space-Skipped (suc fuel) text line h = elim (Option-cases (skip_round text line)) [
  | inl e ↦ (
    text,
    line,
    rw (e, skip_space) refl,
    record { gap = nothing; over = round_cases text line none e; within = omega arith },
  )
  | inr ((rest, n), e) ↦
      let (back, less) = round_cases text line (some (rest, n)) e in
      let (final, m, run, tail) = skip_space-Skipped fuel rest n (omega (arith, h, less)) in
      (
        final,
        m,
        rw (e, skip_space) run,
        record {
          gap = back final tail.gap;
          over = tail.over;
          within = omega (arith, tail.within, less);
        },
      )
]
