-- ===== src/Lexer/Literals.antt =====
-- src/compiler/lexer.c: what the loops over strings, templates and regular expressions pass over, and that
-- they end.
use cscript.Prelude.{
  ℕ, zero, suc, ◌<◌, ◌≤◌, ◌≡◌, refl, sym, arith, Bool, true, false, not, ◌&&◌, ◌||◌, List, [], ◌∷◌,
  length, ◌==◌, ==_iff, inl, inr, Bool-cases,
}
use mathlib.Core.Path.{subst}
use cscript.Lexer.Scan.{
  peek, peek_next, is_at_end, advance, skip_while, Ending, closed, unclosed, spent, string_end,
}

-- The bytes with a property from a cursor on, up to the first without it.
pub data Run (test : ℕ → Bool) : List ℕ → List ℕ → Type 0 where
  end_of : {text : List ℕ} → test (peek text) ≡ false → Run test text text
  byte : {text end : List ℕ} (c : ℕ) → test c ≡ true → Run test text end → Run test (c ∷ text) end

pub skip_while-Run :
    (test : ℕ → Bool) (text : List ℕ) → test 0 ≡ false → Run test text (skip_while test text)
unfolding skip_while
skip_while-Run test [] z = end_of z
skip_while-Run test (c ∷ text) z = elim (Bool-cases (test c)) [
  | inl e ↦ rw e (byte c e (skip_while-Run test text z))
  | inr e ↦ rw e (end_of e)
]

-- The body of a string from one cursor to another: bytes that are not the quote, a newline, a byte 0 or a
-- backslash, and escapes. A backslash at the end of the source stands for itself.
pub data Quoted (quote : ℕ) : List ℕ → List ℕ → Type 0 where
  stop : {text : List ℕ} → Quoted quote text text
  char :
      {text end : List ℕ} (c : ℕ)
      → (c == 0 || c == quote || c == b'\n') ≡ false
      → (c == b'\\' && not (peek text == 0)) ≡ false
      → Quoted quote text end
      → Quoted quote (c ∷ text) end
  escape :
      {text end : List ℕ} (d : ℕ)
      → (d == 0) ≡ false
      → Quoted quote text end
      → Quoted quote (b'\\' ∷ d ∷ text) end

-- A string is closed by its quote, and is open at a newline or at the end of the source.
abbrev pub StringEnds : ℕ → List ℕ → Ending × List ℕ → Type 0
StringEnds quote text (closed, end) =
    Quoted quote text end × (is_at_end end ≡ false) × (peek end ≡ quote)
StringEnds quote text (unclosed, end) =
    Quoted quote text end × ((is_at_end end || peek end == b'\n') ≡ true)
StringEnds quote text (spent, end) = ⊥

-- What is behind a step is behind the start.
StringEnds-back :
    (quote : ℕ) (text next : List ℕ) (r : Ending × List ℕ)
    → ((end : List ℕ) → Quoted quote next end → Quoted quote text end)
    → StringEnds quote next r
    → StringEnds quote text r
StringEnds-back quote text next (closed, end) f (q, e, p) = (f end q, e, p)
StringEnds-back quote text next (unclosed, end) f (q, e) = (f end q, e)
StringEnds-back quote text next (spent, end) f h = h

pub peek_next-cons : (c : ℕ) (text : List ℕ) → (c == 0) ≡ false → peek_next (c ∷ text) ≡ peek text
unfolding peek_next
peek_next-cons c text e = rw e refl

pub shorter : (text : List ℕ) → length (advance text) ≤ length text
shorter [] = omega arith
shorter (c ∷ text) = omega arith

pub both : (a b : Bool) → (a && b) ≡ true → (a ≡ true) × (b ≡ true)
both true b h = (refl, h)
both false b h = absurd cc

pub not-true : (b : Bool) → not b ≡ true → b ≡ false
not-true true h = absurd cc
not-true false h = refl

-- A step over a backslash and the byte behind it.
pub escaped :
    (P : List ℕ → Type 0) (c : ℕ) (text : List ℕ)
    → (c == b'\\' && not (peek text == 0)) ≡ true
    → ((d : ℕ) (more : List ℕ) → (d == 0) ≡ false → advance text ≡ more → P (b'\\' ∷ d ∷ more))
    → P (c ∷ text)
escaped P c [] k f = let (x, y) = both (c == b'\\') false k in absurd cc
escaped P c (d ∷ text) k f =
    let (x, y) = both (c == b'\\') (not (d == 0)) k in
    subst (λ c. P (c ∷ d ∷ text)) (sym ((==_iff c b'\\').0 x)) (f d text (not-true (d == 0) y) refl)

pub string_end-StringEnds :
    (fuel : ℕ) (text : List ℕ) (quote : ℕ)
    → length text < fuel
    → StringEnds quote text (string_end fuel text quote)
unfolding string_end
string_end-StringEnds zero text quote h = absurd (omega arith)
string_end-StringEnds (suc fuel) [] quote h = (stop, refl)
string_end-StringEnds (suc fuel) (c ∷ text) quote h = elim (Bool-cases (c == 0)) [
  | inl e ↦ rw e (stop, ground arith)
  | inr e ↦ elim (Bool-cases (c == quote)) [
    | inl f ↦ rw (e, f) (stop, e, (==_iff c quote).0 f)
    | inr f ↦ elim (Bool-cases (c == b'\n')) [
      | inl g ↦ rw (e, f, g) (stop, ground arith)
      | inr g ↦ elim (Bool-cases (c == b'\\' && not (peek text == 0))) [
        | inl k ↦
            rw (e, f, g, peek_next-cons c text e, k)
              (StringEnds-back quote (c ∷ text) (advance text) _
                (λ end q.
                  escaped (λ t. Quoted quote t end) c text k
                    (λ d more z a. escape d z (subst (λ t. Quoted quote t end) a q)))
                (string_end-StringEnds fuel (advance text) quote (omega (arith, h, shorter text))))
        | inr k ↦
            rw (e, f, g, peek_next-cons c text e, k)
              (StringEnds-back quote (c ∷ text) text _ (λ end q. char c (ground arith) k q)
                (string_end-StringEnds fuel text quote (omega (arith, h))))
      ]
    ]
  ]
]
