-- ===== src/Lexer/Patterns.antt =====
-- src/compiler/lexer.c: what the loop over a regular expression passes over, and that it ends.
use cscript.Prelude.{
  ℕ, zero, suc, ◌<◌, ◌≡◌, ◌⊎◌, refl, sym, arith, Bool, true, false, not, ◌&&◌, ◌||◌, List, [], ◌∷◌,
  length, ◌==◌, ==_iff, if◌then◌else◌, inl, inr, Bool-cases,
}
use mathlib.Core.Path.{subst}
use cscript.Lexer.Scan.{peek, is_at_end, advance, Ending, closed, unclosed, spent, regex_end}
use cscript.Lexer.Suffix.{Suffix, Suffix-refl, Suffix-trans, Suffix-cons, Suffix-advance}
use cscript.Lexer.Literals.{escaped, both, not-true, shorter}

-- The state behind a byte that is not a backslash: whether it is in a class.
abbrev pub class_after : ℕ → Bool → Bool
class_after c in_class = if c == b'[' then true else (if c == b']' then false else in_class)

-- The body of a regular expression from one cursor to another, each with whether it is in a class: an
-- escape of any byte but 0, and bytes that are no backslash, no newline, no byte 0 and, outside a class, no
-- slash.
pub data Pattern : Bool → List ℕ → Bool → List ℕ → Type 0 where
  stop : {in_class : Bool} {text : List ℕ} → Pattern in_class text in_class text
  char :
      {in_class later : Bool} {text end : List ℕ} (c : ℕ)
      → (c == 0 || c == b'\n' || c == b'\\' || ((c == b'/') && not in_class)) ≡ false
      → Pattern (class_after c in_class) text later end
      → Pattern in_class (c ∷ text) later end
  escape :
      {in_class later : Bool} {text end : List ℕ} (d : ℕ)
      → (d == 0) ≡ false
      → Pattern in_class text later end
      → Pattern in_class (b'\\' ∷ d ∷ text) later end

-- An expression is closed by the first slash outside a class; it is open at a newline or at the end of the
-- source, which may come behind a backslash.
abbrev pub RegexEnds : Bool → List ℕ → Ending × List ℕ → Type 0
RegexEnds in_class text (closed, end) = Pattern in_class text false (b'/' ∷ end)
RegexEnds in_class text (unclosed, end) =
    (later : Bool) × ((Pattern in_class text later end
        × ((is_at_end end || peek end == b'\n') ≡ true))
      ⊎ (Pattern in_class text later (b'\\' ∷ end) × (is_at_end end ≡ true)))
RegexEnds in_class text (spent, end) = ⊥

RegexEnds-back :
    (in_class after : Bool) (text next : List ℕ) (r : Ending × List ℕ)
    → ((later : Bool) (end : List ℕ)
        → Pattern after next later end
        → Pattern in_class text later end)
    → RegexEnds after next r
    → RegexEnds in_class text r
RegexEnds-back in_class after text next (closed, end) f h = f false _ h
RegexEnds-back in_class after text next (unclosed, end) f (later, h) =
    (later, elim h [ inl (q, e) ↦ inl (f later _ q, e) | inr (q, e) ↦ inr (f later _ q, e) ])
RegexEnds-back in_class after text next (spent, end) f h = h

closes :
    (c : ℕ) (text : List ℕ) (in_class : Bool)
    → (c == b'/') ≡ true
    → in_class ≡ false
    → Pattern in_class (c ∷ text) false (b'/' ∷ text)
closes c text in_class e f =
    rw f
      (subst (λ c. Pattern false (c ∷ text) false (b'/' ∷ text)) (sym ((==_iff c b'/').0 e)) stop)

pub regex_end-RegexEnds :
    (fuel : ℕ) (text : List ℕ) (in_class : Bool)
    → length text < fuel
    → RegexEnds in_class text (regex_end fuel text in_class)
unfolding regex_end
regex_end-RegexEnds zero text in_class h = absurd (omega arith)
regex_end-RegexEnds (suc fuel) [] in_class h = (in_class, inl (stop, refl))
regex_end-RegexEnds (suc fuel) (c ∷ text) in_class h = elim (Bool-cases (c == 0 || c == b'\n')) [
  | inl e ↦ rw e (in_class, inl (stop, e))
  | inr e ↦ elim (Bool-cases (c == b'\\')) [
    | inl f ↦ elim (Bool-cases (is_at_end text)) [
      | inl g ↦
          rw (e, f, g)
            (
              in_class,
              inr (
                subst (λ c. Pattern in_class (c ∷ text) in_class (b'\\' ∷ text))
                    (sym ((==_iff c b'\\').0 f)) stop,
                g,
              ),
            )
      | inr g ↦
          rw (e, f, g)
            (RegexEnds-back in_class in_class (c ∷ text) (advance text) _
              (λ later end q.
                escaped (λ t. Pattern in_class t later end) c text (rw (f, g) refl)
                  (λ d more z a. escape d z (subst (λ t. Pattern in_class t later end) a q)))
              (regex_end-RegexEnds fuel (advance text) in_class (omega (arith, h, shorter text))))
    ]
    | inr f ↦ elim (Bool-cases ((c == b'/') && not in_class)) [
      | inl g ↦
          let (x, y) = both (c == b'/') (not in_class) g in
          rw (e, f, g) (closes c text in_class x (not-true in_class y))
      | inr g ↦
          rw (e, f, g)
            (RegexEnds-back in_class (class_after c in_class) (c ∷ text) text _
              (λ later end q. char c (ground (arith, e, f, g)) q)
              (regex_end-RegexEnds fuel text (class_after c in_class) (omega (arith, h))))
    ]
  ]
]

Pattern-Suffix :
    (in_class later : Bool) (text end : List ℕ) → Pattern in_class text later end → Suffix end text
Pattern-Suffix in_class _ text _ stop = Suffix-refl text
Pattern-Suffix in_class later _ end (char c e h) =
    Suffix-cons end _ c (Pattern-Suffix _ later _ end h)
Pattern-Suffix in_class later _ end (escape d e h) =
    Suffix-cons end _ b'\\' (Suffix-cons end _ d (Pattern-Suffix in_class later _ end h))

pub RegexEnds-Suffix :
    (in_class : Bool) (text : List ℕ) (r : Ending × List ℕ)
    → RegexEnds in_class text r
    → Suffix r.1 text
RegexEnds-Suffix in_class text (closed, end) h =
    Suffix-trans end (b'/' ∷ end) text (Suffix-advance (b'/' ∷ end))
      (Pattern-Suffix in_class false text _ h)
RegexEnds-Suffix in_class text (unclosed, end) (later, h) = elim h [
  | inl (q, e) ↦ Pattern-Suffix in_class later text end q
  | inr (q, e) ↦
      Suffix-trans end (b'\\' ∷ end) text (Suffix-advance (b'\\' ∷ end))
        (Pattern-Suffix in_class later text _ q)
]
RegexEnds-Suffix in_class text (spent, end) h = absurd h
