-- ===== src/Regex/Members.antt =====
-- src/runtime/regex.c: parsing a character class takes text away with each member, and so ends.
use cscript.Prelude.{
  length-append, ℕ, zero, suc, ◌≤◌, ◌<◌, refl, inl, inr, Bool, true, false, not, ◌&&◌, ◌||◌, List,
  [], ◌∷◌, ◌++◌, length, ltb, ◌==◌, if◌then◌else◌, arith, Option-cases,
}
use cscript.Regex.{Regex, re_class, re_char}
use cscript.Regex.Classes.{
  Parser, Member, byte, whole, bad, starved, read_escape, read_member, read_escaped, read_high,
  is_range, class_range, class_member, class_loop, finish_class, parse_class, add_escape_class,
  escaped_byte, class_add, class_add_range, peek_char, next_char, no_bytes, emit_byte,
  negated_in_class, backwards_range, emit_class, emit, fold_case, negate_class,
}
use cscript.Regex.Grows.{Good, Grows, Fine, emit-Grows}

-- A member, or the end of a range, that leaves at most `n` bytes.
abbrev IsItem : ℕ → Member → Type 0
IsItem n (byte c text) = length text ≤ n
IsItem n (whole bits text) = length text ≤ n
IsItem n (bad m) = Unit {0}
IsItem n starved = ⊥

-- A whole set that leaves at most `n` bytes, or an error.
abbrev IsWhole : ℕ → Member → Type 0
IsWhole n (byte c text) = ⊥
IsWhole n (whole bits text) = length text ≤ n
IsWhole n (bad m) = Unit {0}
IsWhole n starved = ⊥

IsItem-if :
    (n : ℕ) (b : Bool) (x y : Member) → IsItem n x → IsItem n y → IsItem n (if b then x else y)
IsItem-if n true x y hx hy = hx
IsItem-if n false x y hx hy = hy

IsWhole-if :
    (n : ℕ) (b : Bool) (x y : Member) → IsWhole n x → IsWhole n y → IsWhole n (if b then x else y)
IsWhole-if n true x y hx hy = hx
IsWhole-if n false x y hx hy = hy

IsItem-le : (n k : ℕ) (m : Member) → IsItem n m → n ≤ k → IsItem k m
IsItem-le n k (byte c text) h l = omega arith
IsItem-le n k (whole bits text) h l = omega arith
IsItem-le n k (bad m) h l = tt
IsItem-le n k starved h l = h

read_escape-IsItem : (bits text : List ℕ) → IsItem (length text) (read_escape bits text)
unfolding read_escape
read_escape-IsItem bits [] = tt
read_escape-IsItem bits (escape ∷ more) = elim (Option-cases (add_escape_class escape bits)) [
  | inl e ↦
      rw (e, IsItem)
        (IsItem-if _ (escape == b'D' || escape == b'W' || escape == b'S') (bad negated_in_class)
          (byte (escaped_byte escape) more) tt (omega arith))
  | inr (added, e) ↦ rw (e, IsItem) (omega arith)
]

read_member-IsItem :
    (bits : List ℕ) (c : ℕ) (text : List ℕ) → IsItem (length text) (read_member bits c text)
unfolding read_member
read_member-IsItem bits c text =
    IsItem-if _ (c == b'\\') (read_escape bits text) (byte c text) (read_escape-IsItem bits text)
      (omega arith)

read_escaped-IsItem : (text : List ℕ) → IsItem (length text) (read_escaped text)
unfolding read_escaped
read_escaped-IsItem [] = tt
read_escaped-IsItem (escape ∷ more) = omega arith

read_high-IsItem : (text : List ℕ) → IsItem (length text) (read_high text)
unfolding read_high
read_high-IsItem [] = tt
read_high-IsItem (c ∷ text) =
    IsItem-if _ (c == b'\\') (read_escaped text) (byte c text)
      (IsItem-le _ _ (read_escaped text) (read_escaped-IsItem text) (omega arith)) (omega arith)

pub next_char-shorter : (text : List ℕ) → length (next_char text) ≤ length text
next_char-shorter [] = omega arith
next_char-shorter (c ∷ text) = omega arith

-- A continuation that needs at most `n` bytes.
abbrev IsNext : ℕ → (List ℕ → List ℕ → Member) → Type 0
IsNext n next = (bits text : List ℕ) → length text ≤ n → IsWhole n (next bits text)

class_range-IsWhole :
    (n : ℕ) (next : List ℕ → List ℕ → Member) (bits : List ℕ) (low : ℕ) (m : Member)
    → IsNext n next
    → IsItem n m
    → IsWhole n (class_range next bits low m)
unfolding class_range
class_range-IsWhole n next bits low (byte high text) h i =
    IsWhole-if n (ltb high low) (bad backwards_range) (next (class_add_range low high bits) text) tt
      (h (class_add_range low high bits) text i)
class_range-IsWhole n next bits low (whole added text) h i = h added text i
class_range-IsWhole n next bits low (bad m) h i = tt
class_range-IsWhole n next bits low starved h i = i

class_member-IsWhole :
    (n : ℕ) (next : List ℕ → List ℕ → Member) (bits : List ℕ) (m : Member)
    → IsNext n next
    → IsItem n m
    → IsWhole n (class_member next bits m)
unfolding class_member
class_member-IsWhole n next bits (byte low text) h i =
    IsWhole-if n (is_range text) (class_range next bits low (read_high (next_char text)))
      (next (class_add low bits) text)
      (class_range-IsWhole n next bits low _ h (
        IsItem-le (length (next_char text)) n _ (read_high-IsItem (next_char text))
          (omega (arith, next_char-shorter text, i))))
      (h (class_add low bits) text i)
class_member-IsWhole n next bits (whole added text) h i = h added text i
class_member-IsWhole n next bits (bad m) h i = tt
class_member-IsWhole n next bits starved h i = i

IsWhole-le : (n k : ℕ) (m : Member) → IsWhole n m → n ≤ k → IsWhole k m
IsWhole-le n k (byte c text) h l = h
IsWhole-le n k (whole bits text) h l = omega arith
IsWhole-le n k (bad m) h l = tt
IsWhole-le n k starved h l = h

-- The fuel of `parse_class` is enough.
class_loop-IsWhole :
    (fuel : ℕ) (first : Bool) (bits text : List ℕ)
    → length text < fuel
    → IsWhole (length text) (class_loop fuel first bits text)
unfolding class_loop
class_loop-IsWhole zero first bits text h = absurd (omega arith)
class_loop-IsWhole (suc fuel) first bits [] h = omega arith
class_loop-IsWhole (suc fuel) first bits (c ∷ text) h =
    IsWhole-if _ ((c == b']') && not first) (whole bits (c ∷ text)) _ (omega arith) (
      IsWhole-le (length text) _ _
        (class_member-IsWhole (length text) (class_loop fuel false) bits (read_member bits c text)
          (λ b t l.
            IsWhole-le (length t) (length text) _ (class_loop-IsWhole fuel false b t (omega arith))
              l)
          (read_member-IsItem bits c text))
        (omega arith))

pub emit_class-Grows :
    (p : Parser) (bits rest : List ℕ)
    → Good p
    → length rest ≤ length p.rest
    → Grows p (record { regex = emit_class bits p.regex; rest = rest })
emit_class-Grows p bits rest h l =
    let more = length-append p.regex.classes (bits ∷ []) in
    emit-Grows p re_class (length p.regex.classes) 0
      (record p.regex { classes = p.regex.classes ++ bits ∷ [] }) rest h refl (omega (arith, more))
      (omega (arith, more)) (omega arith) l tt

finish_class-Fine :
    (negated : Bool) (p : Parser) (m : Member)
    → Good p
    → IsWhole (length p.rest) m
    → Fine p (finish_class negated p.regex m)
unfolding finish_class
finish_class-Fine negated p (whole bits []) h i = tt
finish_class-Fine negated p (whole bits (c ∷ text)) h i =
    let folded = if p.regex.ignore_case then fold_case bits else bits in
    emit_class-Grows p (if negated then negate_class folded else folded) text h (omega arith)
finish_class-Fine negated p (byte c text) h i = i
finish_class-Fine negated p (bad m) h i = tt
finish_class-Fine negated p starved h i = i

pub parse_class-Fine : (p : Parser) → Good p → Fine p (parse_class p)
unfolding parse_class
parse_class-Fine p h =
    let negated = (peek_char p.rest == b'^') in
    let text = if negated then next_char p.rest else p.rest in
    finish_class-Fine negated p _ h (
      IsWhole-le (length text) (length p.rest) _
        (class_loop-IsWhole (suc (length text)) true no_bytes text (omega arith)) (shorter negated))
  where
    shorter : (b : Bool) → length (if b then next_char p.rest else p.rest) ≤ length p.rest
    shorter true = next_char-shorter p.rest
    shorter false = omega arith

Grows-if :
    (p : Parser) (b : Bool) (x y : Regex) (rest : List ℕ)
    → Grows p (record { regex = x; rest = rest })
    → Grows p (record { regex = y; rest = rest })
    → Grows p (record { regex = if b then x else y; rest = rest })
Grows-if p true x y rest hx hy = hx
Grows-if p false x y rest hx hy = hy

pub emit_byte-Grows :
    (p : Parser) (c : ℕ) (rest : List ℕ)
    → Good p
    → length rest ≤ length p.rest
    → Grows p (record { regex = emit_byte c p.regex; rest = rest })
unfolding emit_byte
emit_byte-Grows p c rest h l =
    Grows-if p p.regex.ignore_case _ (emit re_char c 0 p.regex) rest (emit_class-Grows p _ rest h l)
      (emit-Grows p re_char c 0 p.regex rest h refl (omega arith) tt (omega arith) l tt)
