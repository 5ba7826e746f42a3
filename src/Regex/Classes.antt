-- ===== src/Regex/Classes.antt =====
-- src/runtime/regex.c: character classes and escapes, while a pattern is compiled.
use cscript.Prelude.{
  ℕ, zero, suc, ◌+◌, ◌-◌, ◌/◌, ◌%◌, ◌^◌, Bool, true, false, not, ◌&&◌, ◌||◌, List, [], ◌∷◌, ◌++◌,
  map, length, get_or, set, replicate, in_range, ltb, ◌==◌, if◌then◌else◌, Option, none, some,
}
use cscript.Regex.{Regex, class_has, re_char, re_class, Op}

-- `{0}`
abbrev pub no_bytes : List ℕ
no_bytes = replicate 32 0

-- `emit`
abbrev pub emit : Op → ℕ → ℕ → Regex → Regex
emit op x y regex = record regex { code = regex.code ++ record { op = op; x = x; y = y } ∷ [] }

-- `classAdd`
unfoldable pub class_add : ℕ → List ℕ → List ℕ
class_add byte bits =
    if class_has bits byte
    then bits
    else set bits (byte / 8) (get_or bits (byte / 8) 0 + 2 ^ (byte % 8))

-- The loop of `classAddRange`, `n` bytes from `from` on.
unfoldable pub class_add_bytes : ℕ → ℕ → List ℕ → List ℕ
class_add_bytes zero from bits = bits
class_add_bytes (suc n) from bits = class_add_bytes n (suc from) (class_add from bits)

-- `classAddRange`
unfoldable pub class_add_range : ℕ → ℕ → List ℕ → List ℕ
class_add_range from to bits = class_add_bytes (suc to - from) from bits

-- `addEscapeClass`; `false` is `none`.
unfoldable pub add_escape_class : ℕ → List ℕ → Option (List ℕ)
add_escape_class escape bits =
    if escape == b'd'
    then some (class_add_range b'0' b'9' bits)
    else (if escape == b'w'
        then some (
            class_add b'_' (
              class_add_range b'0' b'9'
                (class_add_range b'A' b'Z' (class_add_range b'a' b'z' bits))))
        else (if escape == b's'
            then some (
                class_add 11 (
                  class_add 12
                    (class_add b'\r' (class_add b'\n' (class_add b'\t' (class_add b' ' bits))))))
            else none))

-- `negate`
abbrev pub negate_class : List ℕ → List ℕ
negate_class bits = map (λ b. 255 - b) bits

-- `escapedByte`
unfoldable pub escaped_byte : ℕ → ℕ
escaped_byte escape =
    if escape == b'n'
    then b'\n'
    else (if escape == b't'
        then b'\t'
        else (if escape == b'r'
            then b'\r'
            else (if escape == b'f'
                then 12
                else (if escape == b'v' then 11 else (if escape == b'0' then 0 else escape)))))

-- `emit(regex, RE_CLASS, addClass(regex, &set), 0)`
abbrev pub emit_class : List ℕ → Regex → Regex
emit_class bits regex =
    emit re_class (length regex.classes) 0 (record regex { classes = regex.classes ++ bits ∷ [] })

-- `emitByte`
unfoldable pub emit_byte : ℕ → Regex → Regex
emit_byte byte regex =
    if regex.ignore_case
    then (let bits = class_add byte no_bytes in
        let lower = if in_range byte b'a' b'z' then class_add (byte - 32) bits else bits in
        emit_class (if in_range byte b'A' b'Z' then class_add (byte + 32) lower else lower) regex)
    else emit re_char byte 0 regex

-- The messages of the errors.
pub data Message : Type 0 where
  trailing_in_class : Message
  negated_in_class : Message
  backwards_range : Message
  open_class : Message
  same_name : Message
  open_lookahead : Message
  open_lookbehind : Message
  open_name : Message
  no_name : Message
  unsupported_modifier : Message
  too_many_groups : Message
  open_group : Message
  trailing_escape : Message
  no_such_group : Message
  backwards_bounds : Message
  large_bounds : Message
  extra_paren : Message

-- `ReParser`: the program so far, and the pattern from the position on.
pub record Parser : Type 0 where
  pub regex : Regex
  pub rest : List ℕ

pub data Answer : Type 0 where
  parsed : Parser → Answer
  failed : Message → Answer
  no_fuel : Answer

abbrev pub and_then : Answer → (Parser → Answer) → Answer
and_then (parsed p) f = f p
and_then (failed m) f = failed m
and_then no_fuel f = no_fuel

-- `peekChar`; 0 at the end.
abbrev pub peek_char : List ℕ → ℕ
peek_char text = get_or text 0 0

abbrev pub next_char : List ℕ → List ℕ
next_char [] = []
next_char (c ∷ text) = text

-- A member of a class, or the end of a range: the byte and the text behind it; or the set so far.
pub data Member : Type 0 where
  byte : ℕ → List ℕ → Member
  whole : List ℕ → List ℕ → Member
  bad : Message → Member
  starved : Member

unfoldable pub read_escape : List ℕ → List ℕ → Member
read_escape bits [] = bad trailing_in_class
read_escape bits (escape ∷ more) = elim (add_escape_class escape bits) [
  | some added ↦ whole added more
  | none ↦
      if escape == b'D' || escape == b'W' || escape == b'S'
      then bad negated_in_class
      else byte (escaped_byte escape) more
]

-- The low end of a member; an escape class is added whole.
unfoldable pub read_member : List ℕ → ℕ → List ℕ → Member
read_member bits c text = if c == b'\\' then read_escape bits text else byte c text

unfoldable pub read_escaped : List ℕ → Member
read_escaped [] = bad trailing_in_class
read_escaped (escape ∷ more) = byte (escaped_byte escape) more

-- The high end of a range.
unfoldable pub read_high : List ℕ → Member
read_high [] = bad trailing_in_class
read_high (c ∷ text) = if c == b'\\' then read_escaped text else byte c text

-- `a-z`, but a `-` at the end of a class is a literal.
abbrev pub is_range : List ℕ → Bool
is_range (dash ∷ c ∷ text) = (dash == b'-') && not (c == b']')
is_range text = false

-- The rest of the loop of `parseClass` behind the ends of a range.
unfoldable pub class_range : (List ℕ → List ℕ → Member) → List ℕ → ℕ → Member → Member
class_range next bits low (byte high text) =
    if ltb high low then bad backwards_range else next (class_add_range low high bits) text
class_range next bits low (whole added text) = next added text
class_range next bits low (bad m) = bad m
class_range next bits low starved = starved

-- The rest of the loop of `parseClass` behind the low end of a member.
unfoldable pub class_member : (List ℕ → List ℕ → Member) → List ℕ → Member → Member
class_member next bits (byte low text) =
    if is_range text
    then class_range next bits low (read_high (next_char text))
    else next (class_add low bits) text
class_member next bits (whole added text) = next added text
class_member next bits (bad m) = bad m
class_member next bits starved = starved

-- The loop of `parseClass`: the set, and the text from the `]` on.
unfoldable pub class_loop : ℕ → Bool → List ℕ → List ℕ → Member
class_loop zero first bits text = starved
class_loop (suc fuel) first bits [] = whole bits []
class_loop (suc fuel) first bits (c ∷ text) =
    let rest = class_member (class_loop fuel false) bits (read_member bits c text) in
    if (c == b']') && not first then whole bits (c ∷ text) else rest

-- The other case of each of the `n` letters from `from` on that the set has, `up` above or below it.
unfoldable pub fold_letters : ℕ → ℕ → (ℕ → ℕ) → List ℕ → List ℕ
fold_letters zero from other bits = bits
fold_letters (suc n) from other bits =
    fold_letters n (suc from) other
      (if class_has bits from then class_add (other from) bits else bits)

abbrev pub fold_case : List ℕ → List ℕ
fold_case bits = fold_letters 26 b'A' (λ c. c + 32) (fold_letters 26 b'a' (λ c. c - 32) bits)

-- The end of `parseClass`.
unfoldable pub finish_class : Bool → Regex → Member → Answer
finish_class negated regex (whole bits []) = failed open_class
finish_class negated regex (whole bits (c ∷ text)) =
    let folded = if regex.ignore_case then fold_case bits else bits in
    parsed (record {
      regex = emit_class (if negated then negate_class folded else folded) regex;
      rest = text;
    })
finish_class negated regex (byte c text) = no_fuel
finish_class negated regex (bad m) = failed m
finish_class negated regex starved = no_fuel

-- `parseClass`
unfoldable pub parse_class : Parser → Answer
parse_class p =
    let negated = (peek_char p.rest == b'^') in
    let text = if negated then next_char p.rest else p.rest in
    finish_class negated p.regex (class_loop (suc (length text)) true no_bytes text)
