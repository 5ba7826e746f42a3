-- ===== src/Bigint/Text.antt =====
-- src/runtime/bigint.c: numbers from text and to text. A text is its bytes.
pub mod Print
pub mod RoundTrip
use cscript.Prelude.{
  in_range, ℕ, zero, suc, ◌+◌, ◌-◌, ◌*◌, ◌/◌, ◌%◌, Bool, true, false, ◌&&◌, ◌||◌, List, [], ◌∷◌,
  length, ltb, leb, ◌==◌, if◌then◌else◌, Option, none, some,
}
use cscript.Bigint.{
  Big, base, word64, zero_big, trim, with_sign, is_zero, from_int64, add, multiply,
}

-- `digitValue`; -1 is `none`.
unfoldable pub digit_value : ℕ → Option ℕ
digit_value c =
    if in_range c b'0' b'9'
    then some (c - b'0')
    else (if in_range c b'a' b'z'
        then some (c - b'a' + 10)
        else (if in_range c b'A' b'Z' then some (c - b'A' + 10) else none))

-- The optional sign of `csBigFromText`, and the text behind it.
unfoldable pub read_sign : List ℕ → Bool × List ℕ
read_sign [] = (false, [])
read_sign (c ∷ text) = if c == b'+' || c == b'-' then (c == b'-', text) else (false, c ∷ text)

-- The radix that the letter behind a leading zero names.
abbrev marker_radix : ℕ → Option ℕ
marker_radix m =
    if m == b'x' || m == b'X'
    then some 16
    else (if m == b'o' || m == b'O'
        then some 8
        else (if m == b'b' || m == b'B' then some 2 else none))

-- The optional radix prefix, and the text behind it.
unfoldable pub read_radix : List ℕ → ℕ × List ℕ
read_radix [] = (10, [])
read_radix (c ∷ []) = (10, c ∷ [])
read_radix (c ∷ m ∷ text) =
    if c == b'0'
    then elim (marker_radix m) [ some radix ↦ (radix, text) | none ↦ (10, c ∷ m ∷ text) ]
    else (10, c ∷ m ∷ text)

-- `out * scale + value`
unfoldable pub shift_digit : ℕ → Big → ℕ → Big
shift_digit radix out value = add (multiply out (from_int64 false radix)) (from_int64 false value)

-- One round of the loop of `csBigFromText`: the next `out`, or `none` for a bad digit.
unfoldable pub read_digit : ℕ → ℕ → Big → Option Big
read_digit radix c out = if c == b'_' then some out else elim (digit_value c) [
  | none ↦ none
  | some value ↦ if leb radix value then none else some (shift_digit radix out value)
]

unfoldable pub read_digits : ℕ → List ℕ → Big → Option Big
read_digits radix [] out = some out
read_digits radix (c ∷ text) out = elim (read_digit radix c out) [
  | none ↦ none
  | some next ↦ read_digits radix text next
]

-- The end of `csBigFromText`, behind the sign and the radix.
unfoldable pub read_magnitude : Bool → ℕ → List ℕ → Option Big
read_magnitude negative radix [] = none
read_magnitude negative radix (c ∷ text) = elim (read_digits radix (c ∷ text) zero_big) [
  | none ↦ none
  | some out ↦ some (with_sign negative out)
]

-- `csBigFromText`
unfoldable pub from_text : List ℕ → Option Big
from_text text =
    let (negative, unsigned) = read_sign text in
    let (radix, digits) = read_radix unsigned in read_magnitude negative radix digits

-- The loop of `divideBySmall`, from the top limb down: the limbs, and the remainder.
unfoldable pub divide_limbs : List ℕ → ℕ → List ℕ × ℕ
divide_limbs [] divisor = ([], 0)
divide_limbs (x ∷ xs) divisor =
    let (rest, remainder) = divide_limbs xs divisor in
    let current = word64 (remainder * base) + x in
    (current / divisor % base ∷ rest, current % divisor)

-- `divideBySmall`: the quotient, and the remainder.
unfoldable pub divide_by_small : Big → ℕ → Big × ℕ
divide_by_small v divisor =
    let (limbs, remainder) = divide_limbs v.limbs divisor in
    (trim (record { limbs = limbs; negative = v.negative }), remainder)

unfoldable pub digit_char : ℕ → ℕ
digit_char d = (if ltb d 10 then b'0' + d else b'a' + d - 10) % 256

-- The loop of `csBigToText`, which writes the digits from the back. `none`: out of fuel.
unfoldable pub print_digits : ℕ → ℕ → Big → List ℕ → Option (List ℕ)
print_digits zero radix working digits = if is_zero working then some digits else none
print_digits (suc fuel) radix working digits =
    let (quotient, remainder) = divide_by_small working radix in
    let rest = print_digits fuel radix quotient (digit_char remainder ∷ digits) in
    if is_zero working then some digits else rest

-- `csBigToText`. A limb has at most 32 digits, which bounds the rounds of the loop.
unfoldable pub to_text : Big → ℕ → Option (List ℕ)
to_text v radix =
    if is_zero v
    then some (b'0' ∷ [])
    else elim (print_digits (length v.limbs * 32) radix (record v { negative = false }) []) [
      | none ↦ none
      | some digits ↦ some (if v.negative then b'-' ∷ digits else digits)
    ]
