-- ===== src/Bigint/Tests.antt =====
-- Runs of the arbitrary-precision integers, and the theorems at concrete numbers.
use cscript.Prelude.{ℕ, ◌≡◌, refl, [], ◌∷◌, List, arith, true, false, length, some, ◌+◌, ◌≤◌, ◌*◌}
use cscript.Prelude.Int.{◌+ℤ◌, ◌-ℤ◌, ◌*ℤ◌}
use cscript.Bigint.{
  Big, trim, trim_count, add, add_opposite, negate, subtract, multiply, mul_loop, mul_row, is_zero,
  compare_big, from_int64, with_sign, add_magnitude, add_loop, subtract_magnitude, sub_loop,
  sub_limb, compare_magnitude, compare_loop,
}
use cscript.Bigint.Value.{IsValid, value}
use cscript.Bigint.Sum.{to_ℤ, compare_ℤ, add-to_ℤ, subtract-to_ℤ, compare_big-to_ℤ}
use cscript.Bigint.Product.{multiply-to_ℤ}
use cscript.Bigint.Bits.{bit_at, set_bit}
use cscript.Bigint.Division.{
  reduce, shift_in, divide_loop, divide_magnitude, divide, remainder, power_loop, power,
}
use cscript.Bigint.Quotient.{IsDivision, divide-remainder}
use cscript.Bigint.Power.{pow_ℤ, power-to_ℤ}
use cscript.Bigint.Text.{
  read_sign, read_radix, read_digits, read_digit, digit_value, shift_digit, read_magnitude,
  from_text, divide_limbs, divide_by_small, print_digits, digit_char, to_text,
}
use cscript.Bigint.Text.Print.{to_text-fits}
use cscript.Bigint.Text.RoundTrip.{from_text-to_text}

program : Unit {0}
unfolding trim trim_count add add_opposite negate subtract multiply mul_loop mul_row is_zero
    compare_big from_int64 with_sign add_magnitude add_loop subtract_magnitude sub_loop sub_limb
    compare_magnitude compare_loop bit_at set_bit reduce shift_in divide_loop divide_magnitude
    divide remainder power_loop power read_sign read_radix read_digits read_digit digit_value
    shift_digit read_magnitude from_text divide_limbs divide_by_small print_digits digit_char
    to_text value
program = tt

-- 2 ^ 64 + 5 and -(2 ^ 33 + 7)
abbrev large : Big
large = record { limbs = 5 ∷ 0 ∷ 1 ∷ []; negative = false }

abbrev below : Big
below = record { limbs = 7 ∷ 2 ∷ []; negative = true }

large-IsValid : IsValid large
large-IsValid = record { limbs = omega arith; trimmed = omega arith; signed = λ h. refl }

below-IsValid : IsValid below
below-IsValid = record {
  limbs = omega arith;
  trimmed = omega arith;
  signed = λ h. absurd (omega arith);
}

borrows : add large below ≡ record { limbs = 0xffff_fffe ∷ 0xffff_fffd ∷ []; negative = false }
unfolding program
borrows = refl

truncates : divide below large ≡ some (record { limbs = []; negative = false })
unfolding program
truncates = refl

prints : to_text below 10 ≡ some (45 ∷ 56 ∷ 53 ∷ 56 ∷ 57 ∷ 57 ∷ 51 ∷ 52 ∷ 53 ∷ 57 ∷ 57 ∷ [])
unfolding program
prints = refl

add-to_ℤ_example : to_ℤ (add large below) ≡ to_ℤ large +ℤ to_ℤ below
add-to_ℤ_example = add-to_ℤ large below large-IsValid below-IsValid

subtract-to_ℤ_example : to_ℤ (subtract large below) ≡ to_ℤ large -ℤ to_ℤ below
subtract-to_ℤ_example = subtract-to_ℤ large below large-IsValid below-IsValid

multiply-to_ℤ_example : to_ℤ (multiply large below) ≡ to_ℤ large *ℤ to_ℤ below
multiply-to_ℤ_example = multiply-to_ℤ large below large-IsValid below-IsValid

compare_big-to_ℤ_example : compare_big below large ≡ compare_ℤ (to_ℤ below) (to_ℤ large)
compare_big-to_ℤ_example = compare_big-to_ℤ below large below-IsValid large-IsValid

divide-remainder_example :
    (q : Big) × (r : Big) × (divide large below ≡ some q)
    × (remainder large below ≡ some r)
    × IsDivision large below q r
divide-remainder_example =
    divide-remainder large below large-IsValid below-IsValid (unfold program in refl)

power-to_ℤ_example :
    (p : Big) × (power below large ≡ some p)
    × IsValid p
    × (to_ℤ p ≡ pow_ℤ (to_ℤ below) (value large.limbs))
power-to_ℤ_example = power-to_ℤ below large below-IsValid large-IsValid refl

to_text-fits_example :
    (t : List ℕ) × (to_text below 16 ≡ some t)
    × (is_zero below ≡ false → length t + 1 ≤ length below.limbs * 34 + 2)
to_text-fits_example = to_text-fits below 16 below-IsValid (omega arith) (omega arith)

from_text-to_text_example : (t : List ℕ) × (to_text below 10 ≡ some t) × (from_text t ≡ some below)
from_text-to_text_example = from_text-to_text below below-IsValid
