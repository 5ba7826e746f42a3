-- ===== src/Date/Tests.antt =====
-- Dates on both sides of a leap day, and the theorem at one of them.
use cscript.Prelude.{ℕ, arith, ◌≡◌, refl, some, none}
use cscript.Date.{
  days_in_month, days_before_year, days_before_month, days_from_civil, year_loop, month_loop,
  break_down, weekday,
}
use cscript.Date.Calendar.{IsDate, days_from_civil-break_down}

program : Unit {0}
unfolding days_in_month days_before_year days_before_month days_from_civil year_loop month_loop
    break_down
program = tt

-- 1970-01-01, a Thursday, 1972-02-29 and 1972-03-01.
dates :
    (break_down 0 ≡ some (1970, 0, 1))
    × (weekday 0 ≡ 4)
    × (break_down 789 ≡ some (1972, 1, 29))
    × (break_down 790 ≡ some (1972, 2, 1))
    × (days_from_civil 1972 2 1 ≡ some 790)
    × (days_from_civil 2000 0 1 ≡ some 10957)
unfolding program
dates = (refl, refl, refl, refl, refl, refl)

-- A month past the table of twelve is no date.
behind_the_table : days_from_civil 2024 13 1 ≡ none
unfolding program
behind_the_table = refl

days_from_civil-break_down_example :
    (r : ℕ × ℕ × ℕ) × (break_down 20_000 ≡ some r)
    × IsDate r
    × (days_from_civil r.0 r.1 r.2 ≡ some 20_000)
days_from_civil-break_down_example = days_from_civil-break_down 20_000 (omega arith)
