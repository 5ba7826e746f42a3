-- ===== src/Date.antt =====
-- src/native/native_date.c: the calendar, from the epoch on. A count of days is that since 1970-01-01, a
-- month begins at 0, and a read behind the table of months is `none`. A year is a number without
-- a bound, where C has an `int`.
pub mod Calendar
mod Tests
use cscript.Prelude.{
  ℕ, zero, suc, ◌+◌, ◌-◌, ◌*◌, ◌/◌, ◌%◌, Bool, true, false, not, ◌&&◌, ◌||◌, List, [], ◌∷◌, ltb,
  leb, ◌>>=◌, ◌==◌, if◌then◌else◌, Option, none, some, get_elem?,
}

-- `isLeap`
abbrev pub is_leap : ℕ → Bool
is_leap year = ((year % 4 == 0) && not (year % 100 == 0)) || (year % 400 == 0)

-- `MONTH_DAYS`
abbrev pub month_days : List ℕ
month_days = 31 ∷ 28 ∷ 31 ∷ 30 ∷ 31 ∷ 30 ∷ 31 ∷ 31 ∷ 30 ∷ 31 ∷ 30 ∷ 31 ∷ []

-- `daysInMonth`
unfoldable pub days_in_month : ℕ → ℕ → Option ℕ
days_in_month year month =
    if (month == 1) && is_leap year then some 29 else get_elem? month_days month

abbrev pub days_in_year : ℕ → ℕ
days_in_year year = if is_leap year then 366 else 365

-- The days of the years before one, from the year 1 on.
abbrev pub days_from_one : ℕ → ℕ
days_from_one y = y * 365 + (y / 4 - y / 100 + y / 400)

-- `daysBeforeYear`, for the years from 1970 on.
unfoldable pub days_before_year : ℕ → ℕ
days_before_year year = days_from_one (year - 1) - days_from_one 1969

-- The loop of `daysFromCivil` over the months before one.
unfoldable pub days_before_month : ℕ → ℕ → Option ℕ
days_before_month year zero = some 0
days_before_month year (suc month) = do
  days ← days_before_month year month
  n ← days_in_month year month
  some (days + n)

-- `daysFromCivil`, for the years from 1970 on.
unfoldable pub days_from_civil : ℕ → ℕ → ℕ → Option ℕ
days_from_civil year month day = do
  days ← days_before_month year month
  some (days_before_year year + days + day - 1)

-- The loop of `breakDown` over the years.
unfoldable pub year_loop : ℕ → ℕ → ℕ → Option (ℕ × ℕ)
year_loop zero year days = none
year_loop (suc fuel) year days =
    let rest = year_loop fuel (year + 1) (days - days_in_year year) in
    if ltb days (days_in_year year) then some (year, days) else rest

-- The loop of `breakDown` over the months.
unfoldable pub month_loop : ℕ → ℕ → ℕ → ℕ → Option (ℕ × ℕ)
month_loop zero year month days = none
month_loop (suc fuel) year month days = do
  n ← days_in_month year month
  let rest = month_loop fuel year (month + 1) (days - n)
  if leb n days then rest else some (month, days)

-- `weekday` of `Parts`; Sunday is 0.
abbrev pub weekday : ℕ → ℕ
weekday days = (days % 7 + 11) % 7

-- The calendar of `breakDown`: year, month and day of a count of days that is not negative.
unfoldable pub break_down : ℕ → Option (ℕ × ℕ × ℕ)
break_down days = do
  (year, left) ← year_loop (suc days) 1970 days
  (month, rest) ← month_loop 12 year 0 left
  some (year, month, rest + 1)
