-- ===== src/Date/Calendar.antt =====
-- src/native/native_date.c: a count of days broken down to a date counts back to it.
use cscript.Prelude.{
  fetch_some, ℕ, zero, suc, ◌+◌, ◌-◌, ◌*◌, ◌^◌, ◌/◌, ◌%◌, ◌<◌, ◌≤◌, ◌≡◌, refl, ap, ◌∙◌, arith,
  false, ◌&&◌, inl, inr, Bool-cases, ltb, leb, ◌==◌, if◌then◌else◌, Option, none, some, ltb→lt,
  leb→le,
}
use mathlib.Core.Path.{subst}
use cscript.Date.{
  is_leap, month_days, days_in_month, days_in_year, days_from_one, days_before_year,
  days_before_month, days_from_civil, year_loop, month_loop, break_down,
}

fourth : (z : ℕ) → suc z / 4 ≡ z / 4 + (if suc z % 4 == 0 then 1 else 0)
fourth z = ground arith

century : (z : ℕ) → suc z / 100 ≡ z / 100 + (if suc z % 100 == 0 then 1 else 0)
century z = ground arith

cycle : (z : ℕ) → suc z / 400 ≡ z / 400 + (if suc z % 400 == 0 then 1 else 0)
cycle z = ground arith

days_from_one-suc : (z : ℕ) → days_from_one (suc z) ≡ days_from_one z + days_in_year (suc z)
days_from_one-suc z = ground (arith, fourth z, century z, cycle z)

since_epoch : (k : ℕ) → days_from_one 1969 ≤ days_from_one (k + 1969)
since_epoch zero = omega arith
since_epoch (suc k) =
    let step : days_from_one (suc k + 1969)
        ≡ days_from_one (k + 1969) + days_in_year (suc (k + 1969)) =
      ap days_from_one (omega arith) ∙ days_from_one-suc (k + 1969) in
    omega (arith, since_epoch k, step)

days_before_year-suc :
    (y : ℕ) → 1970 ≤ y → days_before_year (y + 1) ≡ days_before_year y + days_in_year y
unfolding days_before_year
days_before_year-suc y h =
    let z = y - 1 in
    let next : y + 1 - 1 ≡ suc z = omega (arith, h) in
    let this : suc z ≡ y = omega (arith, h) in
    let old : days_from_one 1969 ≤ days_from_one z =
      subst (λ n. days_from_one 1969 ≤ days_from_one n) (omega (arith, h))
        (since_epoch (z - 1969)) in
    let step : days_from_one (y + 1 - 1) ≡ days_from_one z + days_in_year y =
      ap days_from_one next
      ∙ (days_from_one-suc z ∙ ap (λ n. days_from_one z + days_in_year n) this) in
    apart (days_from_one (y + 1 - 1)) (days_from_one z) (days_in_year y) step old
  where
    apart : (a b c : ℕ) → a ≡ b + c → 719162 ≤ b → a - 719162 ≡ b - 719162 + c
    apart a b c e l = omega (arith, e, l)

-- The year of a count of days, and the days of it that have passed.
record IsYear (first days : ℕ) (r : ℕ × ℕ) : Type 0 where
  pub slow : r.0 * 365 ≤ first * 365 + days
  pub epoch : 1970 ≤ r.0
  pub inside : r.1 < days_in_year r.0
  pub counted : days_before_year r.0 + r.1 ≡ days_before_year first + days

year_positive : (y : ℕ) → 365 ≤ days_in_year y
year_positive y = ground arith

year_loop-IsYear :
    (fuel year days : ℕ)
    → 1970 ≤ year
    → days < fuel
    → (r : ℕ × ℕ) × (year_loop fuel year days ≡ some r) × IsYear year days r
unfolding year_loop
year_loop-IsYear zero year days h l = absurd (omega arith)
year_loop-IsYear (suc fuel) year days h l = elim (Bool-cases (ltb days (days_in_year year))) [
  | inl e ↦ (
    (year, days),
    rw e,
    record { slow = omega arith; epoch = h; inside = ltb→lt _ _ e; counted = refl },
  )
  | inr e ↦
      let long : days_in_year year ≤ days = not_ltb days (days_in_year year) e in
      let (r, run, y) =
        year_loop-IsYear fuel (year + 1) (days - days_in_year year) (omega (arith, h))
          (omega (arith, long, l, year_positive year)) in
      (
        r,
        rw e run,
        record {
          slow = omega (arith, y.slow, long, year_positive year);
          epoch = y.epoch;
          inside = y.inside;
          counted =
              y.counted
              ∙ (ap (λ n. n + (days - days_in_year year)) (days_before_year-suc year h)
                  ∙ apart (days_before_year year) (days_in_year year) days long);
        },
      )
]
  where
    not_ltb : (a b : ℕ) → ltb a b ≡ false → b ≤ a
    not_ltb a b e = ground (arith, e)

    apart : (a b c : ℕ) → b ≤ c → a + b + (c - b) ≡ a + c
    apart a b c h = omega (arith, h)

days_in_month-some : (year m : ℕ) → m < 12 → (n : ℕ) × (days_in_month year m ≡ some n)
unfolding days_in_month
days_in_month-some year m h = elim (Bool-cases ((m == 1) && is_leap year)) [
  | inl e ↦ (29, rw e)
  | inr e ↦ let (n, run) = fetch_some month_days m h in (n, rw e run)
]

abbrev value : Option ℕ → ℕ
value none = 0
value (some n) = n

-- The days of `k` months from one on.
abbrev days_left : ℕ → ℕ → ℕ → ℕ
days_left year zero m = 0
days_left year (suc k) m = value (days_in_month year m) + days_left year k (suc m)

-- The months of a year make up the year.
days_left-year : (year : ℕ) → days_left year 12 0 ≡ days_in_year year
unfolding days_in_month
days_left-year year = elim (Bool-cases (is_leap year)) [ inl e ↦ rw e | inr e ↦ rw e ]

-- The month of a count of days of a year, and the days of it that have passed.
record IsMonth (year days : ℕ) (r : ℕ × ℕ) : Type 0 where
  pub month : r.0 < 12
  pub counted : (b : ℕ) × (days_before_month year r.0 ≡ some b) × (b + r.1 ≡ days)
  pub inside : (n : ℕ) × (days_in_month year r.0 ≡ some n) × (r.1 < n)

month_loop-IsMonth :
    (fuel year m days passed : ℕ)
    → m + fuel ≡ 12
    → days_before_month year m ≡ some passed
    → days < days_left year fuel m
    → (r : ℕ × ℕ) × (month_loop fuel year m days ≡ some r) × IsMonth year (passed + days) r
unfolding month_loop days_before_month
month_loop-IsMonth zero year m days passed e b l = absurd (omega arith)
month_loop-IsMonth (suc fuel) year m days passed e b l =
    let (n, run) = days_in_month-some year m (omega (arith, e)) in
    elim (Bool-cases (leb n days)) [
      | inr here ↦ (
        (m, days),
        rw (run, here),
        record {
          month = omega (arith, e);
          counted = (passed, b, refl);
          inside = (n, run, not_leb n days here);
        },
      )
      | inl further ↦
          let more : n ≤ days = leb→le n days further in
          let left : days_left year (suc fuel) m ≡ n + days_left year fuel (suc m) =
            ap (λ o. value o + days_left year fuel (suc m)) run in
          let (r, run', month) =
            month_loop-IsMonth fuel year (suc m) (days - n) (passed + n) (omega (arith, e))
              (rw (b, run)) (omega (arith, l, left, more)) in
          (
            r,
            rw (run, further) (ap (λ k. month_loop fuel year k (days - n)) (omega arith) ∙ run'),
            subst (λ d. IsMonth year d r) (omega (arith, more)) month,
          )
    ]
  where
    not_leb : (a b : ℕ) → leb a b ≡ false → b < a
    not_leb a b e = ground (arith, e)

-- A date of the calendar, from the epoch on.
pub record IsDate (r : ℕ × ℕ × ℕ) : Type 0 where
  pub epoch : 1970 ≤ r.0
  pub fits : r.0 < 2 ^ 31
  pub month : r.1 < 12
  pub day : (n : ℕ) × (days_in_month r.0 r.1 ≡ some n) × (1 ≤ r.2) × (r.2 ≤ n)

before_epoch : days_before_year 1970 ≡ 0
unfolding days_before_year
before_epoch = refl

-- For every count of days from the epoch on that is below the last for which the year is an `int`, the
-- loops of `breakDown` end within the table of months, with a date of the calendar whose year is an `int`,
-- and `daysFromCivil` of that date is the count.
pub days_from_civil-break_down :
    (days : ℕ)
    → days < (2 ^ 31 - 1970) * 365
    → (r : ℕ × ℕ × ℕ) × (break_down days ≡ some r)
      × IsDate r
      × (days_from_civil r.0 r.1 r.2 ≡ some days)
unfolding break_down days_from_civil days_before_month
days_from_civil-break_down days room =
    let (y, run, year) = year_loop-IsYear (suc days) 1970 days (omega arith) (omega arith) in
    let (m, run', month) =
      month_loop-IsMonth 12 y.0 0 y.1 0 refl refl
        (omega (arith, days_left-year y.0, year.inside)) in
    let (b, before, counted) = month.counted in
    let (n, size, inside) = month.inside in
    (
      (y.0, m.0, m.1 + 1),
      rw (run, run'),
      record {
        epoch = year.epoch;
        fits = omega (arith, room, year.slow);
        month = month.month;
        day = (n, size, omega arith, omega (arith, inside));
      },
      rw before (ap some (omega (arith, counted, year.counted, before_epoch))),
    )
