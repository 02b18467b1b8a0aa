-- ===== src/Calendar/Days.antt =====
-- The ordinal of the Gregorian date that asoud_erp/services/jalali.py finds.
use frappe_erp_next.Prelude.{
  ℕ, zero, suc, ◌+◌, ◌-◌, ◌*◌, ◌/◌, ◌≤◌, ◌<◌, ◌≡◌, Bool, true, false, arith, if◌then◌else◌,
}
use frappe_erp_next.Calendar.{
  leap, lengths, month_loop, year_and_days, month_and_day, days_before_year, sum_first, ordinal,
}

-- The days before a year, with the year 0, which is a leap year.
abbrev pub days_before : ℕ → ℕ
days_before y = 365 * y + (y + 3) / 4 + (y + 399) / 400 - (y + 99) / 100

abbrev pub year_length : ℕ → ℕ
year_length y = if leap y then 366 else 365

pub year_and_days_lem : (n : ℕ) → days_before (year_and_days n).0 + (year_and_days n).1 ≡ n
unfolding year_and_days
year_and_days_lem n = ground arith

pub year_and_days-lt : (n : ℕ) → (year_and_days n).1 < year_length (year_and_days n).0
unfolding year_and_days
year_and_days-lt n = ground arith

-- The loop over the months finds the month and the day.
month_sum :
    (b : Bool) (days : ℕ)
    → days < (if b then 366 else 365)
    → (sum_first ((month_loop (lengths b) 1 (days + 1)).0 - 1) (lengths b)
          + (month_loop (lengths b) 1 (days + 1)).1
        ≡ days + 1)
unfolding month_loop
month_sum true days h = ground arith
month_sum false days h = ground arith

years_before : (y : ℕ) → 1 ≤ y → days_before_year y + 366 ≡ days_before y
years_before y h = omega arith

-- The ordinal of a date counts the days from the year 1 on.
ordinal_lem :
    (y days n : ℕ)
    → days_before y + days ≡ n
    → days < year_length y
    → 366 ≤ n
    → ordinal (month_and_day (y, days)) + 365 ≡ n
unfolding ordinal
ordinal_lem y days n e l h =
    let positive : 1 ≤ y = year_pos y days n e l h in
    omega (arith, years_before y positive, month_sum (leap y) days l)
  where
    year_pos : (y days n : ℕ) → days_before y + days ≡ n → days < year_length y → 366 ≤ n → 1 ≤ y
    year_pos zero days n e l h = absurd (omega arith)
    year_pos (suc y) days n e l h = omega arith

pub month_and_day-ordinal : (n : ℕ) → 366 ≤ n → ordinal (month_and_day (year_and_days n)) + 365 ≡ n
month_and_day-ordinal n h =
    ordinal_lem (year_and_days n).0 (year_and_days n).1 n (year_and_days_lem n) (year_and_days-lt n)
      h
