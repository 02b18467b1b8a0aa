-- ===== src/Calendar/Years.antt =====
-- The years of the two calendars, and the first day of a Solar Hijri year, in
-- asoud_erp/services/jalali.py.
use frappe_erp_next.Prelude.{
  ℕ, ◌+◌, ◌-◌, ◌≤◌, ◌<◌, ◌≡◌, ◌∙◌, ◌⊎◌, inl, inr, true, ◌&&◌, some, leb, arith,
}
use frappe_erp_next.Calendar.{
  Date, year_and_days, month_and_day, date_of, month_days, month_start, year_start, jalali_days,
  jalali_to_gregorian, ordinal, jalali_month,
}
use frappe_erp_next.Calendar.Days.{
  days_before, year_length, year_and_days_lem, year_and_days-lt, month_and_day-ordinal,
}

-- The days of the Solar Hijri year: the last month has 30 days in a leap year.
abbrev pub jalali_year_days : ℕ → ℕ
jalali_year_days y = year_start (y + 1) - year_start y

pub jalali_year_days_cases : (y : ℕ) → (jalali_year_days y ≡ 365) ⊎ (jalali_year_days y ≡ 366)
jalali_year_days_cases y = ground arith

-- The Gregorian year of a day of the Solar Hijri year.
pub year_from :
    (y g days n : ℕ)
    → days_before g + days ≡ n
    → year_start y < n
    → y ≤ 9377
    → 1 ≤ y
    → days < 366
    → y + 621 ≤ g
year_from y g days n e after high low l = omega arith

pub year_to :
    (y g days n : ℕ)
    → days_before g + days ≡ n
    → n ≤ year_start (y + 1)
    → y ≤ 9377
    → 1 ≤ y
    → g ≤ y + 622
year_to y g days n e before high low = omega arith

-- The loop over the months of the Solar Hijri year.
pub jalali_month_lem :
    (m d : ℕ)
    → 1 ≤ m
    → m ≤ 12
    → 1 ≤ d
    → d ≤ month_days m
    → jalali_month 11 1 (month_start m + d - 1) ≡ (m, d)
unfolding jalali_month
jalali_month_lem m d a b c e = ground arith

abbrev pub date_at : ℕ → Date
date_at n = month_and_day (year_and_days n)

-- A day of the year in question.
pub record IsDay (y m d : ℕ) : Type 0 where
  pub first_year : 1 ≤ y
  pub last_year : y ≤ 9376
  pub first_month : 1 ≤ m
  pub last_month : m ≤ 12
  pub first_day : 1 ≤ d
  pub last_day : d ≤ month_days m
  pub in_year : month_start m + d ≤ jalali_year_days y

pub within_year : (s t o d : ℕ) → 1 ≤ d → o + d ≤ t - s → (s < s + d + o) × (s + d + o ≤ t)
within_year s t o d a b = (omega arith, omega arith)

pub date_of-some : (g : Date) → 1 ≤ g.year → g.year ≤ 9999 → date_of g ≡ some g
date_of-some g a b = ground arith

pub year_length-le : (y : ℕ) → year_length y ≤ 366
year_length-le y = ground arith

module _ (y n : ℕ) (low : 1 ≤ y) (high : y ≤ 9377) (after : year_start y < n)
    (before : n ≤ year_start (y + 1)) where
  pub year_range : (y + 621 ≤ (year_and_days n).0) × ((year_and_days n).0 ≤ y + 622)
  year_range =
      let e = year_and_days_lem n in
      let short : (year_and_days n).1 < 366 =
        omega (arith, year_and_days-lt n, year_length-le (year_and_days n).0) in
      (
        year_from y (year_and_days n).0 (year_and_days n).1 n e after high low short,
        year_to y (year_and_days n).0 (year_and_days n).1 n e before high low,
      )

  pub year_cases : ((year_and_days n).0 - 621 ≡ y) ⊎ ((year_and_days n).0 - 621 ≡ y + 1)
  year_cases = one_of_two (year_and_days n).0 year_range.0 year_range.1
    where
      one_of_two : (g : ℕ) → y + 621 ≤ g → g ≤ y + 622 → (g - 621 ≡ y) ⊎ (g - 621 ≡ y + 1)
      one_of_two g a b = ground arith

  pub in_range : date_of (date_at n) ≡ some (date_at n)
  in_range = date_of-some (date_at n) (omega (arith, year_range.0)) (omega (arith, year_range.1))

  pub start_before : 366 ≤ n
  start_before = omega arith

pub to_gregorian :
    (y m d : ℕ)
    → 1 ≤ y
    → y ≤ 9377
    → 1 ≤ m
    → m ≤ 12
    → 1 ≤ d
    → d ≤ month_days m
    → month_start m + d ≤ jalali_year_days y
    → jalali_to_gregorian y m d ≡ some (date_at (jalali_days y m d))
unfolding jalali_to_gregorian
to_gregorian y m d a b c e f g h =
    let p : (leb 1 m && leb m 12) ≡ true = ground arith in
    let q : (leb 1 d && leb d (month_days m)) ≡ true = ground arith in
    let (after, before) = within_year (year_start y) (year_start (y + 1)) (month_start m) d f h in
    rw (p, q) (in_range y (jalali_days y m d) a b after before)

pub first_day : ℕ → ℕ
first_day y = jalali_days y 1 1

pub first_day_lem : (y : ℕ) → first_day y ≡ year_start y + 1
unfolding first_day
first_day_lem y = omega arith

pub long_year : (y : ℕ) → month_start 1 + 1 ≤ jalali_year_days y
long_year y = elim (jalali_year_days_cases y) [
  | inl e ↦ rw e (omega arith)
  | inr e ↦ rw e (omega arith)
]

pub year_opens :
    (y : ℕ) → 1 ≤ y → y ≤ 9377 → jalali_to_gregorian y 1 1 ≡ some (date_at (first_day y))
unfolding first_day
year_opens y a b =
    to_gregorian y 1 1 a b (omega arith) (omega arith) (omega arith) (omega arith) (long_year y)

pub first_day-ordinal : (y : ℕ) → ordinal (date_at (first_day y)) + 365 ≡ year_start y + 1
first_day-ordinal y =
    month_and_day-ordinal (first_day y) (omega (arith, first_day_lem y)) ∙ first_day_lem y
