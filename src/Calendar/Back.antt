-- ===== src/Calendar/Back.antt =====
-- The way back: `gregorian_to_jalali` of asoud_erp/services/jalali.py.
use frappe_erp_next.Prelude.{
  ℕ, ◌+◌, ◌-◌, ◌≤◌, ◌≡◌, sym, subst, inl, inr, Bool, true, false, not, Option, some, ltb, leb,
  arith,
}
use frappe_erp_next.Calendar.{
  Date, month_start, year_start, jalali_days, jalali_to_gregorian, ordinal, since, year_before,
  gregorian_to_jalali, year_since, current_jalali_year,
}
use frappe_erp_next.Calendar.Days.{month_and_day-ordinal}
use frappe_erp_next.Calendar.Years.{
  jalali_year_days, jalali_month_lem, date_at, IsDay, within_year, year_cases, start_before,
  to_gregorian, first_day, year_opens, first_day-ordinal,
}

module _ (y m d : ℕ) (v : IsDay y m d) where
  day_ordinal : ordinal (date_at (jalali_days y m d)) + 365 ≡ jalali_days y m d
  day_ordinal =
      let (after, before) =
        within_year (year_start y) (year_start (y + 1)) (month_start m) d v.first_day v.in_year in
      month_and_day-ordinal (jalali_days y m d)
        (start_before y (jalali_days y m d) v.first_year (omega (arith, v.last_year)) after before)

  -- What is left of a year is its month and day.
  since_start :
      since y (date_at (jalali_days y m d)) (some (date_at (first_day y))) ≡ some (y, m, d)
  since_start =
      let gone : ordinal (date_at (jalali_days y m d)) - ordinal (date_at (first_day y))
          ≡ month_start m + d - 1 =
        difference (year_start y) (month_start m) (ordinal (date_at (jalali_days y m d)))
          (ordinal (date_at (first_day y))) day_ordinal (first_day-ordinal y) v.first_day in
      rw (gone, jalali_month_lem m d v.first_month v.last_month v.first_day v.last_day)
    where
      difference : (s o a b : ℕ) → a + 365 ≡ s + d + o → b + 365 ≡ s + 1 → 1 ≤ d → a - b ≡ o + d - 1
      difference s o a b p q f = omega arith

  -- Where the year that is tried is the next one, the date is before its first day; else it is not.
  not_before : ltb (ordinal (date_at (jalali_days y m d))) (ordinal (date_at (first_day y))) ≡ false
  not_before =
      compare_days (year_start y) (month_start m) (ordinal (date_at (jalali_days y m d)))
        (ordinal (date_at (first_day y))) day_ordinal (first_day-ordinal y) v.first_day
    where
      compare_days : (s o a b : ℕ) → a + 365 ≡ s + d + o → b + 365 ≡ s + 1 → 1 ≤ d → ltb a b ≡ false
      compare_days s o a b p q f = ground arith

  before_next :
      ltb (ordinal (date_at (jalali_days y m d))) (ordinal (date_at (first_day (y + 1)))) ≡ true
  before_next =
      let (after, before) =
        within_year (year_start y) (year_start (y + 1)) (month_start m) d v.first_day v.in_year in
      compare_days (year_start (y + 1)) (jalali_days y m d) (ordinal (date_at (jalali_days y m d)))
        (ordinal (date_at (first_day (y + 1)))) day_ordinal (first_day-ordinal (y + 1)) before
    where
      compare_days : (t n a b : ℕ) → a + 365 ≡ n → b + 365 ≡ t + 1 → n ≤ t → ltb a b ≡ true
      compare_days t n a b p q f = ground arith

  abbrev tried : ℕ → Option (ℕ × ℕ × ℕ)
  tried z = year_before z (date_at (jalali_days y m d)) (jalali_to_gregorian z 1 1)

  tried_same : tried y ≡ some (y, m, d)
  tried_same = rw (year_opens y v.first_year (omega (arith, v.last_year)), not_before) since_start

  tried_next : tried (y + 1) ≡ some (y, m, d)
  tried_next =
      let back : y + 1 - 1 ≡ y = omega arith in
      rw
        (
          year_opens (y + 1) (omega arith) (omega (arith, v.last_year)),
          before_next,
          back,
          year_opens y v.first_year (omega (arith, v.last_year)),
        )
        since_start

  abbrev current : ℕ → Option ℕ
  current z = year_since z (date_at (jalali_days y m d)) (jalali_to_gregorian z 1 1)

  leb_of_ltb : (a b : ℕ) (r : Bool) → ltb a b ≡ r → leb b a ≡ not r
  leb_of_ltb a b r h = ground arith

  current_same : current y ≡ some y
  current_same = rw (
    year_opens y v.first_year (omega (arith, v.last_year)),
    leb_of_ltb (ordinal (date_at (jalali_days y m d))) (ordinal (date_at (first_day y))) false
        not_before,
  )

  current_next : current (y + 1) ≡ some y
  current_next =
      let back : y + 1 - 1 ≡ y = omega arith in
      rw (
        year_opens (y + 1) (omega arith) (omega (arith, v.last_year)),
        leb_of_ltb (ordinal (date_at (jalali_days y m d))) (ordinal (date_at (first_day (y + 1))))
            true before_next,
        back,
      )

-- A day of the Solar Hijri years 1 to 9376 has a Gregorian date, the way back from it gives the day,
-- and the current year of the date is its year; the last month has 29 days, or 30 in a leap year.
pub gregorian_to_jalali-jalali_to_gregorian :
    (y m d : ℕ)
    → IsDay y m d
    → (g : Date) × (jalali_to_gregorian y m d ≡ some g)
      × (gregorian_to_jalali g ≡ some (y, m, d))
      × (current_jalali_year g ≡ some y)
unfolding gregorian_to_jalali current_jalali_year
gregorian_to_jalali-jalali_to_gregorian y m d v =
    let (after, before) =
      within_year (year_start y) (year_start (y + 1)) (month_start m) d v.first_day v.in_year in
    (
      date_at (jalali_days y m d),
      to_gregorian y m d v.first_year (omega (arith, v.last_year)) v.first_month v.last_month
          v.first_day v.last_day v.in_year,
      elim (year_cases y (jalali_days y m d) v.first_year (omega (arith, v.last_year)) after
          before) [
            | inl same ↦
                subst (λ (z : ℕ). tried y m d v z ≡ some (y, m, d)) (sym same) (tried_same y m d v)
            | inr next ↦
                subst (λ (z : ℕ). tried y m d v z ≡ some (y, m, d)) (sym next) (tried_next y m d v)
          ],
      elim (year_cases y (jalali_days y m d) v.first_year (omega (arith, v.last_year)) after
          before) [
            | inl same ↦
                subst (λ (z : ℕ). current y m d v z ≡ some y) (sym same) (current_same y m d v)
            | inr next ↦
                subst (λ (z : ℕ). current y m d v z ≡ some y) (sym next) (current_next y m d v)
          ],
    )

-- The code takes day 30 of the last month in every year: without a leap day it is the first day of
-- the next year.
day_too_many :
    (y : ℕ)
    → 1 ≤ y
    → y ≤ 9376
    → jalali_year_days y ≡ 365
    → jalali_to_gregorian y 12 30 ≡ jalali_to_gregorian (y + 1) 1 1
unfolding jalali_to_gregorian
day_too_many y a b h =
    let same : year_start y + 30 + 336 ≡ year_start (y + 1) + 1 + 0 = omega arith in rw same
