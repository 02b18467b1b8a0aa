-- ===== src/Calendar.antt =====
-- asoud_erp/services/jalali.py: Solar Hijri dates and Gregorian dates. Dates of Python are compared
-- and subtracted by their ordinals. Years are not negative, so Gregorian years before 622 are outside
-- of the model of the way back; `none` where the code raises.
pub mod Days
pub mod Years
pub mod Back
mod Tests
use frappe_erp_next.Prelude.{
  ℕ, zero, suc, ◌+◌, ◌-◌, ◌*◌, ◌/◌, ◌%◌, Bool, true, false, not, ◌&&◌, ◌||◌, Option, none, some,
  List, [], ◌∷◌, eqb, ltb, leb, if◌then◌else◌,
}

-- Python's `date`.
pub record Date : Type 0 where
  pub year : ℕ
  pub month : ℕ
  pub day : ℕ

-- `year % 4 == 0 and (year % 100 != 0 or year % 400 == 0)`
abbrev pub leap : ℕ → Bool
leap y = eqb (y % 4) 0 && (not (eqb (y % 100) 0) || eqb (y % 400) 0)

abbrev pub february : Bool → ℕ
february true = 29
february false = 28

abbrev pub lengths : Bool → List ℕ
lengths b = 31 ∷ february b ∷ 31 ∷ 30 ∷ 31 ∷ 30 ∷ 31 ∷ 31 ∷ 30 ∷ 31 ∷ 30 ∷ 31 ∷ []

-- `for length in lengths: if gd <= length: break; gd -= length; gm += 1`
unfoldable pub month_loop : List ℕ → ℕ → ℕ → ℕ × ℕ
month_loop [] gm gd = (gm, gd)
month_loop (n ∷ ns) gm gd =
    let rest = month_loop ns (suc gm) (gd - n) in if leb gd n then (gm, gd) else rest

-- The year, and the days of it that are over.
abbrev pub last_years : ℕ → ℕ → ℕ × ℕ
last_years gy days = if ltb 365 days then (gy + (days - 1) / 365, (days - 1) % 365) else (gy, days)

abbrev pub four_years : ℕ → ℕ → ℕ × ℕ
four_years gy days = last_years (gy + 4 * (days / 1461)) (days % 1461)

abbrev pub centuries : ℕ → ℕ → ℕ × ℕ
centuries gy days =
    if ltb 36524 days
    then four_years (gy + 100 * ((days - 1) / 36524))
        (if leb 365 ((days - 1) % 36524) then (days - 1) % 36524 + 1 else (days - 1) % 36524)
    else four_years gy days

unfoldable pub year_and_days : ℕ → ℕ × ℕ
year_and_days days = centuries (400 * (days / 146097)) (days % 146097)

abbrev pub month_and_day : ℕ × ℕ → Date
month_and_day (gy, days) =
    let (gm, gd) = month_loop (lengths (leap gy)) 1 (days + 1) in
    record { year = gy; month = gm; day = gd }

abbrev pub month_days : ℕ → ℕ
month_days m = if leb m 6 then 31 else 30

-- The days before a month of the Solar Hijri year.
abbrev pub month_start : ℕ → ℕ
month_start m = if ltb m 7 then (m - 1) * 31 else (m - 7) * 30 + 186

-- `days` before the Gregorian year is looked for; nothing is cut off, as `365 * 1595` is greater.
abbrev pub year_start : ℕ → ℕ
year_start y = 365 * (y + 1595) + (y + 1595) / 33 * 8 + ((y + 1595) % 33 + 3) / 4 - 355668

abbrev pub jalali_days : ℕ → ℕ → ℕ → ℕ
jalali_days y m d = year_start y + d + month_start m

-- `date(gy, gm, gd)`, of a month and a day that the calendar has
abbrev pub date_of : Date → Option Date
date_of g = if leb 1 g.year && leb g.year 9999 then some g else none

-- `jalali_to_gregorian(year, month, day)`
unfoldable pub jalali_to_gregorian : ℕ → ℕ → ℕ → Option Date
jalali_to_gregorian y m d =
    if not (leb 1 m && leb m 12) || not (leb 1 d && leb d (month_days m))
    then none
    else date_of (month_and_day (year_and_days (jalali_days y m d)))

-- Python's `date.toordinal`.
abbrev pub days_before_year : ℕ → ℕ
days_before_year y = 365 * (y - 1) + (y - 1) / 4 - (y - 1) / 100 + (y - 1) / 400

abbrev pub sum_first : ℕ → List ℕ → ℕ
sum_first zero ns = 0
sum_first (suc k) [] = 0
sum_first (suc k) (n ∷ ns) = n + sum_first k ns

unfoldable pub ordinal : Date → ℕ
ordinal g = days_before_year g.year + sum_first (g.month - 1) (lengths (leap g.year)) + g.day

-- The loop over the months of the Solar Hijri year; `months` are left after this one.
unfoldable pub jalali_month : ℕ → ℕ → ℕ → ℕ × ℕ
jalali_month zero month days = (month, days + 1)
jalali_month (suc months) month days =
    let rest = jalali_month months (suc month) (days - month_days month) in
    if ltb days (month_days month) then (month, days + 1) else rest

abbrev pub since : ℕ → Date → Option Date → Option (ℕ × ℕ × ℕ)
since y value none = none
since y value (some start) =
    let (m, d) = jalali_month 11 1 (ordinal value - ordinal start) in some (y, m, d)

abbrev pub year_before : ℕ → Date → Option Date → Option (ℕ × ℕ × ℕ)
year_before y value none = none
year_before y value (some start) =
    if ltb (ordinal value) (ordinal start)
    then since (y - 1) value (jalali_to_gregorian (y - 1) 1 1)
    else since y value (some start)

-- `gregorian_to_jalali(value)`
unfoldable pub gregorian_to_jalali : Date → Option (ℕ × ℕ × ℕ)
gregorian_to_jalali value =
    year_before (value.year - 621) value (jalali_to_gregorian (value.year - 621) 1 1)

abbrev pub year_since : ℕ → Date → Option Date → Option ℕ
year_since candidate value none = none
year_since candidate value (some start) =
    some (if leb (ordinal start) (ordinal value) then candidate else candidate - 1)

-- `current_jalali_year(today)`
unfoldable pub current_jalali_year : Date → Option ℕ
current_jalali_year value =
    year_since (value.year - 621) value (jalali_to_gregorian (value.year - 621) 1 1)
