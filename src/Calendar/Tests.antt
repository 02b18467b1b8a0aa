-- ===== src/Calendar/Tests.antt =====
-- Dates of the two calendars.
use frappe_erp_next.Prelude.{◌≡◌, refl, some, arith}
use frappe_erp_next.Calendar.{
  Date, month_loop, year_and_days, jalali_to_gregorian, ordinal, jalali_month, gregorian_to_jalali,
  current_jalali_year,
}
use frappe_erp_next.Calendar.Back.{gregorian_to_jalali-jalali_to_gregorian}

new_year : jalali_to_gregorian 1403 1 1 ≡ some (record { year = 2024; month = 3; day = 20 })
unfolding jalali_to_gregorian year_and_days month_loop
new_year = refl

leap_day : jalali_to_gregorian 1403 12 30 ≡ some (record { year = 2025; month = 3; day = 20 })
unfolding jalali_to_gregorian year_and_days month_loop
leap_day = refl

-- The year 1402 has no such day.
no_leap_day : jalali_to_gregorian 1402 12 30 ≡ some (record { year = 2024; month = 3; day = 20 })
unfolding jalali_to_gregorian year_and_days month_loop
no_leap_day = refl

way_back : gregorian_to_jalali (record { year = 2025; month = 3; day = 20 }) ≡ some (1403, 12, 30)
unfolding gregorian_to_jalali jalali_to_gregorian year_and_days month_loop ordinal jalali_month
way_back = refl

gregorian_to_jalali-jalali_to_gregorian_example :
    (g : Date) × (jalali_to_gregorian 1403 12 30 ≡ some g)
    × (gregorian_to_jalali g ≡ some (1403, 12, 30))
    × (current_jalali_year g ≡ some 1403)
gregorian_to_jalali-jalali_to_gregorian_example =
    gregorian_to_jalali-jalali_to_gregorian 1403 12 30 (record {
      first_year = omega arith;
      last_year = omega arith;
      first_month = omega arith;
      last_month = omega arith;
      first_day = omega arith;
      last_day = omega arith;
      in_year = omega arith;
    })
