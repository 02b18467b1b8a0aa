-- ===== src/Form/Tests.antt =====
-- Dates and clocks at concrete values.
use frappe_erp_next.Prelude.{String, ◌≡◌, refl, Bool, true, some, eqb}
use frappe_erp_next.Prelude.Result.{ok}
use frappe_erp_next.Python.{Fields, bool, str, end, field, len, strip}
use frappe_erp_next.Form.Period.{Range, bad_clock, date_range}
use frappe_erp_next.Form.Clock.{clock_minutes}

-- Every text of ten characters is taken as a date here.
abbrev any_date : String → Bool
any_date s = eqb (len s) 10

abbrev leave : Fields
leave = field "from_date" (str "2026-03-01") (
    field "to_date" (str "2026-03-04")
      (field "half_day" (bool true) (field "half_day_date" (str "2026-03-02") end)))

abbrev range : Range
range = record {
  first = "2026-03-01";
  last = "2026-03-04";
  half = true;
  half_day = some "2026-03-02";
}

taken_leave : date_range any_date leave ≡ ok range
unfolding date_range strip
taken_leave = refl

half_past_eight : clock_minutes (str "08:30") bad_clock ≡ ok 510
unfolding clock_minutes
half_past_eight = refl
