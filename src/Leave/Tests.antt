-- ===== src/Leave/Tests.antt =====
-- A morning of two hours and a half, in a day of eight hours.
use frappe_erp_next.Prelude.{
  ℕ, ◌+◌, ◌-◌, ◌*◌, ◌≤◌, ◌<◌, ◌&&◌, ◌≡◌, refl, Option, none, some, leb, if◌then◌else◌,
}
use frappe_erp_next.Prelude.Int.{pos}
use frappe_erp_next.Prelude.Result.{ok, err}
use frappe_erp_next.Python.{str}
use frappe_erp_next.Leave.Hours.{Duration, parse_hhmm, half_up, hourly_duration, invalid_time}
use frappe_erp_next.Leave.Hours.Exact.{Accepted, hourly_duration-Accepted, hourly_duration-quarters}

abbrev latin : ℕ → Option ℕ
latin c = if leb 48 c && leb c 57 then some (c - 48) else none

abbrev morning : Duration
morning = record { hours = 250; days = 3125 }

takes_morning : hourly_duration latin (str "09:00") (str "11:30") none (pos 0) ≡ ok morning
unfolding hourly_duration parse_hhmm half_up
takes_morning = refl

-- 7.6667 hours are 460 minutes; the hours that are stored, 7.67, are a little more than that day.
above_one_day :
    hourly_duration latin
      (str "08:00")
      (str "15:40")
      (some (record { units = pos 76667; scale = 4 }))
      (pos 0)
    ≡ ok (record { hours = 767; days = 10004 })
unfolding hourly_duration parse_hhmm half_up
above_one_day = refl

no_such_time : hourly_duration latin (str "24:00") (str "11:30") none (pos 0) ≡ err invalid_time
unfolding hourly_duration parse_hhmm half_up
no_such_time = refl

hourly_duration-Accepted_example :
    (start finish : ℕ) × (parse_hhmm latin (str "09:00") ≡ ok start)
    × (parse_hhmm latin (str "11:30") ≡ ok finish)
    × Accepted start finish none (pos 0)
    × (120 * 250 ≤ 200 * (finish - start) + 60)
    × (200 * (finish - start) < 120 * 250 + 60)
hourly_duration-Accepted_example =
    hourly_duration-Accepted latin (str "09:00") (str "11:30") none (pos 0) takes_morning

nine : parse_hhmm latin (str "09:00") ≡ ok 540
unfolding parse_hhmm
nine = refl

half_past_eleven : parse_hhmm latin (str "11:30") ≡ ok (540 + 15 * 10)
unfolding parse_hhmm
half_past_eleven = refl

hourly_duration-quarters_example : (250 ≡ 25 * 10) × (3125 ≤ 10000)
hourly_duration-quarters_example =
    hourly_duration-quarters latin (str "09:00") (str "11:30") none (pos 0) 540 10 takes_morning
      nine half_past_eleven
