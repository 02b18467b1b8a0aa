-- ===== src/Leave/Hours.antt =====
-- asoud_erp/services/leave_hours.py: the duration of an hourly leave. A number of hours is
-- counted in hundredths, a part of a day in ten-thousandths. Quotients are exact: those of `Decimal` have 28 digits, which leave the
-- rounding as it is where the daily hours have fewer than 20.
pub mod Exact
use Prim.Native.Char.{Char, code}
use frappe_erp_next.Prelude.{
  ℕ, zero, suc, ◌+◌, ◌-◌, ◌*◌, ◌/◌, ◌^◌, ◌≤◌, ◌<◌, String, Bool, true, false, not, ◌&&◌, ◌||◌, ◌≡◌,
  Option, none, some, eqb, leb, ltb, List, [], ◌∷◌, if◌then◌else◌,
}
use frappe_erp_next.Prelude.Int.{ℤ, pos, negsuc}
use frappe_erp_next.Prelude.Result.{Result, ok, err, ◌>>=◌, ◌>>◌, raise_if, check_all}
use frappe_erp_next.Python.{Value, str}

pub data LeaveError : Type 0 where
  invalid_time invalid_range too_short exceeds_day day_is_full : LeaveError

-- A decimal number: `units / 10 ^ scale`.
pub record Decimal : Type 0 where
  pub units : ℤ
  pub scale : ℕ

-- A positive one, `units / parts`
pub record Hours : Type 0 where
  pub units : ℕ
  pub parts : ℕ

abbrev pub positive_hours : ℤ → ℕ → Hours
positive_hours (pos (suc n)) scale = record { units = suc n; parts = 10 ^ scale }
positive_hours _ scale = record { units = 8; parts = 1 }

-- `daily_hours_value(value)`; `none` is an empty value or one that is no number
abbrev pub daily_hours_value : Option Decimal → Hours
daily_hours_value none = record { units = 8; parts = 1 }
daily_hours_value (some d) = positive_hours d.units d.scale

-- The nearest number to `a / b`, away from zero where two are as near: `ROUND_HALF_UP`.
unfoldable pub half_up : ℕ → ℕ → ℕ
half_up a b = (2 * a + b) / (2 * b)

-- `hours_from_minutes(minutes)`, in hundredths
abbrev pub hours_from_minutes : ℕ → ℕ
hours_from_minutes minutes = half_up (minutes * 100) 60

-- `day_equivalent(hours, daily_hours)`, in ten-thousandths
abbrev pub day_equivalent : ℕ → Option Decimal → ℕ
day_equivalent hours daily =
    let d = daily_hours_value daily in half_up (hours * d.parts * 10000) (100 * d.units)

-- `ledger_leaves(hours, daily_hours)` is minus this, in millionths.
abbrev pub ledger_leaves : ℕ → Option Decimal → ℕ
ledger_leaves hours daily =
    let d = daily_hours_value daily in half_up (hours * d.parts * 1000000) (100 * d.units)

abbrev is_minute_ten : ℕ → Bool
is_minute_ten d = leb 48 d && leb d 53

abbrev minutes_after : ℕ → Option ℕ → Option ℕ → Result LeaveError ℕ
minutes_after tens (some units) (some last) = ok ((tens + units) * 60 + last)
minutes_after tens _ _ = err invalid_time

abbrev shifted : ℕ → Option ℕ → Option ℕ
shifted tens none = none
shifted tens (some n) = some (tens + n)

module _ (digit : ℕ → Option ℕ) where
  -- `[01]\d|2[0-3]`, then `[0-5]\d`: `digit` has the value of a character that `\d` matches.
  abbrev at_minute : ℕ → ℕ → ℕ → ℕ → Result LeaveError ℕ
  at_minute a b d e =
      if not (is_minute_ten d)
      then err invalid_time
      else if eqb a 48 || eqb a 49
      then minutes_after (10 * (a - 48)) (digit b) (shifted (10 * (d - 48)) (digit e))
      else if eqb a 50 && leb 48 b && leb b 51
      then minutes_after 20 (some (b - 48)) (shifted (10 * (d - 48)) (digit e))
      else err invalid_time

-- `$` also stands before a newline at the end.
abbrev ends_time : String → Bool
ends_time String.[] = true
ends_time (String.◌∷◌ c String.[]) = eqb (code c) 10
ends_time _ = false

-- `parse_hhmm(value)`: minutes since midnight
unfoldable pub parse_hhmm : (ℕ → Option ℕ) → Value → Result LeaveError ℕ
parse_hhmm digit
      (str (String.◌∷◌ a (String.◌∷◌ b (String.◌∷◌ c (String.◌∷◌ d (String.◌∷◌ e rest)))))) =
    if eqb (code c) 58 && ends_time rest
    then at_minute digit (code a) (code b) (code d) (code e)
    else err invalid_time
parse_hhmm digit _ = err invalid_time

pub record Duration : Type 0 where
  pub hours : ℕ
  pub days : ℕ

-- `Decimal(minutes) > daily_hours_value(daily_hours) * 60`
abbrev pub exceeds : ℕ → Hours → Bool
exceeds minutes d = ltb (d.units * 60) (minutes * d.parts)

abbrev pub other_of : ℤ → ℕ
other_of (pos n) = n
other_of (negsuc n) = 0

abbrev pub duration_guards : ℕ → ℕ → Option Decimal → ℤ → List (Bool × LeaveError)
duration_guards start finish daily other =
    (leb finish start, invalid_range)
    ∷ (ltb (finish - start) 15, too_short)
    ∷ (exceeds (finish - start) (daily_hours_value daily), exceeds_day)
    ∷ (exceeds ((finish - start) + other_of other) (daily_hours_value daily), day_is_full)
    ∷ []

abbrev pub duration_of : ℕ → Option Decimal → Duration
duration_of minutes daily = record {
  hours = hours_from_minutes minutes;
  days = day_equivalent (hours_from_minutes minutes) daily;
}

-- `hourly_duration(start_time, end_time, daily_hours, other_minutes)`
unfoldable pub hourly_duration :
    (ℕ → Option ℕ) → Value → Value → Option Decimal → ℤ → Result LeaveError Duration
hourly_duration digit start_time end_time daily other = do
  start ← parse_hhmm digit start_time
  finish ← parse_hhmm digit end_time
  check_all (duration_guards start finish daily other)
  ok (duration_of (finish - start) daily)

-- `minutes_overlap(start_a, end_a, start_b, end_b)`
abbrev pub minutes_overlap : ℕ → ℕ → ℕ → ℕ → Bool
minutes_overlap start_a end_a start_b end_b = ltb start_a end_b && ltb start_b end_a
