-- ===== src/Form/Clock.antt =====
-- `clock_minutes` of asoud_erp/services/form_execution/period.py.
use Prim.Native.Char.{Char, code}
use Prim.Native.Nat.{◌-◌}
use frappe_erp_next.Prelude.{
  ℕ, ◌+◌, ◌*◌, ◌<◌, String, ◌≡◌, Bool, ◌&&◌, ◌||◌, Option, none, some, eqb, leb, ltb, arith,
  if◌then◌else◌,
}
use frappe_erp_next.Prelude.Result.{Result, ok, err}
use frappe_erp_next.Python.{Value, str}
use frappe_erp_next.Form.Period.{PeriodError}

-- `[0-9]`
abbrev is_digit : ℕ → Bool
is_digit c = leb 48 c && leb c 57

-- `int` of two digits
abbrev two_digits : Char → Char → Option ℕ
two_digits a b =
    if is_digit (code a) && is_digit (code b)
    then some (10 * (code a - 48) + (code b - 48))
    else none

abbrev clock_parts : Option ℕ → Option ℕ → Option ℕ → Option (ℕ × ℕ × ℕ)
clock_parts (some h) (some m) (some s) = some (h, m, s)
clock_parts _ _ _ = none

abbrev is_colon : Char → Bool
is_colon c = eqb (code c) 58

-- `(:[0-9]{2})?` and the end; no seconds count as 0
abbrev seconds_of : String → Option ℕ
seconds_of String.[] = some 0
seconds_of (String.◌∷◌ a (String.◌∷◌ b (String.◌∷◌ c String.[]))) =
    if is_colon a then two_digits b c else none
seconds_of _ = none

-- `CLOCK.fullmatch(value)` and its numbers
abbrev clock_of : String → Option (ℕ × ℕ × ℕ)
clock_of (String.◌∷◌ a (String.◌∷◌ b (String.◌∷◌ c (String.◌∷◌ d (String.◌∷◌ e rest))))) =
    if is_colon c then clock_parts (two_digits a b) (two_digits d e) (seconds_of rest) else none
clock_of _ = none

abbrev minutes_of : Option (ℕ × ℕ × ℕ) → PeriodError → Result PeriodError ℕ
minutes_of none message = err message
minutes_of (some (hours, minutes, seconds)) message =
    if ltb 23 hours || ltb 59 minutes || ltb 59 seconds
    then err message
    else ok (hours * 60 + minutes)

-- `clock_minutes(value, message)`
unfoldable pub clock_minutes : Value → PeriodError → Result PeriodError ℕ
clock_minutes (str s) message = minutes_of (clock_of s) message
clock_minutes _ message = err message

minutes_of-lt :
    (parts : Option (ℕ × ℕ × ℕ)) (message : PeriodError) {n : ℕ}
    → minutes_of parts message ≡ ok n
    → n < 1440
minutes_of-lt none message h = cc
minutes_of-lt (some (hours, minutes, seconds)) message h = ground arith

-- A clock that is accepted stands for a minute of the day.
pub clock_minutes-lt :
    (value : Value) (message : PeriodError) {n : ℕ} → clock_minutes value message ≡ ok n → n < 1440
unfolding clock_minutes
clock_minutes-lt (str s) message h = minutes_of-lt (clock_of s) message h
clock_minutes-lt _ message h = cc
