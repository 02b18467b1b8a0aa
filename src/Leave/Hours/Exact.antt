-- ===== src/Leave/Hours/Exact.antt =====
-- What an accepted hourly leave counts.
use native.Mathlib.Nat.{div-lt_iff_lt-mul}
use frappe_erp_next.Prelude.{
  ℕ, zero, suc, ◌+◌, ◌-◌, ◌*◌, ◌/◌, ◌≤◌, ◌<◌, ◌≡◌, sym, ap, ◌∙◌, subst, Option, none, some, arith,
}
use frappe_erp_next.Prelude.Int.{ℤ, pos, negsuc}
use frappe_erp_next.Prelude.Result.{ok, check_all, check_all-AllPass, >>=-eq-ok, >>-eq-ok, ok_eq}
use frappe_erp_next.Python.{Value}
use frappe_erp_next.Leave.Hours.{
  Decimal, Duration, positive_hours, daily_hours_value, half_up, hours_from_minutes, day_equivalent,
  parse_hhmm, other_of, duration_guards, duration_of, hourly_duration,
}

-- The daily hours are positive.
positive_lem : (z : ℤ) (scale : ℕ) → 1 ≤ (positive_hours z scale).units
positive_lem (pos (suc n)) scale = omega arith
positive_lem (pos zero) scale = omega arith
positive_lem (negsuc n) scale = omega arith

daily_lem : (daily : Option Decimal) → 1 ≤ (daily_hours_value daily).units
daily_lem none = omega arith
daily_lem (some d) = positive_lem d.units d.scale

-- The hours are the minutes to the nearest hundredth, and exact for quarters.
near :
    (m : ℕ)
    → (120 * hours_from_minutes m ≤ 200 * m + 60) × (200 * m < 120 * hours_from_minutes m + 60)
unfolding half_up
near m = (omega arith, omega arith)

quarters : (k : ℕ) → hours_from_minutes (15 * k) ≡ 25 * k
unfolding half_up
quarters k = omega arith

-- What rounds is at most a whole where its quotient is.
half_up_whole : (a b w : ℕ) → 1 ≤ b → a ≤ w * b → half_up a b ≤ w
unfolding half_up
half_up_whole a b w h le =
    let below : (2 * a + b) / (2 * b) < w + 1 = (div-lt_iff_lt-mul (grind arith)).1 (grind arith) in
    omega arith

-- What the guards of an accepted duration say.
abbrev pub Accepted : ℕ → ℕ → Option Decimal → ℤ → Type 0
Accepted start finish daily other =
    (start + 15 ≤ finish)
    × ((finish - start) * (daily_hours_value daily).parts ≤ (daily_hours_value daily).units * 60)
    × ((finish - start + other_of other) * (daily_hours_value daily).parts
        ≤ (daily_hours_value daily).units * 60)

guards_lem :
    (start finish : ℕ) (daily : Option Decimal) (other : ℤ)
    → check_all (duration_guards start finish daily other) ≡ ok tt
    → Accepted start finish daily other
guards_lem start finish daily other h =
    let (a, (b, (c, (d, _)))) = check_all-AllPass (duration_guards start finish daily other) h in
    (ground arith, ground arith, ground arith)

-- An accepted leave, with its two times.
abbrev Times : (ℕ → Option ℕ) → Value → Value → Option Decimal → ℤ → Duration → Type 0
Times digit start_time end_time daily other d =
    (start finish : ℕ) × (parse_hhmm digit start_time ≡ ok start)
    × (parse_hhmm digit end_time ≡ ok finish)
    × Accepted start finish daily other
    × (duration_of (finish - start) daily ≡ d)

-- A leave of quarters within the day is at most a day.
day_lem :
    (k : ℕ) (daily : Option Decimal)
    → 15 * k * (daily_hours_value daily).parts ≤ (daily_hours_value daily).units * 60
    → day_equivalent (25 * k) daily ≤ 10000
day_lem k daily h =
    let some_units = daily_lem daily in
    half_up_whole (25 * k * (daily_hours_value daily).parts * 10000)
      (100 * (daily_hours_value daily).units) 10000 (omega arith) (grind arith)

module _ (digit : ℕ → Option ℕ) (start_time end_time : Value) (daily : Option Decimal) (other : ℤ)
    {d : Duration} where
  hourly_duration-Times :
      hourly_duration digit start_time end_time daily other ≡ ok d
      → Times digit start_time end_time daily other d
  unfolding hourly_duration
  hourly_duration-Times h =
      let (start, s, h1) = >>=-eq-ok (parse_hhmm digit start_time) _ h in
      let (finish, f, h2) = >>=-eq-ok (parse_hhmm digit end_time) _ h1 in
      let (passed, done) =
        >>-eq-ok (check_all (duration_guards start finish daily other))
          (ok (duration_of (finish - start) daily)) h2 in
      (start, finish, s, f, guards_lem start finish daily other passed, ok_eq done)

  -- An accepted leave lasts 15 minutes at least, and stays within the daily hours together with the
  -- other hourly leave of the day; its hours are its minutes to the nearest hundredth.
  pub hourly_duration-Accepted :
      hourly_duration digit start_time end_time daily other ≡ ok d
      → (start finish : ℕ) × (parse_hhmm digit start_time ≡ ok start)
        × (parse_hhmm digit end_time ≡ ok finish)
        × Accepted start finish daily other
        × (120 * d.hours ≤ 200 * (finish - start) + 60)
        × (200 * (finish - start) < 120 * d.hours + 60)
  hourly_duration-Accepted h =
      let (start, finish, s, f, accepted, same) = hourly_duration-Times h in
      let (low, high) = near (finish - start) in
      (
        start,
        finish,
        s,
        f,
        accepted,
        subst (λ d. 120 * d.hours ≤ 200 * (finish - start) + 60) same low,
        subst (λ d. 200 * (finish - start) < 120 * d.hours + 60) same high,
      )

  -- A leave of whole quarters of an hour counts its hours exactly, and at most one day.
  pub hourly_duration-quarters :
      (start k : ℕ)
      → hourly_duration digit start_time end_time daily other ≡ ok d
      → parse_hhmm digit start_time ≡ ok start
      → parse_hhmm digit end_time ≡ ok (start + 15 * k)
      → (d.hours ≡ 25 * k) × (d.days ≤ 10000)
  hourly_duration-quarters start k h s f =
      let (start', finish', s', f', accepted, same) = hourly_duration-Times h in
      let (_, within, _) = accepted in
      let a : start' ≡ start = ok_eq (sym s' ∙ s) in
      let b : finish' ≡ start + 15 * k = ok_eq (sym f' ∙ f) in
      let lasts : finish' - start' ≡ 15 * k = omega arith in
      let hours : hours_from_minutes (finish' - start') ≡ 25 * k =
        ap hours_from_minutes lasts ∙ quarters k in
      let short =
        subst (λ m. m * (daily_hours_value daily).parts ≤ (daily_hours_value daily).units * 60)
          lasts within in
      subst (λ d. (d.hours ≡ 25 * k) × (d.days ≤ 10000)) same
        (hours, subst (λ n. day_equivalent n daily ≤ 10000) (sym hours) (day_lem k daily short))
