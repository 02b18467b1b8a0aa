-- ===== src/Form/Period.antt =====
-- asoud_erp/services/form_execution/period.py: the validators that the executors of leave, mission
-- and overtime share. The Persian sentence of an error is a constructor of `PeriodError`.
use Prim.Native.Nat.{Ordering}
use Prim.Native.String.{compare as compare_text}
use frappe_erp_next.Prelude.{
  ℕ, String, ◌≡◌, refl, sym, subst, inl, inr, Bool, true, false, not, ◌&&◌, ◌||◌, Option, none,
  some, ◌==◌, eqb, ltb, eq_iff, arith, if◌then◌else◌, Bool-cases,
}
use frappe_erp_next.Prelude.Int.{pos}
use frappe_erp_next.Prelude.Result.{Result, ok, err, ◌>>=◌, >>=-eq-ok}
use frappe_erp_next.Python.{Value, Fields, null, bool, int, str, get, strip, is_blank, len}

pub data PeriodError : Type 0 where
  no_company no_employee bad_start bad_end end_first bad_flag no_half_day bad_half_day bad_clock
        bad_text long_text :
      PeriodError

-- `a < b` of two texts
abbrev pub ltb_text : String → String → Bool
ltb_text a b = elim (compare_text a b) [ Ordering.lt ↦ true | _ ↦ false ]

-- `not isinstance(value, str) or not value.strip()`
abbrev pub lacks_text : Value → Bool
lacks_text (str s) = is_blank s
lacks_text _ = true

abbrev pub text_or : Value → String
text_or (str s) = s
text_or _ = ""

-- `context(ctx)`, of an object
unfoldable pub context : Fields → Result PeriodError (String × String)
context ctx =
    if lacks_text (get ctx "company")
    then err no_company
    else if lacks_text (get ctx "employee")
    then err no_employee
    else ok (text_or (get ctx "company"), text_or (get ctx "employee"))

-- `flag(value, message)`
abbrev pub flag : Value → PeriodError → Result PeriodError Bool
flag null message = ok false
flag (str s) message = if s == "" then ok false else err message
flag (bool b) message = ok b
flag (int (pos n)) message = if eqb n 0 then ok false else if eqb n 1 then ok true else err message
flag _ message = err message

-- `clean_text(value, message, limit, required=..., too_long=...)`
abbrev pub clean_stripped : String → ℕ → PeriodError → Result PeriodError (Option String)
clean_stripped s limit too_long = if ltb limit (len s) then err too_long else ok (some s)

abbrev pub absent_text : Bool → PeriodError → Result PeriodError (Option String)
absent_text required message = if required then err message else ok none

unfoldable pub clean_text :
    Value → PeriodError → ℕ → Bool → PeriodError → Result PeriodError (Option String)
clean_text null message limit required too_long = absent_text required message
clean_text (str s) message limit required too_long =
    if is_blank s then absent_text required message else clean_stripped (strip s) limit too_long
clean_text _ message limit required too_long = err message

pub record Range : Type 0 where
  pub first : String
  pub last : String
  pub half : Bool
  pub half_day : Option String

-- `not start <= half_day <= end`
abbrev pub is_outside : String → String → String → Bool
is_outside start end_ day = ltb_text day start || ltb_text end_ day

-- `date.fromisoformat(text).isoformat() == text`, of ten characters
module _ (is_date : String → Bool) where
  -- `day(value, message)`
  abbrev pub day : Value → PeriodError → Result PeriodError String
  day (str s) message = if eqb (len s) 10 && is_date s then ok s else err message
  day _ message = err message

  abbrev pub half_day_of : String → String → Value → Result PeriodError String
  half_day_of start end_ raw =
      if elim raw [ null ↦ true | str s ↦ is_blank s | _ ↦ false ] then err no_half_day else (do
        half ← day raw bad_half_day
        if is_outside start end_ half then err bad_half_day else ok half)

  abbrev pub range_of : Fields → String → String → Bool → Result PeriodError Range
  range_of params start end_ false =
      ok (record { first = start; last = end_; half = false; half_day = none })
  range_of params start end_ true =
      if start == end_
      then ok (record { first = start; last = end_; half = true; half_day = some start })
      else (do
        half ← half_day_of start end_ (get params "half_day_date")
        ok (record { first = start; last = end_; half = true; half_day = some half }))

  abbrev pub ordered_range : Fields → String → String → Result PeriodError Range
  ordered_range params start end_ =
      if ltb_text end_ start
      then err end_first
      else (flag (get params "half_day") bad_flag >>= range_of params start end_)

  -- `date_range(params, label)`
  unfoldable pub date_range : Fields → Result PeriodError Range
  date_range params = do
    start ← day (get params "from_date") bad_start
    end_ ← day (get params "to_date") bad_end
    ordered_range params start end_

-- The half day of a range: none unless it is asked for, and inside the range.
abbrev pub half_inside : Range → Bool
half_inside r = elim r.half_day [
  | none ↦ not r.half
  | some day ↦ r.half && not (is_outside r.first r.last day)
]

ok_range : {a b : Range} → ◌≡◌ {A = Result PeriodError Range} (ok a) (ok b) → a ≡ b
ok_range p = cc

inside_first :
    (start end_ : String)
    → start ≡ end_
    → ltb_text end_ start ≡ false
    → (true && not (is_outside start end_ start)) ≡ true
inside_first start end_ p h =
    rw (subst (λ (x : String). ltb_text x start ≡ false) (sym p) h, h) refl

module _ (is_date : String → Bool) where
  half_day_inside :
      (start end_ : String) (raw : Value) {day : String}
      → half_day_of is_date start end_ raw ≡ ok day
      → is_outside start end_ day ≡ false
  half_day_inside start end_ (str s) h = ground arith
  half_day_inside start end_ _ h = ground arith

  range_inside :
      (params : Fields) (start end_ : String) (half : Bool) {r : Range}
      → ltb_text end_ start ≡ false
      → range_of is_date params start end_ half ≡ ok r
      → (ltb_text r.last r.first ≡ false) × (half_inside r ≡ true)
  range_inside params start end_ false {r} p h =
      subst (λ (x : Range). (ltb_text x.last x.first ≡ false) × (half_inside x ≡ true)) (ok_range h)
        (p, refl)
  range_inside params start end_ true {r} p h = elim (Bool-cases (start == end_)) [
    | inl y ↦
        let same = (eq_iff start end_).0 y in
        subst (λ (x : Range). (ltb_text x.last x.first ≡ false) × (half_inside x ≡ true))
          (ok_range (rw y at h)) (p, inside_first start end_ same p)
    | inr n ↦
        let (d, c, h1) =
          >>=-eq-ok (half_day_of is_date start end_ (get params "half_day_date")) _ (rw n at h) in
        subst (λ (x : Range). (ltb_text x.last x.first ≡ false) × (half_inside x ≡ true))
          (ok_range h1) (p, rw (half_day_inside start end_ (get params "half_day_date") c) refl)
  ]

  -- A range of dates that is accepted does not end before it starts, has a half day exactly where one
  -- is asked for, and that day lies in the range.
  pub date_range-inside :
      (params : Fields) {r : Range}
      → date_range is_date params ≡ ok r
      → (ltb_text r.last r.first ≡ false) × (half_inside r ≡ true)
  unfolding date_range
  date_range-inside params {r} h =
      let (start, a, h1) = >>=-eq-ok (day is_date (get params "from_date") bad_start) _ h in
      let (end_, b, h2) = >>=-eq-ok (day is_date (get params "to_date") bad_end) _ h1 in
      ordered start end_ h2
    where
      ordered :
          (start end_ : String)
          → ◌≡◌ {A = Result PeriodError Range}
              (if ltb_text end_ start
                then err end_first
                else (flag (get params "half_day") bad_flag >>= range_of is_date params start end_))
              (ok r)
          → (ltb_text r.last r.first ≡ false) × (half_inside r ≡ true)
      ordered start end_ q = elim (Bool-cases (ltb_text end_ start)) [
        | inl y ↦ cc (rw y at q)
        | inr n ↦
            let (half, c, h3) = >>=-eq-ok (flag (get params "half_day") bad_flag) _ (rw n at q) in
            range_inside params start end_ half n h3
      ]
