-- ===== src/Form/Values.antt =====
-- The values of a response, by the types of their fields: asoud_erp/services/workflow_response.py,
-- with `parse_delivery_location` of services/request_lookup.py.
use Prim.Native.Char.{Char, code}
use text.Mathlib.Text.{starts_with}
use frappe_erp_next.Prelude.{
  ℕ, zero, suc, String, Bool, true, false, not, ◌&&◌, ◌||◌, Option, none, some, ◌==◌, eqb, leb,
  if◌then◌else◌,
}
use frappe_erp_next.Prelude.Int.{ℤ, pos, negsuc}
use frappe_erp_next.Prelude.Result.{Result, ok, err, ◌>>=◌, ◌>>◌, raise_if}
use frappe_erp_next.Python.{
  Value, Items, Fields, Python, bool, int, str, list, dict, nil, cons, get, has_key, is_part,
  int_of, str_of, strip, is_blank, len, truthy, str_is, ◌or◌,
}
use frappe_erp_next.Python.Equality.{eq_value}

-- `raised` is an exception that the code does not foresee, such as a test of a number for membership.
pub data ResponseError : Type 0 where
  not_a_form unknown_field auto_value required number checkbox choice link : ResponseError
  location time item_table item_row table row no_columns file date bad_text raised too_deep :
      ResponseError

-- What is read from outside: `float` of an integer (`none` where it overflows) and of a text (`none`
-- where it raises ValueError or is not finite), both for the results that are whole numbers, which
-- are all that the model has; `0 < number`, `\d`, and `date.fromisoformat(text).isoformat()`.
pub record Outside : Type 0 where
  pub python : Python
  pub float_of_int : ℤ → Option ℤ
  pub float_of_text : String → Option ℤ
  pub is_positive : Value → Bool
  pub is_decimal_digit : ℕ → Bool
  pub iso_date : String → Option String

abbrev pub given_or {ℓ} : {A : Type ℓ} → ResponseError → Option A → Result ResponseError A
given_or e none = err e
given_or e (some a) = ok a

-- `_finite_number`
abbrev pub finite_number : Outside → Value → Result ResponseError Value
finite_number out (int z) = do w ← given_or raised (out.float_of_int z); ok (int w)
finite_number out (str s) = do w ← given_or number (out.float_of_text s); ok (int w)
finite_number out _ = err number

-- `value.startswith(FILE_PREFIXES)`
abbrev pub is_file : String → Bool
is_file s = starts_with s "/private/files/" || starts_with s "/files/"

-- `_file_reference`
abbrev pub file_reference : Value → Result ResponseError Value
file_reference (str s) = if is_file s then ok (str s) else err file
file_reference _ = err file

-- `value in items`
abbrev pub is_member : Items → Value → Bool
is_member nil v = false
is_member (cons x xs) v = eq_value v x || is_member xs v

-- `value in container`, the container being a field of a definition or an empty list
abbrev pub is_in : Value → Value → Result ResponseError Bool
is_in v (list xs) = ok (is_member xs v)
is_in (str s) (str t) = ok (is_part s t)
is_in (str s) (dict m) = ok (has_key m s)
is_in v _ = err raised

abbrev pub options_of : Fields → Value
options_of f = get f "options" or list nil

abbrev pub choice_value : Outside → Fields → Value → Result ResponseError Value
choice_value out f v = do
  found ← is_in v (options_of f)
  raise_if (not found) choice
  ok (str (str_of out.python v))

abbrev pub all_in : Items → Value → Result ResponseError Bool
all_in nil options = ok true
all_in (cons v rest) options = do
  found ← is_in v options
  if found then all_in rest options else ok false

abbrev pub can_hash : Value → Bool
can_hash (list _) = false
can_hash (dict _) = false
can_hash _ = true

abbrev pub all_hashable : Items → Bool
all_hashable nil = true
all_hashable (cons v rest) = can_hash v && all_hashable rest

-- `[str(item) for item in dict.fromkeys(value)]`, the first of equal items being kept
abbrev pub distinct_texts : Outside → Items → Items → Items
distinct_texts out seen nil = nil
distinct_texts out seen (cons v rest) =
    let others = distinct_texts out (cons v seen) rest in
    if is_member seen v then others else cons (str (str_of out.python v)) others

abbrev pub choice_values : Outside → Fields → Value → Result ResponseError Value
choice_values out f (list xs) = do
  found ← all_in xs (options_of f)
  raise_if (not found) choice
  raise_if (not (all_hashable xs)) raised
  ok (list (distinct_texts out nil xs))
choice_values out f _ = err choice

abbrev pub checkbox_value : Value → Result ResponseError Value
checkbox_value (bool b) = ok (bool b)
checkbox_value (int (pos zero)) = ok (bool false)
checkbox_value (int (pos (suc zero))) = ok (bool true)
checkbox_value _ = err checkbox

abbrev pub link_value : Value → Result ResponseError String
link_value (str s) = if is_blank s || not (leb (len s) 140) then err link else ok (strip s)
link_value _ = err link

abbrev is_separator : Char → Bool
is_separator c = eqb (code c) 58

-- `value.split(":", 1)`, where there is a colon
abbrev pub before_colon : String → Option (String × String)
before_colon String.[] = none
before_colon (String.◌∷◌ c s) = if is_separator c then some ("", s) else prefixed c (before_colon s)
  where
    prefixed : Char → Option (String × String) → Option (String × String)
    prefixed c none = none
    prefixed c (some (a, b)) = some (String.◌∷◌ c a, b)

abbrev pub is_kind : String → Bool
is_kind s = s == "warehouse" || s == "branch" || s == "department"

-- `parse_delivery_location(value)`
abbrev pub delivery_location : String → Result ResponseError (String × String)
delivery_location s = do
  (kind, name) ← given_or location (before_colon s)
  raise_if (not (is_kind (strip kind)) || is_blank name || not (leb (len (strip name)) 140))
      location
  ok (strip kind, strip name)

abbrev pub select_value : Fields → Value → Result ResponseError Value
select_value f v = do
  s ← link_value v
  if str_is "delivery_location" (get f "source") then checked s else ok (str s)
  where
    checked : String → Result ResponseError Value
    checked s = do _ ← delivery_location s; ok (str s)

-- `TIME_PATTERN.fullmatch(value)`
abbrev pub is_time : Outside → String → Bool
is_time out (String.◌∷◌ a (String.◌∷◌ b (String.◌∷◌ c (String.◌∷◌ d (String.◌∷◌ e String.[]))))) =
    (((eqb (code a) 48 || eqb (code a) 49) && out.is_decimal_digit (code b))
      || (eqb (code a) 50 && leb 48 (code b) && leb (code b) 51))
    && is_separator c
    && leb 48 (code d)
    && leb (code d) 53
    && out.is_decimal_digit (code e)
is_time out _ = false

abbrev pub time_value : Outside → Value → Result ResponseError Value
time_value out (str s) = if is_time out s then ok (str s) else err time
time_value out _ = err time

abbrev pub date_value : Outside → Value → Result ResponseError Value
date_value out v = do s ← given_or date (out.iso_date (str_of out.python v)); ok (str s)

-- `min(int(value or most), most)`, and a length that is at most a limit
abbrev pub limit_of : Outside → ℕ → Value → Result ResponseError ℤ
limit_of out most v = do
  z ← given_or raised (int_of out.python (v or int (pos most)))
  ok (least most z)
  where
    least : ℕ → ℤ → ℤ
    least most (pos n) = if leb most n then pos most else pos n
    least most (negsuc n) = negsuc n

abbrev pub at_most : ℕ → ℤ → Bool
at_most n (pos m) = leb n m
at_most n (negsuc m) = false

abbrev pub at_least : ℕ → ℤ → Bool
at_least n (pos m) = leb m n
at_least n (negsuc m) = true

-- `_text`
abbrev pub checked_text : Outside → Fields → Value → Result ResponseError String
checked_text out f (str s) = do
  limit ← limit_of out 10000 (get f "max_length")
  raise_if (not (at_most (len s) limit)) bad_text
  ok (strip s)
checked_text out f _ = limit_of out 10000 (get f "max_length") >>= λ limit. err bad_text

abbrev pub filled_text : Outside → Fields → Value → Result ResponseError Value
filled_text out f v = do
  s ← checked_text out f v
  raise_if (truthy (get f "required") && (s == "")) required
  ok (str s)
