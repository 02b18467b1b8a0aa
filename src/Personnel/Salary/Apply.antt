-- ===== src/Personnel/Salary/Apply.antt =====
-- `apply_salary_change_order_to_payroll` of asoud_erp/api/v1/salary_change_orders.py.
use frappe_erp_next.Prelude.{
  String, Bool, true, false, not, ◌&&◌, ◌||◌, ◌==◌, Option, none, some, List, [], ◌∷◌,
  if◌then◌else◌,
}
use frappe_erp_next.Prelude.Int.{pos}
use frappe_erp_next.Prelude.Result.{Result, ok, err, ◌>>=◌, ◌>>◌, check_all}
use frappe_erp_next.Python.{
  Value, Items, Fields, int, str, list, dict, nil, cons, get, get_or, has_key, put, end, truthy,
  str_is, is_part, ◌or◌,
}
use frappe_erp_next.Personnel.Order.{
  OrderError, wrong_state, forbidden, malformed, OrderEntry, OrderSite,
}
use frappe_erp_next.Personnel.Salary.Review.{write_next}

-- The base and the variable pay that the rows of the comparison table propose.
pub record Pay : Type 0 where
  pub base : Value
  pub variable : Value

-- `part in value`, `value` being a text or another value that is not empty
abbrev pub among : String → Items → Bool
among t nil = false
among t (cons v rest) = str_is t v || among t rest

abbrev pub mentions : String → Value → Result OrderError Bool
mentions part (str s) = ok (is_part part s)
mentions part (list xs) = ok (among part xs)
mentions part (dict m) = ok (has_key m part)
mentions part _ = err malformed

abbrev pub amount_of : Fields → Value
amount_of r = get r "new_amount" or int (pos 0)

-- The `or` of the code: the second test is made only where the first fails.
abbrev pub names_part : Bool → String → Fields → Result OrderError Bool
names_part named part r = if named then ok named else mentions part (get r "old_ref" or str "")

abbrev pub names_variable : Fields → Bool
names_variable r = str_is "variable" (get r "id" or str "") || str_is "bonus" (get r "id" or str "")

abbrev pub set_amount : Bool → Fields → Pay → Result OrderError Pay
set_amount true r p = ok (record p { base = amount_of r })
set_amount false r p = do
  is_variable ← names_part (names_variable r) "variable" r
  ok (if is_variable then record p { variable = amount_of r } else p)

abbrev pub row_pay : Fields → Pay → Result OrderError Pay
row_pay r p = do
  is_base ← names_part (str_is "base_salary" (get r "id" or str "")) "base" r
  set_amount is_base r p

abbrev pub proposed_pay : Items → Pay → Result OrderError Pay
proposed_pay nil p = ok p
proposed_pay (cons (dict r) rest) p = do next ← row_pay r p; proposed_pay rest next
proposed_pay (cons _ rest) p = err malformed

abbrev pub row_items : Value → Result OrderError Items
row_items (list xs) = ok xs
row_items (str s) = if s == "" then ok nil else err malformed
row_items (dict end) = ok nil
row_items _ = err malformed

abbrev pub comparison_rows : Value → Result OrderError Items
comparison_rows (dict m) = row_items (get_or m "rows" (list nil))
comparison_rows _ = err malformed

-- What `apply` finds of the employee's payroll: the structure of the last assignment, or the
-- company's own.
pub record Structure : Type 0 where
  pub structure : Value
  pub account : Value
  pub currency : Value

pub record Payroll : Type 0 where
  pub last_structure : Value → String → Option Structure
  pub company_structure : String → Structure
  -- `getdate(text)`, `none` where it raises
  pub to_date : Value → Option Value

pub record Assignment : Type 0 where
  pub employee : Value
  pub company : String
  pub structure : Structure
  pub from_date : Value
  pub pay : Pay

abbrev pub structure_of : Payroll → Value → String → Structure
structure_of payroll employee company = chosen (payroll.last_structure employee company)
  where
    chosen : Option Structure → Structure
    chosen (some s) = s
    chosen none = payroll.company_structure company

abbrev pub effective_date : Option Value → Result OrderError Value
effective_date (some d) = ok d
effective_date none = err malformed

abbrev pub assignment : OrderEntry → Structure → Value → Pay → Option Assignment
assignment entry s date p =
    if truthy s.structure
    then some (record {
      employee = get entry.values "employee";
      company = entry.company;
      structure = s;
      from_date = date;
      pay = p;
    })
    else none

abbrev pub applied_by : OrderSite → String → Fields → Fields
applied_by site operation d = put "applied_on" (str site.now) (
    put "applied_by" (str site.user) (
      put "applied_operation_id" (str operation) (
        put "application_status_label" (site.label "applied")
          (put "application_status" (str "applied") d))))

abbrev pub apply_guards : OrderSite → OrderEntry → List (Bool × OrderError)
apply_guards site entry =
    (not (site.in_company entry.company), forbidden)
    ∷ (not (site.is_payroll entry.company), forbidden)
    ∷ (not (str_is "final" (get entry.values "status")), wrong_state)
    ∷ []

abbrev pub is_applied : String → Fields → Bool
is_applied operation d =
    str_is "applied" (get d "application_status") && str_is operation (get d "applied_operation_id")

abbrev pub apply_now :
    OrderSite → Payroll → String → OrderEntry → Result OrderError (OrderEntry × Option Assignment)
apply_now site payroll operation entry = do
  date ← effective_date (payroll.to_date (get entry.values "effective_date" or str site.today))
  rows ← comparison_rows (get entry.values "comparison_table" or dict end)
  p ← proposed_pay rows (record { base = int (pos 0); variable = int (pos 0) })
  next ← write_next entry (applied_by site operation entry.values)
  ok (
    next,
    assignment entry (structure_of payroll (get entry.values "employee") entry.company) date p,
  )

-- `apply_salary_change_order_to_payroll(name, operation_id)`: the row, and the assignment that is
-- submitted
unfoldable pub apply :
    OrderSite → Payroll → String → OrderEntry → Result OrderError (OrderEntry × Option Assignment)
apply site payroll operation entry =
    check_all (apply_guards site entry)
    >> (if is_applied operation entry.values
        then ok (entry, none)
        else apply_now site payroll operation entry)
