-- ===== src/Personnel/Salary/Edit.antt =====
-- asoud_erp/api/v1/salary_change_orders.py: `save_salary_change_order` with the name of an order,
-- which writes the row of that order anew.
use frappe_erp_next.Prelude.{String, Bool, not, List, [], ◌∷◌, ◌==◌, if◌then◌else◌}
use frappe_erp_next.Prelude.Int.{ℤ, pos}
use frappe_erp_next.Prelude.Result.{Result, ok, err, ◌>>=◌, ◌>>◌, check_all}
use frappe_erp_next.Python.{Value, Fields, int, str, list, dict, field, end, get, get_or, str_is}
use frappe_erp_next.Personnel.Order.{
  OrderError, stale, wrong_state, forbidden, malformed, OrderEntry, OrderSite, next_revision,
}
use frappe_erp_next.Personnel.Salary.{store, is_revision, order_kind}

-- What the call makes of its other arguments, of the employee and of the template before it comes
-- to the order: the columns that do not depend on the row that is stored.
pub record Edited : Type 0 where
  pub company_name : Value
  pub employee : Value
  pub employee_name : Value
  pub employee_number : Value
  pub effective_date : Value
  pub issue_date : Value
  pub drafted_on : Value
  pub reason : Value
  pub reason_label : Value
  pub description : Value
  pub department : Value
  pub designation : Value
  pub given_values : Value
  pub template_snapshot : Value
  pub comparison_table : Value

abbrev pub caller_guards : OrderSite → String → List (Bool × OrderError)
caller_guards site company =
    (not (site.is_hr company), forbidden) ∷ (not (site.in_company company), forbidden) ∷ []

abbrev pub edit_guards : String → ℤ → OrderEntry → List (Bool × OrderError)
edit_guards company revision entry =
    (not (entry.company == company), forbidden)
    ∷ (not (entry.reference_doctype == order_kind), forbidden)
    ∷ (not (is_revision entry.values revision), stale)
    ∷ (not (str_is "draft" (get entry.values "status")), wrong_state)
    ∷ []

-- `labels.get(key, key)`; a key that no dictionary takes is an error.
abbrev pub label_or_key : OrderSite → List (String × String) → Value → Result OrderError Value
label_or_key site [] (list xs) = err malformed
label_or_key site [] (dict m) = err malformed
label_or_key site [] v = ok v
label_or_key site ((key, name) ∷ rest) v =
    if str_is key v then ok (site.label name) else label_or_key site rest v

abbrev pub status_labels : List (String × String)
status_labels =
    ("draft", "draft") ∷ ("pending", "pending") ∷ ("final", "final") ∷ ("rejected", "refused") ∷ []

abbrev pub app_status_labels : List (String × String)
app_status_labels =
    ("not_applied", "not applied") ∷ ("applied", "applied") ∷ ("failed", "unsuccessful") ∷ []

-- `order_data`
abbrev pub order_data : String → Edited → Value → Value → Value → Value → Value → Value → Fields
order_data company d status status_label app_status app_label number revision =
    field "company" (str company) (
      field "company_name" d.company_name (
        field "employee" d.employee (
          field "employee_name" d.employee_name (
            field "employee_number" d.employee_number (
              field "status" status (
                field "status_label" status_label (
                  field "application_status" app_status (
                    field "application_status_label" app_label
                      (field "number" number (rest d revision))))))))))
  where
    rest : Edited → Value → Fields
    rest d revision = field "effective_date" d.effective_date (
        field "issue_date" d.issue_date (
          field "drafted_on" d.drafted_on (
            field "reason" d.reason (
              field "reason_label" d.reason_label (
                field "description" d.description (
                  field "department" d.department (
                    field "designation" d.designation (
                      field "values" d.given_values (
                        field "template_snapshot" d.template_snapshot (
                          field "comparison_table" d.comparison_table
                            (field "revision" revision end)))))))))))

-- `save_salary_change_order(company, request_id, revision, order, ...)` of an order that exists
unfoldable pub save_order :
    OrderSite → String → Result OrderError Edited → ℤ → OrderEntry → Result OrderError OrderEntry
save_order site company edited revision entry = do
  check_all (caller_guards site company)
  d ← edited
  check_all (edit_guards company revision entry)
  r ← next_revision (get_or entry.values "revision" (int (pos 1)))
  status_label ← label_or_key site status_labels (get_or entry.values "status" (str "draft"))
  app_label ←
      label_or_key site app_status_labels
        (get_or entry.values "application_status" (str "not_applied"))
  ok (
      store entry (
        order_data company d (get_or entry.values "status" (str "draft")) status_label
          (get_or entry.values "application_status" (str "not_applied")) app_label
          (get_or entry.values "number" (str "")) r))
