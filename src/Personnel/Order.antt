-- ===== src/Personnel/Order.antt =====
-- What the orders of asoud_erp/services/salary_change_order_workflow.py and
-- hiring_order_workflow.py share: the form entry that stores an order, the instance of its
-- workflow, and what a call reads from the site.
use frappe_erp_next.Prelude.{String, Bool, true, false, not, ◌&&◌, ◌||◌, ◌==◌, if◌then◌else◌}
use frappe_erp_next.Prelude.Int.{ℤ, pos, negsuc}
use frappe_erp_next.Prelude.Result.{Result, ok, err, raise_if}
use frappe_erp_next.Python.{Value, Fields, int, str, dict, bool, get, field, end, truthy}

-- `locked` is a deadlock or a timeout of the database.
pub data OrderError : Type 0 where
  not_found bad_request_id stale wrong_state no_workflow mismatch has_workflow : OrderError
  forbidden malformed failed locked : OrderError

-- The row of `ASOUD Form Entry` that stores an order, `values` being its decoded `values_json`.
pub record OrderEntry : Type 0 where
  pub name : String
  pub company : String
  pub subject : Value
  pub reference_doctype : String
  pub reference_name : Value
  pub values : Fields

pub record OrderInstance : Type 0 where
  pub name : String
  pub reference_doctype : String
  pub reference_name : String
  pub workflow_definition : Value
  pub status : String

-- The request and the instance that `create_request` starts.
pub record Created : Type 0 where
  pub request : String
  pub instance : OrderInstance

-- What one call reads: the user's rights in a company, the definitions that are ready, the
-- company of a request, the next number of the series, the time, and `create_request`.
pub record OrderSite : Type 0 where
  pub user : String
  -- the Persian text that the code writes for a status, under an English name
  pub label : String → Value
  pub in_company : String → Bool
  pub is_hr : String → Bool
  pub is_payroll : String → Bool
  pub is_ready : String → String → Bool
  pub request_company : String → Value
  pub number : String
  pub today : String
  -- today in the Solar Hijri calendar
  pub issue_date : String
  pub now : String
  pub letterhead : String → Value
  pub digest : String → String → String
  pub create_request : String → Value → Value → String → Result OrderError Created

abbrev pub request_kind : String
request_kind = "ASOUD Workflow Request"

-- `data["revision"] + 1`, a missing key being an error
abbrev pub next_revision : Value → Result OrderError Value
next_revision (int (pos n)) = ok (int (pos (Prim.Native.Nat.suc n)))
next_revision (int (negsuc Prim.Native.Nat.zero)) = ok (int (pos 0))
next_revision (int (negsuc (Prim.Native.Nat.suc n))) = ok (int (negsuc n))
next_revision (bool b) = ok (int (pos (if b then 2 else 1)))
next_revision _ = err malformed

abbrev pub is_positive : ℤ → Bool
is_positive (pos Prim.Native.Nat.zero) = false
is_positive (pos (Prim.Native.Nat.suc _)) = true
is_positive (negsuc _) = false

-- `data.get("template_snapshot", {}).get("workflow")`
abbrev pub member_of : Value → String → Result OrderError Value
member_of (dict m) k = ok (get m k)
member_of _ k = err malformed

-- `validate_workflow(name, company)`
abbrev pub validate_workflow : OrderSite → Value → String → Result OrderError (Unit {0})
validate_workflow site (str name) company =
    raise_if (not (name == "") && not (site.is_ready name company)) no_workflow
validate_workflow site v company = raise_if (truthy v) no_workflow

-- The statuses of an instance that close its order, and what they set.
abbrev pub is_closing : String → Bool
is_closing s = s == "Completed" || s == "Rejected" || s == "Cancelled" || s == "Failed"

abbrev pub closed_status : OrderSite → String → Fields
closed_status site s =
    if s == "Rejected"
    then field "status" (str "rejected") (field "status_label" (site.label "rejected") end)
    else if s == "Cancelled"
    then field "status" (str "cancelled") (field "status_label" (site.label "cancelled") end)
    else field "status" (str "failed") (field "status_label" (site.label "failed") end)

abbrev pub is_locked : OrderError → Bool
is_locked locked = true
is_locked _ = false

-- What is left in the database: a failure rolls back to the savepoint, a deadlock or a timeout is
-- raised as it is.
abbrev pub to_savepoint :
    OrderEntry → OrderEntry × Result OrderError Fields → OrderEntry × Result OrderError Fields
to_savepoint saved (now, ok d) = (now, ok d)
to_savepoint saved (now, err e) = (if is_locked e then now else saved, err e)
