-- ===== src/Personnel/Salary.antt =====
-- asoud_erp/services/salary_change_order_workflow.py: a salary change order is sent, and the end
-- of its workflow settles it.
pub mod Review
pub mod Apply
pub mod Edit
pub mod Written
pub mod Events
pub mod Phases
pub mod Sending
pub mod Life
pub mod Final
pub mod Repeat
pub mod Replay
pub mod Revision
use frappe_erp_next.Prelude.{
  String, Bool, true, false, not, ◌&&◌, ◌||◌, ◌==◌, ltb, leb, Option, none, some, if◌then◌else◌,
}
use frappe_erp_next.Prelude.Int.{ℤ, pos}
use frappe_erp_next.Prelude.Result.{Result, ok, err, ◌>>=◌, ◌>>◌, raise_if, check_all}
use frappe_erp_next.Prelude.{[], ◌∷◌, List}
use frappe_erp_next.Python.{
  Value, Fields, int, str, dict, null, get, get_or, put, update, field, end, truthy, str_is, len,
}
use frappe_erp_next.Python.Equality.{eq_value}
use frappe_erp_next.Personnel.Order.{
  OrderError, not_found, bad_request_id, stale, wrong_state, mismatch, has_workflow, forbidden,
  malformed, OrderEntry, OrderInstance, Created, OrderSite, request_kind, next_revision,
  is_positive, member_of, validate_workflow, is_closing, closed_status, to_savepoint,
}

abbrev pub order_kind : String
order_kind = "ASOUD Salary Change Order"

-- `_store(entry, data)`
abbrev pub store : OrderEntry → Fields → OrderEntry
store entry d = record entry { values = d }

abbrev pub company_of : Value → String → Value
company_of v company = if truthy v then v else str company

abbrev pub letterhead_of : OrderSite → Value → Value
letterhead_of site (str c) = if c == "" then null else site.letterhead c
letterhead_of site _ = null

-- `_finalize(data, entry)`
abbrev pub finalize : OrderSite → OrderEntry → Fields → Fields
finalize site entry d = update d (
    field "status" (str "final") (
      field "status_label" (site.label "final") (
        field "issue_date" (str site.issue_date) (
          field "number" (str site.number) (
            field "approved_by" (str site.user) (
              field "approved_on" (str site.now) (
                field "letterhead_snapshot"
                  (letterhead_of site (company_of (get d "company") entry.company)) end)))))))

abbrev pub settled_values : OrderSite → OrderEntry → String → Fields → Fields
settled_values site entry status d =
    if status == "Completed" then finalize site entry d else update d (closed_status site status)

-- `data["revision"] += 1` and `_store(entry, data)`
abbrev pub store_next : OrderEntry → Fields → Result OrderError OrderEntry
store_next entry d = do r ← next_revision (get d "revision"); ok (store entry (put "revision" r d))

abbrev pub is_found : OrderInstance → OrderEntry → Bool
is_found instance entry =
    (instance.reference_doctype == request_kind)
    && not (instance.reference_name == "")
    && (entry.reference_doctype == order_kind)
    && str_is instance.reference_name entry.reference_name

abbrev pub awaits : OrderInstance → Fields → Bool
awaits instance d =
    str_is "pending" (get d "status") && str_is instance.name (get d "workflow_instance")

abbrev pub settle_order : OrderSite → OrderInstance → OrderEntry → Result OrderError OrderEntry
settle_order site instance entry = do
  workflow ← member_of (get_or entry.values "template_snapshot" (dict end)) "workflow"
  raise_if
      (not (str_is entry.company (site.request_company instance.reference_name))
        || not (eq_value workflow instance.workflow_definition))
      mismatch
  store_next entry (settled_values site entry instance.status entry.values)

-- `on_instance_update(instance)`, for the entry that the order is stored in
unfoldable pub on_instance_update :
    OrderSite → OrderInstance → OrderEntry → Result OrderError OrderEntry
on_instance_update site instance entry =
    if is_found instance entry && is_closing instance.status && awaits instance entry.values
    then settle_order site instance entry
    else ok entry

-- The guards of `submit`, in order; `awaits_key` is the replay of a submission.
abbrev pub is_send_id : String → Bool
is_send_id id = leb 8 (len id) && leb (len id) 100

abbrev pub is_revision : Fields → ℤ → Bool
is_revision d revision = is_positive revision && eq_value (get d "revision") (int revision)

abbrev pub submit_guards : OrderEntry → String → List (Bool × OrderError)
submit_guards entry id =
    (not (entry.reference_doctype == order_kind), not_found)
    ∷ (not (is_send_id id), bad_request_id)
    ∷ []

abbrev pub draft_guards : Fields → ℤ → List (Bool × OrderError)
draft_guards d revision =
    (not (is_revision d revision), stale)
    ∷ (not (str_is "draft" (get d "status")), wrong_state)
    ∷ []

abbrev pub is_replay : String → Fields → Bool
is_replay id d = str_is id (get d "send_request_id")

abbrev pub sent : OrderSite → String → Value → Fields → Fields
sent site id r d = update d (
    field "status" (str "pending") (
      field "status_label" (site.label "pending")
        (field "send_request_id" (str id) (field "revision" r end))))

abbrev pub linked : Created → Fields → Fields
linked c d =
    update d (
      field "workflow_request" (str c.request)
        (field "workflow_instance" (str c.instance.name) end))

abbrev pub outcome :
    OrderEntry → Result OrderError OrderEntry → OrderEntry × Result OrderError Fields
outcome before (ok after) = (after, ok after.values)
outcome before (err e) = (before, err e)

abbrev pub start_request :
    OrderSite → OrderEntry → Result OrderError Created → OrderEntry × Result OrderError Fields
start_request site entry (err e) = (entry, err e)
start_request site entry (ok c) =
    let after = record entry { reference_name = str c.request; values = linked c entry.values } in
    outcome after (on_instance_update site c.instance after)

-- The body of the `try` in `submit`.
abbrev pub send :
    OrderSite → String → Value → Value → OrderEntry → OrderEntry × Result OrderError Fields
send site id workflow r entry =
    let pending = store entry (sent site id r entry.values) in
    if truthy workflow
    then start_request site pending
        (site.create_request entry.company workflow entry.subject (site.digest entry.name id))
    else (pending, ok pending.values)

abbrev pub ready_to_send : OrderSite → ℤ → OrderEntry → Result OrderError (Value × Value)
ready_to_send site revision entry = do
  check_all (draft_guards entry.values revision)
  workflow ← member_of (get_or entry.values "template_snapshot" (dict end)) "workflow"
  validate_workflow site workflow entry.company
  r ← next_revision (get entry.values "revision")
  ok (workflow, r)

abbrev pub send_ready :
    OrderSite
    → String
    → OrderEntry
    → Result OrderError (Value × Value)
    → OrderEntry × Result OrderError Fields
send_ready site id entry (err e) = (entry, err e)
send_ready site id entry (ok (workflow, r)) = to_savepoint entry (send site id workflow r entry)

abbrev pub submit_checked :
    OrderSite
    → ℤ
    → String
    → OrderEntry
    → Result OrderError (Unit {0})
    → OrderEntry × Result OrderError Fields
submit_checked site revision id entry (err e) = (entry, err e)
submit_checked site revision id entry (ok u) =
    if is_replay id entry.values
    then (entry, ok entry.values)
    else send_ready site id entry (ready_to_send site revision entry)

-- `submit(entry_name, revision, request_id)`: what is stored then, and the result
unfoldable pub submit : OrderSite → ℤ → String → OrderEntry → OrderEntry × Result OrderError Fields
submit site revision id entry =
    submit_checked site revision id entry (check_all (submit_guards entry id))
