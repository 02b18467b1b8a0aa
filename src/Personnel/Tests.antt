-- ===== src/Personnel/Tests.antt =====
-- An order without a workflow and one whose workflow ends at once.
use frappe_erp_next.Prelude.{String, true, ◌≡◌, refl, List, [], ◌∷◌, inl}
use frappe_erp_next.Prelude.Int.{pos}
use frappe_erp_next.Prelude.Result.{ok, err}
use frappe_erp_next.Python.{Value, Fields, null, int, str, dict, end, field, get}
use frappe_erp_next.Python.Equality.{eq_value}
use frappe_erp_next.Personnel.Lifecycle.{Phase}
use frappe_erp_next.Personnel.Order.{OrderEntry, OrderInstance, OrderSite, request_kind, failed}
use frappe_erp_next.Personnel.Salary.{order_kind, on_instance_update, submit}
use frappe_erp_next.Personnel.Salary.Review.{send_for_review, approve}
use frappe_erp_next.Personnel.Salary.Edit.{Edited, save_order}
use frappe_erp_next.Personnel.Salary.Events.{
  Event, saved, send, approved, rejected, instance_saved, run, step,
}
use frappe_erp_next.Personnel.Salary.Phases.{InPhase, Moved}
use frappe_erp_next.Personnel.Salary.Final.{number_of, run-final}
use frappe_erp_next.Personnel.Salary.Life.{run-Moved}
use frappe_erp_next.Personnel.Salary.Repeat.{send_for_review-failed}
use frappe_erp_next.Personnel.Salary.Replay.{submit-replay}
use frappe_erp_next.Personnel.Salary.Revision.{Decides, Decides-once}

abbrev done : OrderInstance
done = record {
  name = "INST-1";
  reference_doctype = request_kind;
  reference_name = "REQ-1";
  workflow_definition = str "WF-1";
  status = "Completed";
}

abbrev site : OrderSite
site = record {
  user = "hr@x.ir";
  label = λ s. str s;
  in_company = λ c. true;
  is_hr = λ c. true;
  is_payroll = λ c. true;
  is_ready = λ d c. true;
  request_company = λ r. str "ACME";
  number = "SAL-1";
  today = "2026-01-01";
  issue_date = "1404-10-11";
  now = "2026-01-01 10:00";
  letterhead = λ c. null;
  digest = λ e id. id;
  create_request = λ c w s id. ok (record { request = "REQ-1"; instance = done });
}

-- `create_request` raises.
abbrev broken : OrderSite
broken = record site { create_request = λ c w s id. err failed }

abbrev workflow : Value → Fields
workflow w = field "template_snapshot" (dict (field "workflow" w end)) end

abbrev order : Value → OrderEntry
order w = record {
  name = "E-1";
  company = "ACME";
  subject = str "order";
  reference_doctype = order_kind;
  reference_name = null;
  values = field "status" (str "draft") (field "revision" (int (pos 1)) (workflow w));
}

abbrev draft_order : OrderEntry
draft_order = order (str "WF-1")

abbrev request_id : String
request_id = "request-1"

abbrev issued : OrderEntry
issued = step site (send (pos 1) request_id) draft_order

issued_status : get issued.values "status" ≡ str "final"
unfolding step send_for_review submit on_instance_update eq_value
issued_status = refl

abbrev edited : Edited
edited = record {
  company_name = str "Acme";
  employee = str "EMP-1";
  employee_name = str "Ann";
  employee_number = str "1";
  effective_date = str "2026-02-01";
  issue_date = str "";
  drafted_on = str "1404-10-11";
  reason = str "annual";
  reason_label = str "annual";
  description = str "";
  department = str "";
  designation = str "";
  given_values = dict end;
  template_snapshot = dict (field "workflow" (str "WF-1") end);
  comparison_table = dict end;
}

-- The draft is edited once, with its revision; then it is sent, and its workflow ends before the
-- call returns.
abbrev calls : List (OrderSite × Event)
calls =
    (site, saved "ACME" (ok edited) (pos 1))
    ∷ (site, saved "ACME" (ok edited) (pos 1))
    ∷ (site, send (pos 2) request_id)
    ∷ []

edited_revision :
    get (step site (saved "ACME" (ok edited) (pos 1)) draft_order).values "revision" ≡ int (pos 2)
unfolding step save_order eq_value
edited_revision = refl

called_status : get (run calls draft_order).values "status" ≡ str "final"
unfolding step run save_order submit on_instance_update eq_value
called_status = refl

run-Moved_example : Moved Phase.draft (run calls draft_order)
run-Moved_example = run-Moved calls draft_order Phase.draft refl

abbrev again : List (OrderSite × Event)
again =
    (site, saved "ACME" (err failed) (pos 3))
    ∷ (site, approved (pos 3))
    ∷ (site, rejected (pos 3) "no")
    ∷ (site, send (pos 3) "request-2")
    ∷ []

run-final_example :
    InPhase (run again issued) Phase.final × (number_of (run again issued) ≡ number_of issued)
run-final_example = run-final again issued issued_status

sending_failed : (send_for_review broken (pos 1) request_id draft_order).1 ≡ err failed
unfolding send_for_review submit on_instance_update eq_value
sending_failed = refl

send_for_review-failed_example :
    (send_for_review broken (pos 1) request_id draft_order).0 ≡ draft_order
send_for_review-failed_example =
    send_for_review-failed broken (pos 1) request_id draft_order failed sending_failed refl

abbrev pending_order : OrderEntry
pending_order = record draft_order {
  reference_name = str "REQ-1";
  values = field "status" (str "pending") (
      field "revision" (int (pos 2))
        (field "workflow_instance" (str "INST-1") (workflow (str "WF-1"))));
}

abbrev ended : OrderEntry
ended = step site (instance_saved done) pending_order

pending_ends : on_instance_update site done pending_order ≡ ok ended
unfolding step on_instance_update eq_value
pending_ends = refl

submitted : submit site (pos 1) request_id draft_order ≡ (issued, ok issued.values)
unfolding step send_for_review submit on_instance_update eq_value
submitted = refl

submit-replay_example : submit site (pos 9) request_id issued ≡ (issued, ok issued.values)
submit-replay_example = submit-replay site site (pos 1) (pos 9) request_id draft_order submitted

abbrev direct : OrderEntry
direct = step site (send (pos 1) request_id) (order (str ""))

abbrev approved_order : OrderEntry
approved_order = step site (approved (pos 2)) direct

approves : approve site (pos 2) direct ≡ ok approved_order
unfolding step send_for_review submit on_instance_update approve eq_value
approves = refl

Decides-once_example : ¬ Decides site (pos 2) approved_order approved_order
Decides-once_example = Decides-once site site (pos 2) direct (inl approves)
