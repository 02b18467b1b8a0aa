-- ===== src/Workflow/Runtime/Tests/Launch.antt =====
-- A design whose form is started by hand, and a manager who starts a record again.
use frappe_erp_next.Prelude.{ℕ, ◌≡◌, refl, true, none, some, [], ◌∷◌, arith}
use frappe_erp_next.Prelude.Int.{pos}
use frappe_erp_next.Prelude.Result.{Result, ok, err}
use frappe_erp_next.Python.{Fields, str, bool, int, list, nil, cons, end, field, strip}
use frappe_erp_next.Workflow.Design.{start}
use frappe_erp_next.Workflow.Start.{start_decision, validate_request_id}
use frappe_erp_next.Workflow.Tests.{stage_of, transitions}
use frappe_erp_next.Workflow.Runtime.Route.{next_stage}
use frappe_erp_next.Workflow.Runtime.Assign.{assignment_values, users_for_stage, users_for_roles}
use frappe_erp_next.Workflow.Runtime.Lookup.{completed_rows, task_deadlines}
use frappe_erp_next.Workflow.Runtime.Activate.{activate}
use frappe_erp_next.Workflow.Runtime.State.{InstanceStatus, Site, no_reference}
use frappe_erp_next.Workflow.Runtime.Launch.{Instance, Store, Args, Office, LaunchError}
use frappe_erp_next.Workflow.Runtime.Launch.Create.{start_workflow_instance}
use frappe_erp_next.Workflow.Runtime.Launch.Once.{
  OneRunning, running_for, start_workflow_instance-OneRunning,
}
use frappe_erp_next.Workflow.Runtime.Launch.Retry.{start_workflow_instance_retry}
use frappe_erp_next.Workflow.Runtime.Tests.{site_for, engine, task, fill_row}

abbrev manual : Fields
manual = field "start_settings_version" (int (pos 1)) (
    field "trigger_type" (str "Manual") (
      field "initiator_roles" (list (cons (str "Clerk") nil))
        (field "allow_manager_restart" (bool true) end)))

abbrev started_site : Site
started_site = site_for (stage_of "begin" start manual ∷ fill_row ∷ []) transitions "ann"

abbrev office : Office
office = record {
  definition = record {
    company = "";
    status = "Active";
    readiness_status = "Ready";
    source_form = "";
    target_doctype = "Invoice";
  };
  roles = "Accounts Manager" ∷ [];
  may_write = true;
  in_company = true;
  assert_reference = λ name restart. err LaunchError.bad_reference;
  exists = λ t n. true;
  readable = λ t n. true;
  request = λ n. none;
  reference = λ t n. record { kind = no_reference; columns = end; values = end };
}

-- Ann starts invoice 5 again.
abbrev again : Args
again = record {
  definition = "Purchase";
  subject = "Invoice 5";
  reference_doctype = some "Invoice";
  reference_name = some "5";
  reason = str "sent back";
  restart = "1";
  request_id = some "retry-0001";
}

-- Its first instance is completed.
abbrev first : Instance
first = record {
  name = 0;
  workflow_definition = "Purchase";
  subject = "Invoice 5";
  reference_doctype = some "Invoice";
  reference_name = some "5";
  started = none;
  rows = record (engine "bob" (task 1 "fill" "bob")) { status = InstanceStatus.completed };
}

abbrev before : Store
before = record { instances = first ∷ []; next_name = 1 }

abbrev store_of : Result LaunchError (Store × ℕ) → Store
store_of (ok (st, n)) = st
store_of (err e) = before

abbrev after : Store
unfolding start_workflow_instance
after = store_of (start_workflow_instance 2 office started_site before again)

after_ok : start_workflow_instance 2 office started_site before again ≡ ok (after, 1)
unfolding start_workflow_instance validate_request_id start_decision activate next_stage
    task_deadlines users_for_stage users_for_roles assignment_values completed_rows strip
after_ok = refl

after_two : running_for "Purchase" "Invoice" "5" after ≡ 1
unfolding start_workflow_instance validate_request_id start_decision activate next_stage
    task_deadlines users_for_stage users_for_roles assignment_values completed_rows strip
after_two = refl

before-OneRunning : OneRunning before
before-OneRunning definition doctype name = ground arith

start_workflow_instance-OneRunning_example : OneRunning after
start_workflow_instance-OneRunning_example =
    start_workflow_instance-OneRunning 2 office started_site before again manual refl refl
      before-OneRunning after_ok

start_workflow_instance_retry_example :
    start_workflow_instance 2 office (record started_site { now = pos 200 }) after again
    ≡ ok (after, 1)
start_workflow_instance_retry_example =
    start_workflow_instance_retry 2 office started_site before again manual refl refl refl after_ok
      (pos 200)
