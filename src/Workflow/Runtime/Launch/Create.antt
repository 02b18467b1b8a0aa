-- ===== src/Workflow/Runtime/Launch/Create.antt =====
-- `start_workflow_instance` of asoud_erp/api/v1/workflow_runtime.py from the reference of the start
-- to the instance that it returns.
use frappe_erp_next.Prelude.{
  ℕ, suc, String, Bool, not, ◌&&◌, ◌||◌, Option, none, some, List, [], ◌∷◌, ◌==◌, ltb,
  if◌then◌else◌,
}
use frappe_erp_next.Prelude.Result.{Result, ok, err, ◌>>=◌, ◌>>◌, check_all}
use frappe_erp_next.Python.{Value, Fields, str, get_or, strip, len}
use frappe_erp_next.Workflow.Design.{Stage}
use frappe_erp_next.Workflow.Start.{StartMode, reuse}
use frappe_erp_next.Workflow.Runtime.Route.{next_stage}
use frappe_erp_next.Workflow.Runtime.Activate.{activate}
use frappe_erp_next.Workflow.Runtime.State.{
  Activity, Engine, EngineError, Site, running, no_next_stage, lift_route, get_stage,
}
use frappe_erp_next.Workflow.Runtime.Launch.{
  Definition, Started, Instance, Store, LaunchError, own_request_only, inactive, short_subject,
  wrong_doctype, no_document, not_readable, no_start_stage, Args, Office, is_entry, is_request,
  is_given, start_row, start_config_of, lift_engine, is_configured, is_manual, is_restarting,
  requester_only, argument_guards, setting_guards,
}
use frappe_erp_next.Workflow.Runtime.Launch.Existing.{repeated, request_guard, decided_start}
use frappe_erp_next.Workflow.Runtime.Launch.{text_of}

-- `assert_reference(...)`, for a start by a form entry; else the subject stays.
abbrev pub entry_subject : Office → Args → Result LaunchError String
entry_subject o a =
    if is_entry a then o.assert_reference a.reference_name (is_restarting a) else ok a.subject

abbrev pub is_ready : Definition → Bool
is_ready d = (d.status == "Active") && (d.readiness_status == "Ready")

-- What is tested before the definition is locked. A form entry was checked already.
abbrev pub reference_guards : Office → Args → Fields → String → List (Bool × LaunchError)
reference_guards o a config subject =
    (
      requester_only o
          && not (is_entry a)
          && not (is_manual config)
          && (not (is_request a) || not (is_given a.reference_name)),
      own_request_only,
    )
    ∷ (not (is_ready o.definition), inactive)
    ∷ (ltb (len (strip subject)) 3, short_subject)
    ∷ (
      is_given a.reference_name
          && not (is_entry a)
          && not (text_of a.reference_doctype == o.definition.target_doctype),
      wrong_doctype,
    )
    ∷ (
      is_given a.reference_name
          && not (o.exists (text_of a.reference_doctype) (text_of a.reference_name)),
      no_document,
    )
    ∷ (
      is_given a.reference_name
          && not (is_entry a)
          && not (o.readable (text_of a.reference_doctype) (text_of a.reference_name)),
      not_readable,
    )
    ∷ []

-- What the guards leave for the rest of the call.
pub record Prepared : Type 0 where
  pub start : Option Stage
  pub config : Fields
  pub subject : String

abbrev pub prepare : Office → Site → Args → Result LaunchError Prepared
prepare o site a = do
  check_all (argument_guards o a)
  config ← lift_engine (start_config_of (start_row site.stages))
  check_all (setting_guards site o a config)
  subject ← entry_subject o a
  check_all (reference_guards o a config subject)
  ok (record { start = start_row site.stages; config = config; subject = subject })

abbrev pub reason_text : Value → String
reason_text (str s) = strip s
reason_text _ = ""

abbrev pub name_of : Option Instance → Option ℕ
name_of none = none
name_of (some i) = some i.name

-- The activity "Workflow Started" of a configured start.
abbrev pub started_row : Site → Args → Fields → Option Instance → Option Started
started_row site a config existing =
    if is_configured config
    then some (record {
      actor = site.user;
      request_id = if is_given a.request_id then a.request_id else none;
      previous_instance = if is_restarting a then name_of existing else none;
      start_mode = get_or config "trigger_type" (str "Manual");
    })
    else none

abbrev pub started_activities : Site → Args → Fields → Stage → List Activity
started_activities site a config row =
    if is_configured config
    then record {
      workflow_task = none;
      workflow_stage = row.name;
      actor = site.user;
      action = "Workflow Started";
      comment = reason_text a.reason;
    }
      ∷ []
    else []

abbrev pub first_rows : Office → Site → Args → Fields → Stage → Engine
first_rows o site a config row = record {
  started_by = site.user;
  reference = o.reference a.reference_doctype a.reference_name;
  current_stage = "";
  status = running;
  completed_on = none;
  tasks = [];
  next_task = 0;
  activities = started_activities site a config row;
  notified = [];
}

abbrev pub entered : ℕ → Site → Option String → Engine → Result EngineError Engine
entered fuel site none e = err no_next_stage
entered fuel site (some target) e = do
  stage ← get_stage site.stages target
  activate fuel site none stage e

-- `_next_stage(instance, start)` and `_activate_stage(instance, stage)`
abbrev pub run_first : ℕ → Site → Stage → Engine → Result EngineError Engine
run_first fuel site row e = do
  target ← lift_route (next_stage site.py site.transitions row.name none)
  entered fuel site target e

abbrev pub make :
    ℕ
    → Office
    → Site
    → Args
    → Prepared
    → Option Instance
    → Store
    → Option Stage
    → Result LaunchError (Store × ℕ)
make fuel o site a p existing st none = err no_start_stage
make fuel o site a p existing st (some row) = do
  rows ← lift_engine (run_first fuel site row (first_rows o site a p.config row))
  ok (
    record {
      instances =
          record {
            name = st.next_name;
            workflow_definition = a.definition;
            subject = strip p.subject;
            reference_doctype = a.reference_doctype;
            reference_name = a.reference_name;
            started = started_row site a p.config existing;
            rows = rows;
          }
          ∷ st.instances;
      next_name = suc st.next_name;
    },
    st.next_name,
  )

abbrev pub finish :
    ℕ
    → Office
    → Site
    → Args
    → Prepared
    → Store
    → StartMode × Option Instance
    → Result LaunchError (Store × ℕ)
finish fuel o site a p st (reuse, some i) = ok (st, i.name)
finish fuel o site a p st (_, existing) = make fuel o site a p existing st p.start

abbrev pub continue :
    ℕ → Office → Site → Args → Prepared → Store → Option Instance → Result LaunchError (Store × ℕ)
continue fuel o site a p st (some i) = ok (st, i.name)
continue fuel o site a p st none = do
  check_all (request_guard site o a)
  decided ← decided_start o a p.config st
  finish fuel o site a p st decided

-- `start_workflow_instance(...)`: the rows after the call, and the name that it returns
unfoldable pub start_workflow_instance :
    ℕ → Office → Site → Store → Args → Result LaunchError (Store × ℕ)
start_workflow_instance fuel o site st a = do
  p ← prepare o site a
  continue fuel o site a p st (repeated site.user a st)
