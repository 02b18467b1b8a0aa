-- ===== src/Workflow/Runtime/State.antt =====
-- The rows that the engine of asoud_erp/api/v1/workflow_runtime.py reads and writes for one
-- instance, and what it takes from outside.
use frappe_erp_next.Prelude.{
  ℕ, String, Bool, true, false, ◌&&◌, ◌||◌, Option, none, some, List, ◌∷◌, ◌==◌, map, if◌then◌else◌,
  find,
}
use frappe_erp_next.Prelude.Int.{ℤ}
use frappe_erp_next.Prelude.Result.{Result, ok, err}
use frappe_erp_next.Python.{Fields, dict, Python}
use frappe_erp_next.Workflow.Design.{Stage, Transition}
use frappe_erp_next.Workflow.Condition.{ConditionError}
use frappe_erp_next.Workflow.Runtime.Route.{RouteError}
use frappe_erp_next.Workflow.Runtime.Assign.{AssignError, Directory}

pub data InstanceStatus : Type 0 where
  running completed rejected cancelled failed : InstanceStatus

pub data TaskStatus : Type 0 where
  open_task completed rejected cancelled : TaskStatus

-- A row of ASOUD Workflow Task. Times are numbers of minutes.
pub record Task : Type 0 where
  pub name : ℕ
  pub workflow_stage : String
  pub assigned_to : String
  pub status : TaskStatus
  pub action : String
  pub comment : String
  pub draft : Fields
  pub response : Fields
  pub due_on : Option ℤ
  pub reminder_on : Option ℤ
  pub reminder_sent_on : Option ℤ
  pub escalated_on : Option ℤ
  pub completed_on : ℤ

-- A row of ASOUD Workflow Activity.
pub record Activity : Type 0 where
  pub workflow_task : Option ℕ
  pub workflow_stage : String
  pub actor : String
  pub action : String
  pub comment : String

pub data ReferenceKind : Type 0 where
  no_reference workflow_request form_entry other_document : ReferenceKind

-- What the instance refers to: the columns of the record, and the form values that a request or a
-- form entry carries.
pub record Reference : Type 0 where
  pub kind : ReferenceKind
  pub columns : Fields
  pub values : Fields

-- What a system action did: whether it succeeded, its comment, and whom it notified.
pub record ActionResult : Type 0 where
  pub success : Bool
  pub comment : String
  pub told : List String

-- The rows of one instance; `notified` holds the users of the Notification Log, newest first.
pub record Engine : Type 0 where
  pub started_by : String
  pub reference : Reference
  pub current_stage : String
  pub status : InstanceStatus
  pub completed_on : Option ℤ
  pub tasks : List Task
  pub next_task : ℕ
  pub activities : List Activity
  pub notified : List String

pub data EngineError : Type 0 where
  route : RouteError → EngineError
  condition_error : ConditionError → EngineError
  assign : AssignError → EngineError
  bad_config bad_deadline no_stage no_next_stage not_executable out_of_fuel : EngineError
  no_access not_owner versioned not_open invalid_action wrong_action self_approval : EngineError
  comment_required reason_required reject_not_allowed return_not_allowed no_return_stage :
      EngineError
  bad_response generic_only : EngineError

-- What one call of the engine works with: the saved design (transitions in order of `sequence_no`),
-- the tables of people, the session's user, the clock, and seven calls of other modules:
-- `execute` runs a configured system action (no success when it raises one of the errors that
-- `_run_system_action` catches, and then it is rolled back), `schedule` hands a version-2 action to
-- the automatic runtime, `contract_users` assigns a task with the version-1 action contract,
-- `respond` normalises and validates a task's response, `rejects` says whether
-- `reject_generic` raises, `has_access` is the check of the record's permissions, and `create_output` creates the document that a task is configured to leave (its
-- text for the activity, or none).
pub record Site : Type 0 where
  pub py : Python
  pub stages : List Stage
  pub transitions : List Transition
  pub directory : Directory
  pub company : String
  pub user : String
  pub now : ℤ
  pub execute : Engine → Stage → Fields → ActionResult
  pub contract_users : Engine → Stage → Result EngineError (List String)
  pub schedule : Engine → Stage → Fields → Result EngineError Engine
  pub respond : Engine → Stage → Fields → Fields → Result EngineError Fields
  pub rejects : Task → Bool
  pub has_access : Task → Bool
  pub create_output : Engine → Task → Fields → Fields → Result EngineError (Option String)

abbrev pub lift_route {ℓ} : {A : Type ℓ} → Result RouteError A → Result EngineError A
lift_route (ok a) = ok a
lift_route (err e) = err (route e)

abbrev pub lift_condition {ℓ} : {A : Type ℓ} → Result ConditionError A → Result EngineError A
lift_condition (ok a) = ok a
lift_condition (err e) = err (condition_error e)

abbrev pub lift_assign {ℓ} : {A : Type ℓ} → Result AssignError A → Result EngineError A
lift_assign (ok a) = ok a
lift_assign (err e) = err (assign e)

-- `frappe.get_doc("ASOUD Workflow Stage", name)`
abbrev pub get_stage : List Stage → String → Result EngineError Stage
get_stage stages name = elim (find (λ s. s.name == name) stages) [
  | some s ↦ ok s
  | none ↦ err no_stage
]

-- `json.loads(stage.config_json or "{}")`, of which `.get` is called
abbrev pub config_of : Stage → Result EngineError Fields
config_of s = elim s.config [ some (dict c) ↦ ok c | _ ↦ err bad_config ]

abbrev pub is_open : Task → Bool
is_open t = elim t.status [ open_task ↦ true | _ ↦ false ]

-- The open tasks of a stage.
abbrev pub open_at : String → Task → Bool
open_at stage t = is_open t && (t.workflow_stage == stage)

abbrev pub set_status : TaskStatus → Task → Task
set_status st t = record t { status = st }

-- `frappe.db.set_value("ASOUD Workflow Task", {..., "status": "Open"}, "status", "Cancelled")`
abbrev pub cancel_open : String → List Task → List Task
cancel_open stage = map (λ t. if open_at stage t then set_status TaskStatus.cancelled t else t)

-- `_record_activity(task, action, comment)`
abbrev pub record_activity : Site → Task → String → String → Engine → Engine
record_activity site t action comment e = record e {
  activities =
      record {
        workflow_task = some t.name;
        workflow_stage = t.workflow_stage;
        actor = site.user;
        action = action;
        comment = comment;
      }
      ∷ e.activities;
}

-- `_notify_user(user, ...)`
abbrev pub notify_user : Site → String → Engine → Engine
notify_user site user e =
    if (user == "") || (user == "Guest") || (user == site.user)
    then e
    else record e { notified = user ∷ e.notified }
