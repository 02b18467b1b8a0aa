-- ===== src/Workflow/Runtime/Complete.antt =====
-- `complete_workflow_task` of asoud_erp/api/v1/workflow_runtime.py, for tasks without the version-1
-- action contract: a decision on a task, and what it does to the instance.
use frappe_erp_next.Prelude.{
  find, ℕ, String, Bool, true, false, not, ◌&&◌, ◌||◌, Option, none, some, List, [], ◌∷◌, ◌==◌, eqb,
  map, if◌then◌else◌, select, length,
}
use frappe_erp_next.Prelude.Result.{Result, ok, err, ◌>>=◌, ◌>>◌, check_all}
use frappe_erp_next.Python.{Fields, bool, str, end, get, get_or, str_is, strip, is_blank, truthy}
use frappe_erp_next.Workflow.Design.{approval, Stage}
use frappe_erp_next.Workflow.History.{select_return_stage}
use frappe_erp_next.Workflow.Runtime.Route.{next_stage}
use frappe_erp_next.Workflow.Runtime.Activate.{has_contract, activate, close}
use frappe_erp_next.Workflow.Runtime.Lookup.{completed_rows}
use frappe_erp_next.Workflow.Runtime.State.{
  InstanceStatus, TaskStatus, Task, Engine, EngineError, Site, no_access, generic_only, versioned,
  not_owner, not_open, invalid_action, wrong_action, self_approval, comment_required,
  reason_required, reject_not_allowed, return_not_allowed, no_return_stage, no_next_stage,
  lift_route, get_stage, config_of, is_open, open_at, cancel_open, record_activity, notify_user,
}

pub data Decision : Type 0 where
  complete approve reject return : Decision

abbrev pub action_name : Decision → String
action_name complete = "Complete"
action_name approve = "Approve"
action_name reject = "Reject"
action_name return = "Return"

-- `action in {"Complete", "Approve", "Reject", "Return"}`
abbrev pub decision_of : String → Result EngineError Decision
decision_of action =
    if action == "Complete"
    then ok complete
    else if action == "Approve"
    then ok approve
    else if action == "Reject"
    then ok reject
    else if action == "Return"
    then ok return
    else err invalid_action

abbrev pub is_approval : Stage → Bool
is_approval stage = elim stage.stage_type [ approval ↦ true | _ ↦ false ]

-- `action in allowed_actions`
abbrev pub is_allowed : Stage → Decision → Bool
is_allowed stage complete = not (is_approval stage)
is_allowed stage approve = is_approval stage
is_allowed stage _ = true

abbrev pub is_forward : Decision → Bool
is_forward complete = true
is_forward approve = true
is_forward _ = false

abbrev pub is_reject : Decision → Bool
is_reject reject = true
is_reject _ = false

abbrev pub is_return : Decision → Bool
is_return return = true
is_return _ = false

-- `_assert_task_owner(doc)`: what raises, and the error.
abbrev pub owner_guards : Site → Task → List (Bool × EngineError)
owner_guards site task =
    (not (site.has_access task), no_access) ∷ (not (task.assigned_to == site.user), not_owner) ∷ []

-- `reject_generic(original)` and `_assert_task_owner(original)`
abbrev pub entry_guards : Site → Task → List (Bool × EngineError)
entry_guards site task = (site.rejects task, generic_only) ∷ owner_guards site task

-- `json.loads(frappe.db.get_value('ASOUD Workflow Stage', ..., 'config_json') or '{}')`: a stage
-- that is missing gives no value.
abbrev pub original_config : List Stage → String → Result EngineError Fields
original_config stages name = elim (find (λ s. s.name == name) stages) [
  | some s ↦ config_of s
  | none ↦ ok end
]

-- What is tested before the stage is read. A task of the version-1 action contract is left to
-- services/workflow_user_action.py, outside of this model: `versioned`.
abbrev pub first_guards : Fields → List (Bool × EngineError)
first_guards original = (has_contract original, versioned) ∷ []

abbrev pub open_guards : Task → List (Bool × EngineError)
open_guards task = (not (is_open task), not_open) ∷ []

-- The guards of the decision, in order.
abbrev pub guard_list :
    Site → Engine → Task → Stage → Fields → Decision → String → List (Bool × EngineError)
guard_list site e task stage config decision comment =
    (not (is_allowed stage decision), wrong_action)
    ∷ (is_approval stage && (e.started_by == site.user), self_approval)
    ∷ (truthy (get config "comment_required") && is_blank comment, comment_required)
    ∷ (not (is_forward decision) && is_blank comment, reason_required)
    ∷ (
      is_reject decision && not (truthy (get_or config "allow_reject" (bool false))),
      reject_not_allowed,
    )
    ∷ (
      is_return decision && not (truthy (get_or config "allow_return" (bool false))),
      return_not_allowed,
    )
    ∷ []

abbrev pub guards :
    Site → Engine → Task → Stage → Fields → Decision → String → Result EngineError (Unit {0})
guards site e task stage config decision comment =
    check_all (guard_list site e task stage config decision comment)

abbrev pub replace_task : Task → List Task → List Task
replace_task t = map (λ u. if eqb u.name t.name then t else u)

-- `doc.save()`, the activity and the note to the initiator
abbrev pub close_task : Site → Task → Decision → Engine → Engine
close_task site done decision e = notify_user site e.started_by (
    record_activity site done (action_name decision) done.comment
      (record e { tasks = replace_task done e.tasks }))

-- The document that the last open task of a stage leaves when it is completed.
abbrev pub leaves_output : Engine → Task → Fields → Decision → Bool
leaves_output e task config complete =
    not (str_is "Existing" (get_or config "task_purpose" (str "Existing")))
    && eqb (length (select (open_at task.workflow_stage) e.tasks)) 1
leaves_output e task config _ = false

abbrev pub add_output : Site → Task → Option String → Engine → Engine
add_output site task none e = e
add_output site task (some text) e = record_activity site task "Created Output" text e

abbrev pub output_step :
    Site → Task → Fields → Decision → Fields → Engine → Result EngineError Engine
output_step site task config decision response e =
    if leaves_output e task config decision
    then (do made ← site.create_output e task config response; ok (add_output site task made e))
    else ok e

abbrev pub respond_step :
    Site → Stage → Fields → Decision → Fields → Engine → Result EngineError Fields
respond_step site stage config decision raw e =
    if is_forward decision then site.respond e stage config raw else ok end

-- `response if response is not None else json.loads(doc.draft_json or "{}")`
abbrev pub given : Task → Option Fields → Fields
given task none = task.draft
given task (some response) = response

-- The rows of `_completed_task_rows(instance, exclude_task=doc.name)`.
abbrev pub without_task : ℕ → Engine → Engine
without_task name e = record e { tasks = select (λ t. not (eqb t.name name)) e.tasks }

module _ (fuel : ℕ) (site : Site) (task : Task) where
  abbrev pub enter_named : Option Task → String → Engine → Result EngineError Engine
  enter_named source name e = do
    stage ← get_stage site.stages name
    activate fuel site source stage e

  abbrev pub after_reject : Option String → Engine → Result EngineError Engine
  after_reject (some target) e = enter_named (some task) target e
  after_reject none e = ok (close site InstanceStatus.rejected e)

  abbrev pub enter_found : Option String → Engine → Result EngineError Engine
  enter_found none e = err no_return_stage
  enter_found (some name) e = enter_named none name e

  abbrev pub after_return : Option String → Engine → Result EngineError Engine
  after_return (some target) e = enter_named (some task) target e
  after_return none e = do
    rows ← completed_rows site (without_task task.name e)
    enter_found (select_return_stage rows) e

  abbrev pub after_forward : Option String → Engine → Result EngineError Engine
  after_forward (some target) e = enter_named (some task) target e
  after_forward none e = err no_next_stage

  abbrev pub cancelled_here : Engine → Engine
  cancelled_here e = record e { tasks = cancel_open task.workflow_stage e.tasks }

  abbrev pub is_any : Fields → Bool
  is_any config = str_is "Any" (get config "approval_mode")

  -- What follows once the task itself is closed.
  abbrev pub proceed : Fields → Decision → Engine → Result EngineError Engine
  proceed config reject e = do
    target ← lift_route (next_stage site.py site.transitions task.workflow_stage (some "Reject"))
    after_reject target (cancelled_here e)
  proceed config return e = do
    target ← lift_route (next_stage site.py site.transitions task.workflow_stage (some "Return"))
    after_return target (cancelled_here e)
  proceed config decision e =
      if eqb (length (select (open_at task.workflow_stage) e.tasks)) 0 || is_any config
      then (do
        target ←
            lift_route (
              next_stage site.py site.transitions task.workflow_stage (some (action_name decision)))
        after_forward target (if is_any config then cancelled_here e else e))
      else ok e

-- `doc` as the call leaves it
abbrev pub decided : Site → Task → Decision → String → Fields → Task
decided site task decision comment response = record task {
  status = if is_reject decision then TaskStatus.rejected else TaskStatus.completed;
  action = action_name decision;
  comment = strip comment;
  response = response;
  completed_on = site.now;
}

-- `complete_workflow_task(task, action, comment, response)`
unfoldable pub complete_workflow_task :
    ℕ → Site → Engine → Task → String → String → Option Fields → Result EngineError Engine
complete_workflow_task fuel site e task action comment raw = do
  check_all (entry_guards site task)
  original ← original_config site.stages task.workflow_stage
  check_all (first_guards original)
  decision ← decision_of action
  check_all (open_guards task)
  stage ← get_stage site.stages task.workflow_stage
  config ← config_of stage
  guards site e task stage config decision comment
  response ← respond_step site stage config decision (given task raw) e
  made ← output_step site task config decision response e
  proceed fuel site (decided site task decision comment response) config decision
      (close_task site (decided site task decision comment response) decision made)
