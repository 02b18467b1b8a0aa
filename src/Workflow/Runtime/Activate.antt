-- ===== src/Workflow/Runtime/Activate.antt =====
-- `_activate_stage` and `_run_system_action` of asoud_erp/api/v1/workflow_runtime.py.
-- `_activate_stage` calls itself along Condition and System Action stages: the fuel bounds the
-- stages entered. What raises ends the whole call, and its transaction is rolled back: `err`.
use Prim.Native.String.{◌++◌ as ◌<>◌}
use mathlib.Core.List.{reverse}
use frappe_erp_next.Prelude.{
  ℕ, zero, suc, String, Bool, true, false, not, ◌&&◌, ◌||◌, Option, none, some, List, [], ◌∷◌, ◌==◌,
  eqb, if◌then◌else◌, select, contains, is_empty,
}
use frappe_erp_next.Prelude.Int.{ℤ, pos}
use frappe_erp_next.Prelude.Result.{Result, ok, err, ◌>>=◌}
use frappe_erp_next.Python.{
  Value, Items, Fields, null, int, str, list, dict, nil, cons, end, field, get, get_or, get_by,
  update, str_of, str_is, clip, truthy, Python,
}
use frappe_erp_next.Workflow.Design.{
  StageType, start, user_task, approval, condition, system_action, wait, end_stage, Stage, is_one,
}
use frappe_erp_next.Workflow.Condition.{
  ConditionError, invalid_operator, evaluate_condition, select_boolean_transition,
}
use frappe_erp_next.Workflow.History.{merge_completed_responses}
use frappe_erp_next.Workflow.Activation.Ready.{routes_from}
use frappe_erp_next.Workflow.Runtime.Route.{system_route}
use frappe_erp_next.Workflow.Runtime.Assign.{users_for_stage, users_for_roles}
use frappe_erp_next.Workflow.Runtime.Lookup.{latest_form_value, task_deadlines, completed_rows}
use frappe_erp_next.Workflow.Runtime.State.{
  InstanceStatus, Task, Reference, Engine, EngineError, Site, no_reference, workflow_request,
  failed, open_task, no_next_stage, not_executable, out_of_fuel, lift_route, lift_condition,
  lift_assign, get_stage, config_of, record_activity, notify_user,
}

-- The status of an instance whose End stage has this outcome.
abbrev pub outcome_status : Value → InstanceStatus
outcome_status (str o) =
    if o == "Completed"
    then InstanceStatus.completed
    else if o == "Rejected"
    then InstanceStatus.rejected
    else if (o == "Cancelled") || (o == "Stopped")
    then InstanceStatus.cancelled
    else failed
outcome_status _ = failed

abbrev pub close : Site → InstanceStatus → Engine → Engine
close site st e = record e { status = st; completed_on = some site.now }

abbrev pub task_name : Option Task → Option ℕ
task_name none = none
task_name (some t) = some t.name

-- An activity of a stage that no task stands for.
abbrev pub stage_activity : Site → Option Task → Stage → String → String → Engine → Engine
stage_activity site source stage action comment e = record e {
  activities =
      record {
        workflow_task = task_name source;
        workflow_stage = stage.name;
        actor = site.user;
        action = action;
        comment = comment;
      }
      ∷ e.activities;
}

abbrev pub has_reference : Reference → Bool
has_reference r = elim r.kind [ no_reference ↦ false | _ ↦ true ]

-- The value that a Condition stage tests.
abbrev pub actual_value : Engine → Fields → Option Task → Value
actual_value e config source =
    if str_is "Form" (get config "source_kind")
    then latest_form_value e (get config "source_field") source
    else if has_reference e.reference
    then get_by e.reference.columns (get config "source_field")
    else null

abbrev pub test_of : Python → Value → Value → Value → Result ConditionError Bool
test_of py (str operator) actual expected = evaluate_condition py operator actual expected
test_of py _ actual expected = err invalid_operator

-- The rest of `_activate_stage` for a further stage.
abbrev pub Onward : Type 0
Onward = Stage → Engine → Result EngineError Engine

module _ (site : Site) (source : Option Task) (onward : Onward) where
  abbrev pub enter_condition : Stage → Fields → Engine → Result EngineError Engine
  enter_condition stage config e = do
    let actual = actual_value e config source
    result ←
        lift_condition (test_of site.py (get config "operator") actual (get config "compare_value"))
    destination ←
        lift_condition (select_boolean_transition (routes_from site.transitions stage.name) result)
    next ← get_stage site.stages destination
    onward next (
        stage_activity site source stage (if result then "Condition True" else "Condition False")
          (str_of site.py (get config "source_field") <> " = " <> str_of site.py actual) e)

  abbrev pub told : List String → Engine → Engine
  told [] e = e
  told (u ∷ us) e = told us (notify_user site u e)

  -- After the action: the route of its outcome; a success without one raises, a failure without one
  -- ends the instance as Failed and tells the System Managers.
  abbrev pub after_action : Bool → Option String → Engine → Result EngineError Engine
  after_action success (some target) e = do next ← get_stage site.stages target; onward next e
  after_action true none e = err no_next_stage
  after_action false none e =
      ok (told (users_for_roles site.directory ("System Manager" ∷ [])) (close site failed e))

  -- `_run_system_action`
  abbrev pub run_system_action : Stage → Fields → Engine → Result EngineError Engine
  run_system_action stage config e = do
    let done = site.execute e stage config
    target ← lift_route (
        system_route site.py site.transitions stage.name
          (if done.success then "Success" else "Error"))
    after_action done.success target (
        stage_activity site source stage
          (if done.success then "System Action Succeeded" else "System Action Failed")
          (clip 1000 done.comment) (if done.success then told done.told e else e))

-- The keys of the stage's form fields.
abbrev pub field_keys : Items → List String
field_keys nil = []
field_keys (cons (dict f) fs) = elim (get f "key") [ str k ↦ k ∷ field_keys fs | _ ↦ field_keys fs ]
field_keys (cons _ fs) = field_keys fs

abbrev pub form_keys : Fields → List String
form_keys config = elim (get config "form_fields") [ list fs ↦ field_keys fs | _ ↦ [] ]

-- `{key: value for key, value in values.items() if key in keys}`
abbrev pub restrict : List String → Fields → Fields
restrict keys end = end
restrict keys (field k v r) =
    let rest = restrict keys r in if contains keys k then field k v rest else rest

abbrev pub request_values : Reference → Fields
request_values r = elim r.kind [ workflow_request ↦ r.values | _ ↦ end ]

abbrev pub others_than : String → List String → List String
others_than user = select (λ u. not (u == user))

-- The texts of a list, as `config.get(...) or []` gives them to a query.
abbrev pub texts_of : Items → List String
texts_of nil = []
texts_of (cons (str s) vs) = s ∷ texts_of vs
texts_of (cons _ vs) = texts_of vs

abbrev pub string_items : Value → List String
string_items (list vs) = texts_of vs
string_items _ = []

-- The assignees, and whether the initiator is the only one there is: an approval goes to the other
-- users of the stage, else to the other users of its escalation roles.
abbrev pub assignees : Site → Engine → StageType → Fields → List String → List String × Bool
assignees site e approval config users =
    let others = others_than e.started_by users in
    let escalated =
      others_than e.started_by
        (users_for_roles site.directory (string_items (get config "escalation_roles"))) in
    if contains users e.started_by
    then (if not (is_empty others)
        then (others, false)
        else if not (is_empty escalated)
        then (escalated, false)
        else (users, true))
    else (users, false)
assignees site e _ config users = (users, false)

module _ (site : Site) (stage : Stage) (contract shared : Bool) (drafts : Fields)
    (due_on reminder_on : Option ℤ) where
  abbrev pub new_task : ℕ → String → Task
  new_task name user = record {
    name = name;
    workflow_stage = stage.name;
    assigned_to = user;
    status = open_task;
    action = if contract && shared then "Awaiting Claim" else "";
    comment = "";
    draft = drafts;
    response = end;
    due_on = due_on;
    reminder_on = reminder_on;
    reminder_sent_on = none;
    escalated_on = none;
    completed_on = pos 0;
  }

  abbrev pub add_task : String → Engine → Engine
  add_task user e =
      let task = new_task e.next_task user in
      let added = record e { tasks = task ∷ e.tasks; next_task = suc e.next_task } in
      notify_user site user
        (if contract then record_activity site task "Assigned" "" added else added)

  abbrev pub add_tasks : List String → Engine → Engine
  add_tasks [] e = e
  add_tasks (u ∷ us) e = add_tasks us (add_task u e)

-- The note on the last task, when nobody but the initiator can be assigned.
abbrev pub note_owner_only : Site → Engine → Engine
note_owner_only site e = elim e.tasks [ [] ↦ e | t ∷ _ ↦ record_activity site t "Note" "" e ]

abbrev pub is_shared : Fields → Bool
is_shared config = elim (get config "assignment_rule") [
  | dict rule ↦ str_is "Shared" (get rule "delivery")
  | _ ↦ false
]

abbrev pub has_contract : Fields → Bool
has_contract config = is_one (get config "action_contract_version")

abbrev pub is_user_task_stage : Stage → Bool
is_user_task_stage stage = elim stage.stage_type [ user_task ↦ true | _ ↦ false ]

-- `_users_for_stage`, the branch of the version-1 action contract included
abbrev pub stage_users : Site → Engine → Stage → Fields → Result EngineError (List String)
stage_users site e stage config =
    if is_user_task_stage stage && has_contract config
    then site.contract_users e stage
    else lift_assign
        (users_for_stage site.py site.directory site.company e.started_by stage.stage_type config)

-- A User Task or an Approval: one open task for each assignee.
abbrev pub enter_task : Site → Stage → Fields → Engine → Result EngineError Engine
enter_task site stage config e = do
  rows ← completed_rows site e
  let values = update (request_values e.reference) (merge_completed_responses (reverse rows))
  (due_on, reminder_on) ← task_deadlines site.py site.now config
  users ← stage_users site e stage config
  let (people, owner_only) = assignees site e stage.stage_type config users
  let drafts =
      if truthy (get config "form_fields") && not (has_contract config)
      then restrict (form_keys config) values
      else end
  let opened =
      add_tasks site stage (has_contract config) (is_shared config) drafts due_on reminder_on people
        e
  ok (if owner_only then note_owner_only site opened else opened)

-- `value == 2`
abbrev pub is_two : Value → Bool
is_two (int (pos n)) = eqb n 2
is_two _ = false

module _ (site : Site) (source : Option Task) (onward : Onward) where
  abbrev pub enter_kind : StageType → Stage → Fields → Engine → Result EngineError Engine
  enter_kind end_stage stage config e =
      ok (close site (outcome_status (get_or config "outcome" (str "Completed"))) e)
  enter_kind condition stage config e = enter_condition site source onward stage config e
  enter_kind system_action stage config e =
      if is_two (get config "schema_version")
      then site.schedule e stage config
      else run_system_action site source onward stage config e
  enter_kind user_task stage config e = enter_task site stage config e
  enter_kind approval stage config e = enter_task site stage config e
  enter_kind start stage config e = err not_executable
  enter_kind wait stage config e = err not_executable

  abbrev pub enter : Stage → Engine → Result EngineError Engine
  enter stage e = do
    config ← config_of stage
    enter_kind stage.stage_type stage config (record e { current_stage = stage.name })

-- `_activate_stage(instance, stage, source_task)`
unfoldable pub activate : ℕ → Site → Option Task → Stage → Engine → Result EngineError Engine
activate zero site source stage e = err out_of_fuel
activate (suc fuel) site source stage e = enter site source (activate fuel site source) stage e
