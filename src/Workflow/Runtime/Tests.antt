-- ===== src/Workflow/Runtime/Tests.antt =====
-- Runs of the engine on the sample design: a filled form, its approval, and a rejection.
mod Cycle
mod Deadlines
mod Draft
mod Launch
use frappe_erp_next.Prelude.{
  ℕ, String, ◌≡◌, ◌<◌, refl, Bool, true, false, not, ◌||◌, Option, none, some, List, [], ◌∷◌, ◌==◌,
  ltb, arith, if◌then◌else◌, In, here, there, all, any, all-In, is_empty, eq_iff,
}
use frappe_erp_next.Prelude.Int.{pos}
use frappe_erp_next.Prelude.Result.{Result, ok, err}
use frappe_erp_next.Python.{Fields, str, bool, list, nil, cons, end, field, strip}
use frappe_erp_next.Workflow.Design.{
  start, user_task, approval, condition, system_action, end_stage, Stage, Transition,
}
use frappe_erp_next.Workflow.Design.{valid_saved_stage, valid_saved_routes}
use frappe_erp_next.Workflow.Graph.{walk, grow}
use frappe_erp_next.Workflow.Graph.Walk.{reached_from}
use frappe_erp_next.Workflow.Graph.Grow.{can_finish}
use frappe_erp_next.Workflow.Activation.{activation_requirements}
use frappe_erp_next.Workflow.Activation.Ready.{routes_from}
use frappe_erp_next.Workflow.Condition.{evaluate_condition, select_boolean_transition}
use frappe_erp_next.Workflow.History.{merge_completed_responses}
use frappe_erp_next.Workflow.Tests.{
  python, checks, stage_of, edge, stages, transitions, nothing_missing,
}
use frappe_erp_next.Workflow.Runtime.Route.{next_stage, system_route}
use frappe_erp_next.Workflow.Runtime.Assign.{
  Directory, assignment_values, users_for_stage, users_for_roles,
}
use frappe_erp_next.Workflow.Runtime.Lookup.{latest_form_value, task_deadlines, completed_rows}
use frappe_erp_next.Workflow.Runtime.Activate.{activate, assignees, others_than, string_items}
use frappe_erp_next.Workflow.Runtime.Complete.{complete_workflow_task}
use frappe_erp_next.Workflow.Runtime.State.{
  InstanceStatus, open_task, running, no_reference, Task, Engine, EngineError, Site, out_of_fuel,
  get_stage, open_at,
}
use frappe_erp_next.Workflow.Runtime.Progress.{
  activated-next_stage, activated-condition, activated-system_route,
}
use frappe_erp_next.Workflow.Runtime.Cycle.{PassesTo, activate-cycle}
use frappe_erp_next.Workflow.Runtime.Depth.{
  IsAcyclic, DeepEnough, is_automatic, activate-enough_fuel,
}
use frappe_erp_next.Workflow.Runtime.Duty.{
  complete_workflow_task-self_approval, complete_workflow_task-reject_ends, assignees-separated,
}

abbrev pub directory : Directory
directory = record {
  employees = [];
  role_rows =
      record { role = "Director"; user = "dana" } ∷ record { role = "Director"; user = "eli" } ∷ [];
  disabled = [];
}

abbrev pub site_for : List Stage → List Transition → String → Site
site_for rows edges user = record {
  py = python;
  stages = rows;
  transitions = edges;
  directory = directory;
  company = "";
  user = user;
  now = pos 100;
  execute = λ e s c. record { success = true; comment = "done"; told = [] };
  contract_users = λ e s. ok ("dana" ∷ []);
  schedule = λ e s c. ok e;
  respond = λ e s c raw. ok raw;
  rejects = λ t. false;
  has_access = λ t. true;
  create_output = λ e t c r. ok none;
}

abbrev pub site : String → Site
site = site_for stages transitions

abbrev pub amount : Fields
amount = field "amount" (str "7") end

abbrev pub task : ℕ → String → String → Task
task n stage user = record {
  name = n;
  workflow_stage = stage;
  assigned_to = user;
  status = open_task;
  action = "";
  comment = "";
  draft = end;
  response = end;
  due_on = none;
  reminder_on = none;
  reminder_sent_on = none;
  escalated_on = none;
  completed_on = pos 0;
}

-- An instance that `starter` began, with one open task.
abbrev pub engine : String → Task → Engine
engine starter t = record {
  started_by = starter;
  reference = record { kind = no_reference; columns = end; values = end };
  current_stage = t.workflow_stage;
  status = running;
  completed_on = none;
  tasks = t ∷ [];
  next_task = 2;
  activities = [];
  notified = [];
}

abbrev pub or_blank : Result EngineError Engine → Engine
or_blank (ok e) = e
or_blank (err x) = engine "" (task 0 "" "")

abbrev pub fill_row : Stage
fill_row = stage_of "fill" user_task (field "assignment_type" (str "Initiator") end)

-- The form is completed: the engine passes the condition and opens an approval for each director.
abbrev filled : Engine
unfolding complete_workflow_task
filled = or_blank (
    complete_workflow_task 3 (site "ann") (engine "ann" (task 1 "fill" "ann")) (task 1 "fill" "ann")
      "Complete" "" (some amount))

filled_ok :
    complete_workflow_task 3
      (site "ann")
      (engine "ann" (task 1 "fill" "ann"))
      (task 1 "fill" "ann")
      "Complete"
      ""
      (some amount)
    ≡ ok filled
unfolding complete_workflow_task activate next_stage completed_rows latest_form_value
    evaluate_condition select_boolean_transition task_deadlines users_for_stage users_for_roles
    assignment_values merge_completed_responses strip
filled_ok = refl

filled_stage : filled.current_stage ≡ "sign"
unfolding complete_workflow_task activate next_stage completed_rows latest_form_value
    evaluate_condition select_boolean_transition task_deadlines users_for_stage users_for_roles
    assignment_values merge_completed_responses strip
filled_stage = refl

abbrev refused : Engine
unfolding complete_workflow_task
refused = or_blank (
    complete_workflow_task 3 (site "dana") (engine "ann" (task 1 "sign" "dana"))
      (task 1 "sign" "dana") "Reject" "no" none)

refused_ok :
    complete_workflow_task 3
      (site "dana")
      (engine "ann" (task 1 "sign" "dana"))
      (task 1 "sign" "dana")
      "Reject"
      "no"
      none
    ≡ ok refused
unfolding complete_workflow_task next_stage strip
refused_ok = refl

alone : next_stage python transitions "sign" (some "Reject") ≡ ok none
unfolding next_stage
alone = refl

complete_workflow_task-reject_ends_example :
    (refused.status ≡ InstanceStatus.rejected)
    × (refused.completed_on ≡ some (pos 100))
    × (any (open_at "sign") refused.tasks ≡ false)
complete_workflow_task-reject_ends_example =
    complete_workflow_task-reject_ends 3 (site "dana") (engine "ann" (task 1 "sign" "dana"))
      (task 1 "sign" "dana") "no" none alone refused_ok

abbrev sign_row : Stage
sign_row = stage_of "sign" approval (
    field "assignment_type" (str "Role") (
      field "approver_roles" (list (cons (str "Director") nil))
        (field "allow_reject" (bool true) end)))

-- The director who started the instance cannot approve it.
complete_workflow_task-self_approval_example : ¬ (
    (e' : Engine) × (complete_workflow_task 3
        (site "dana")
        (engine "dana" (task 1 "sign" "dana"))
        (task 1 "sign" "dana")
        "Approve"
        ""
        none
      ≡ ok e'))
complete_workflow_task-self_approval_example =
    complete_workflow_task-self_approval 3 (site "dana") (engine "dana" (task 1 "sign" "dana"))
      (task 1 "sign" "dana") sign_row "Approve" "" none refl refl refl

-- Nobody but the initiator.
assignees-separated_example :
    (is_empty (others_than "dana" ("dana" ∷ [])) ≡ true)
    × (is_empty (others_than "dana" (users_for_roles directory (string_items (str "")))) ≡ true)
    × ((assignees (site "dana") (engine "dana" (task 1 "sign" "dana")) approval end ("dana" ∷ [])).1
        ≡ true)
unfolding users_for_roles
assignees-separated_example =
    assignees-separated (site "dana") (engine "dana" (task 1 "sign" "dana")) end ("dana" ∷ []) refl

activated-next_stage_example :
    (s : Stage) × (target : String) × In s stages
    × (next_stage python transitions "fill" (some "Complete") ≡ ok (some target))
    × (get_stage stages target ≡ ok s)
activated-next_stage_example =
    activated-next_stage python checks stages transitions nothing_missing fill_row "Complete"
      (there here) refl

abbrev check_row : Stage
check_row = stage_of "check" condition (
    field "source_kind" (str "Form")
      (field "source_field" (str "amount") (field "operator" (str "Is Set") end)))

named : (e : Transition) → In e transitions → (e.to_stage == "") ≡ false
named e m = flip (e.to_stage == "") (all-In (λ d. not (d.to_stage == "")) transitions refl m)
  where
    flip : (b : Bool) → not b ≡ true → b ≡ false
    flip false h = refl
    flip true h = cc

activated-condition_example :
    (s : Stage) × (target : String) × In s stages
    × (select_boolean_transition (routes_from transitions "check") false ≡ ok target)
    × (get_stage stages target ≡ ok s)
activated-condition_example =
    activated-condition python checks stages transitions nothing_missing check_row false
      (there (there here)) refl named

abbrev post_row : Stage
post_row = stage_of "post" system_action (field "action_type" (str "Notify") end)

-- The sample's case folding empties no text that is not empty.
unfolds : (s : String) → python.casefold s ≡ "" → s ≡ ""
unfolds s h = go (s == "Complete") (s == "Approve") (s == "Success") (s == "Error") h
  where
    go :
        (a b c d : Bool)
        → (if a
            then "complete"
            else if b
            then "approve"
            else if c
            then "success"
            else if d
            then "error"
            else s)
          ≡ ""
        → s ≡ ""
    go false false false false h = h
    go true b c d h = cc
    go false true c d h = cc
    go false false true d h = cc
    go false false false true h = cc

activated-system_route_example :
    (s : Stage) × (target : String) × In s stages
    × (system_route python transitions "post" "Success" ≡ ok (some target))
    × (get_stage stages target ≡ ok s)
activated-system_route_example =
    activated-system_route python checks stages transitions nothing_missing post_row
      (there (there (there (there here)))) refl unfolds

-- The ranks of the automatic stages.
abbrev rank : String → ℕ
rank name = if (name == "check") || (name == "post") then 1 else 0

abbrev lowers_all : Bool
lowers_all =
    all
      (λ s.
        all
          (λ e.
            not (is_automatic s)
            || not (e.from_stage == s.name)
            || ltb (rank e.to_stage) (rank s.name))
          transitions)
      stages

acyclic : IsAcyclic (site "ann") rank
acyclic = record {
  lowers = λ s e m n auto from.
      below (is_automatic s) (e.from_stage == s.name) (rank e.to_stage) (rank s.name) auto
        ((eq_iff e.from_stage s.name).1 from)
        (all-In
          (λ d.
            not (is_automatic s)
            || not (d.from_stage == s.name)
            || ltb (rank d.to_stage) (rank s.name))
          transitions
          (all-In
            (λ t.
              all
                (λ d.
                  not (is_automatic t)
                  || not (d.from_stage == t.name)
                  || ltb (rank d.to_stage) (rank t.name))
                transitions)
            stages refl m)
          n);
  scheduled = λ e s c q. cc;
  contracted = λ e s q. cc;
}
  where
    below :
        (a b : Bool) (x y : ℕ) → a ≡ true → b ≡ true → (not a || not b || ltb x y) ≡ true → x < y
    below a b x y p q h = ground arith

activate-enough_fuel_example :
    DeepEnough (activate 2 (site "ann") none check_row (engine "ann" (task 1 "fill" "ann")))
activate-enough_fuel_example =
    activate-enough_fuel (site "ann") none rank acyclic 2 check_row
      (engine "ann" (task 1 "fill" "ann")) (there (there here)) (omega arith)
