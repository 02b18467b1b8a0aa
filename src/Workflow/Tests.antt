-- ===== src/Workflow/Tests.antt =====
-- A small design, and what activation says of it.
use frappe_erp_next.Prelude.{
  Bool, Has, ◌↔◌, String, ◌≡◌, refl, true, false, none, some, List, [], ◌∷◌, ◌==◌, if◌then◌else◌,
}
use frappe_erp_next.Python.{
  truthy, get, strip, Fields, bool, str, list, nil, cons, dict, end, field, Python,
}
use frappe_erp_next.Workflow.Design.{
  StageType, start, user_task, approval, condition, system_action, end_stage, Stage, Transition,
  Checks, valid_saved_stage, valid_saved_routes,
}
use frappe_erp_next.Workflow.Start.{is_blank_reason, start_decision, start_decision-new}
use frappe_erp_next.Workflow.Graph.{walk, grow, Leads}
use frappe_erp_next.Workflow.Graph.Walk.{reached_from, reached_from_lem}
use frappe_erp_next.Workflow.Graph.Grow.{can_finish, can_finish_lem}
use frappe_erp_next.Workflow.Activation.{activation_requirements}
use frappe_erp_next.Workflow.Activation.Ready.{IsReady, activation_requirements_iff}

-- Case folding of the words that the designs use; numbers are not used.
abbrev pub fold : String → String
fold s =
    if s == "Complete"
    then "complete"
    else if s == "Approve"
    then "approve"
    else if s == "Success"
    then "success"
    else if s == "Error"
    then "error"
    else s

abbrev pub python : Python
python = record {
  casefold = fold;
  upper = λ s. s;
  repr = λ v. "";
  parse_int = λ s. none;
  is_decimal = λ s. false;
  decimal_lt = λ a b. none;
}

abbrev pub checks : Checks
checks = record { settings = λ c. true; stage_config = λ k t c. true }

abbrev pub stage_of : String → StageType → Fields → Stage
stage_of name kind config = record {
  name = name;
  stage_type = kind;
  stage_title = name;
  configuration_status = "Complete";
  config = some (dict config);
}

abbrev pub edge : String → String → Fields → Transition
edge a b c = record {
  from_stage = a;
  to_stage = b;
  transition_label = "";
  condition_json = some (dict c);
}

abbrev pub stages : List Stage
stages =
    stage_of "begin" start (field "trigger_type" (str "Document Event") end)
    ∷ stage_of "fill" user_task (field "assignment_type" (str "Initiator") end)
    ∷ stage_of "check" condition (
        field "source_kind" (str "Form")
          (field "source_field" (str "amount") (field "operator" (str "Is Set") end)))
    ∷ stage_of "sign" approval (
        field "assignment_type" (str "Role") (
          field "approver_roles" (list (cons (str "Director") nil))
            (field "allow_reject" (bool true) end)))
    ∷ stage_of "post" system_action (field "action_type" (str "Notify") end)
    ∷ stage_of "done" end_stage (field "outcome" (str "Completed") end)
    ∷ []

abbrev pub transitions : List Transition
transitions =
    edge "begin" "fill" end
    ∷ edge "fill" "check" (field "action" (str "Complete") end)
    ∷ edge "check" "sign" (field "result" (bool true) end)
    ∷ edge "check" "fill" (field "result" (bool false) end)
    ∷ edge "sign" "post" end
    ∷ edge "post" "done" (field "action" (str "Success") end)
    ∷ []

pub nothing_missing : activation_requirements python checks stages transitions ≡ some []
unfolding activation_requirements reached_from can_finish walk grow valid_saved_stage
    valid_saved_routes
nothing_missing = refl

activation_requirements_iff_example : IsReady python checks stages transitions
activation_requirements_iff_example =
    (activation_requirements_iff python checks stages transitions).0 nothing_missing

reached_from_lem_example :
    (r : List String) × (reached_from transitions "begin" ≡ some r)
    × ((x : String) → Has r x ↔ Leads transitions "begin" x)
reached_from_lem_example = reached_from_lem transitions "begin"

can_finish_lem_example :
    (r : List String) × (can_finish transitions ("done" ∷ []) ≡ some r)
    × ((x : String) → Has r x ↔ ((f : String) × Has ("done" ∷ []) f × Leads transitions x f))
can_finish_lem_example = can_finish_lem transitions ("done" ∷ [])

abbrev restartable : Fields
restartable = field "allow_manager_restart" (bool true) end

start_decision-new_example :
    (("Completed" == "Running") ≡ false)
    × (◌≡◌ {A = Bool} true true)
    × (◌≡◌ {A = Bool} true true)
    × (truthy (get restartable "allow_manager_restart") ≡ true)
    × (is_blank_reason (str "again") ≡ false)
unfolding start_decision strip
start_decision-new_example =
    start_decision-new restartable "Completed" true true (str "again") refl refl
