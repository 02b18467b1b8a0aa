-- ===== src/Workflow/Runtime/Tests/Cycle.antt =====
-- A design that activation accepts and whose conditions pass to one another.
use frappe_erp_next.Prelude.{String, ◌≡◌, refl, true, false, Option, some, List, [], ◌∷◌}
use frappe_erp_next.Prelude.Result.{err}
use frappe_erp_next.Python.{Fields, str, bool, end, field}
use frappe_erp_next.Workflow.Design.{start, condition, end_stage, Stage, Transition}
use frappe_erp_next.Workflow.Design.{valid_saved_stage, valid_saved_routes}
use frappe_erp_next.Workflow.Graph.{walk, grow}
use frappe_erp_next.Workflow.Graph.Walk.{reached_from}
use frappe_erp_next.Workflow.Graph.Grow.{can_finish}
use frappe_erp_next.Workflow.Activation.{activation_requirements}
use frappe_erp_next.Workflow.Condition.{evaluate_condition, select_boolean_transition}
use frappe_erp_next.Workflow.Tests.{python, checks, stage_of, edge}
use frappe_erp_next.Workflow.Runtime.Lookup.{latest_form_value}
use frappe_erp_next.Workflow.Runtime.Activate.{activate}
use frappe_erp_next.Workflow.Runtime.State.{Task, out_of_fuel}
use frappe_erp_next.Workflow.Runtime.Cycle.{PassesTo, activate-cycle}
use frappe_erp_next.Workflow.Runtime.Tests.{site_for, amount, task, engine, fill_row}

-- Two conditions on the same answer, each of which passes to the other when it is given: activation
-- finds nothing to object to, and completing the form makes the engine run without end.
abbrev again : Fields
again =
    field "source_kind" (str "Form")
      (field "source_field" (str "amount") (field "operator" (str "Is Set") end))

abbrev turn : String → Stage
turn name = stage_of name condition again

abbrev cyclic_stages : List Stage
cyclic_stages =
    stage_of "begin" start (field "trigger_type" (str "Document Event") end)
    ∷ fill_row
    ∷ turn "one"
    ∷ turn "two"
    ∷ stage_of "done" end_stage (field "outcome" (str "Completed") end)
    ∷ []

abbrev cyclic : List Transition
cyclic =
    edge "begin" "fill" end
    ∷ edge "fill" "one" (field "action" (str "Complete") end)
    ∷ edge "one" "two" (field "result" (bool true) end)
    ∷ edge "one" "done" (field "result" (bool false) end)
    ∷ edge "two" "one" (field "result" (bool true) end)
    ∷ edge "two" "done" (field "result" (bool false) end)
    ∷ []

cyclic_missing : activation_requirements python checks cyclic_stages cyclic ≡ some []
unfolding activation_requirements reached_from can_finish walk grow valid_saved_stage
    valid_saved_routes
cyclic_missing = refl

abbrev answered : Option Task
answered = some (record (task 1 "fill" "ann") { response = amount })

one_two : PassesTo (site_for cyclic_stages cyclic "ann") answered (turn "one") (turn "two")
unfolding evaluate_condition latest_form_value select_boolean_transition
one_two = record {
  config = again;
  result = true;
  is_condition = refl;
  configured = refl;
  tests = λ e. refl;
  routed = refl;
  found = refl;
}

two_one : PassesTo (site_for cyclic_stages cyclic "ann") answered (turn "two") (turn "one")
unfolding evaluate_condition latest_form_value select_boolean_transition
two_one = record {
  config = again;
  result = true;
  is_condition = refl;
  configured = refl;
  tests = λ e. refl;
  routed = refl;
  found = refl;
}

activate-cycle_example :
    (activate 1000
        (site_for cyclic_stages cyclic "ann")
        answered
        (turn "one")
        (engine "ann" (task 1 "fill" "ann"))
      ≡ err out_of_fuel)
    × (activate 1000
          (site_for cyclic_stages cyclic "ann")
          answered
          (turn "two")
          (engine "ann" (task 1 "fill" "ann"))
        ≡ err out_of_fuel)
activate-cycle_example =
    activate-cycle (site_for cyclic_stages cyclic "ann") answered (turn "one") (turn "two") one_two
      two_one 1000 (engine "ann" (task 1 "fill" "ann"))
