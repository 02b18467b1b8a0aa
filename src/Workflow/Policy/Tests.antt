-- ===== src/Workflow/Policy/Tests.antt =====
-- A deadline of two days and an assignment to two roles.
use frappe_erp_next.Prelude.{true, false, ◌≡◌, ◌⊎◌, ◌≢◌, refl, none, [], ◌∷◌}
use frappe_erp_next.Prelude.Int.{pos}
use frappe_erp_next.Prelude.Result.{ok, err}
use frappe_erp_next.Python.{Fields, Python, get, bool, int, str, list, nil, cons, end, field, strip}
use frappe_erp_next.Workflow.Design.{approval}
use frappe_erp_next.Workflow.Runtime.Assign.{assignment_values, needs_no_target}
use frappe_erp_next.Workflow.Policy.{
  no_role, is_empty_list, deadline_policy, normalize_assignment, normalize_condition,
  deadline_fields, assignment_fields, assignment_type, no_value,
}
use frappe_erp_next.Workflow.Condition.{invalid_operator}
use frappe_erp_next.Workflow.Runtime.Activate.{test_of}
use frappe_erp_next.Workflow.Policy.Tested.{test_of-normalize_condition}
use frappe_erp_next.Workflow.Policy.Targets.{targets_of, assignment_values-normalize_assignment}

abbrev python : Python
python = record {
  casefold = λ s. s;
  upper = λ s. s;
  repr = λ v. "";
  parse_int = λ s. none;
  is_decimal = λ s. false;
  decimal_lt = λ a b. none;
}

abbrev two_days : Fields
two_days =
    field "deadline_value" (int (pos 2))
      (field "deadline_unit" (str "Day") (field "reminder_before_minutes" (int (pos 30)) end))

abbrev saved_deadline : Fields
saved_deadline = deadline_fields 2 "Day" 30 [] false

-- Nobody could take the task over.
needs_role : deadline_policy python (field "reassign_on_overdue" (bool true) two_days) ≡ err no_role
unfolding deadline_policy
needs_role = refl

abbrev by_role : Fields
by_role =
    field "approver_roles" (list (cons (str " HR ") (cons (str "CEO") (cons (str "HR") nil)))) end

abbrev saved_roles : Fields
saved_roles = assignment_fields python approval "Role" ("HR" ∷ "CEO" ∷ []) [] []

saves_roles : normalize_assignment python approval by_role ≡ ok saved_roles
unfolding normalize_assignment strip
saves_roles = refl

assignment_values-normalize_assignment_example :
    ((needs_no_target python (assignment_type python by_role) ≡ true)
      × (assignment_values python saved_roles approval ≡ ok (assignment_type python by_role, [])))
    ⊎ ((is_empty_list (targets_of python approval by_role) ≡ false)
        × (assignment_values python saved_roles approval
            ≡ ok (assignment_type python by_role, targets_of python approval by_role)))
assignment_values-normalize_assignment_example =
    assignment_values-normalize_assignment python approval by_role saves_roles

-- A comparison needs a value.
empty_comparison :
    normalize_condition python "Amount"
      (field "source_field" (str "grand_total") (field "operator" (str "Equals") end))
    ≡ err no_value
unfolding normalize_condition strip
empty_comparison = refl

abbrev saved_test : Fields
saved_test = field "title" (str "Amount") (
    field "source_kind" (str "Document") (
      field "source_field" (str "grand_total")
        (field "operator" (str "Greater Than") (field "compare_value" (str "10") end))))

abbrev amount_test : Fields
amount_test =
    field "source_field" (str "grand_total")
      (field "operator" (str "Greater Than") (field "compare_value" (str "10") end))

saves_test : normalize_condition python "Amount" amount_test ≡ ok saved_test
unfolding normalize_condition strip
saves_test = refl

test_of-normalize_condition_example :
    test_of python (get saved_test "operator") (str "x") (get saved_test "compare_value")
    ≢ err invalid_operator
test_of-normalize_condition_example =
    test_of-normalize_condition python "Amount" amount_test (str "x") saves_test
