-- ===== src/Workflow/Condition.antt =====
-- asoud_erp/services/workflow_condition.py: the test of a Condition stage and the choice of its
-- route.
use frappe_erp_next.Prelude.{
  String, Bool, true, false, not, Option, none, some, List, [], ◌∷◌, ◌==◌, if◌then◌else◌,
}
use frappe_erp_next.Prelude.Result.{Result, ok, err}
use frappe_erp_next.Python.{
  Value, null, bool, str, list, dict, nil, get, ◌or◌, str_of, is_part, Python,
}
use frappe_erp_next.Workflow.Design.{Transition}

pub data ConditionError : Type 0 where
  not_numeric invalid_operator wrong_routes : ConditionError
  -- `decimal.InvalidOperation`, which is no `ValueError`
  invalid_operation : ConditionError

-- `actual not in (None, "", [])`
abbrev pub is_set : Value → Bool
is_set null = false
is_set (str s) = not (s == "")
is_set (list nil) = false
is_set _ = true

module _ (py : Python) where
  -- `left < right` of two numbers, or `left > right` with the sides exchanged
  abbrev compare_decimals : String → String → Result ConditionError Bool
  compare_decimals left right = elim (py.decimal_lt left right) [
    | some b ↦ ok b
    | none ↦ err invalid_operation
  ]

  abbrev both_decimals : String → String → Result ConditionError Bool → Result ConditionError Bool
  both_decimals left right rest =
      if py.is_decimal left
      then (if py.is_decimal right then rest else err not_numeric)
      else err not_numeric

  -- `evaluate_condition(operator, actual, expected)`
  unfoldable pub evaluate_condition : String → Value → Value → Result ConditionError Bool
  evaluate_condition operator actual expected =
      let left = str_of py actual in
      let right = str_of py expected in
      if operator == "Is Set"
      then ok (is_set actual)
      else if operator == "Equals"
      then ok (left == right)
      else if operator == "Not Equals"
      then ok (not (left == right))
      else if operator == "Contains"
      then ok (is_part right (str_of py (actual or str "")))
      else if operator == "Greater Than"
      then both_decimals left right (compare_decimals right left)
      else if operator == "Less Than"
      then both_decimals left right (compare_decimals left right)
      else err invalid_operator

-- `value is result`
abbrev pub is_result : Bool → Value → Bool
is_result true (bool b) = b
is_result false (bool b) = not b
is_result _ _ = false

-- `item["condition"].get("result") is result`, of a condition that is an object
abbrev pub has_result : Bool → Value → Bool
has_result result (dict c) = is_result result (get c "result")
has_result result _ = false

-- The targets of the routes for a result; `none` where a condition cannot be decoded, which raises
-- a `ValueError` in the caller.
abbrev pub matching : Bool → List Transition → Option (List String)
matching result [] = some []
matching result (e ∷ es) = elim e.condition_json [
  | some c ↦ elim (matching result es) [
    | some ms ↦ some (if has_result result c then e.to_stage ∷ ms else ms)
    | none ↦ none
  ]
  | none ↦ none
]

abbrev pub only_match : List String → Result ConditionError String
only_match (m ∷ []) = if m == "" then err wrong_routes else ok m
only_match _ = err wrong_routes

-- `select_boolean_transition(transitions, result)`
unfoldable pub select_boolean_transition : List Transition → Bool → Result ConditionError String
select_boolean_transition transitions result = elim (matching result transitions) [
  | some ms ↦ only_match ms
  | none ↦ err wrong_routes
]
