-- ===== src/Workflow/Policy.antt =====
-- asoud_erp/services/workflow_stage_policy.py: the deadline, the assignment and the access to
-- documents of a stage, and the settings of the stages Condition, Wait and End.
pub mod Deadline
pub mod Kept
pub mod Targets
pub mod Tested
mod Tests
use Prim.Native.Char.{code}
use frappe_erp_next.Prelude.{
  ℕ, zero, suc, String, Bool, true, false, not, ◌&&◌, ◌||◌, ◌==◌, eqb, leb, Option, none, some,
  List, [], ◌∷◌, contains, if◌then◌else◌,
}
use frappe_erp_next.Prelude.Int.{ℤ, pos, negsuc}
use frappe_erp_next.Prelude.Result.{Result, ok, err, ◌>>=◌, ◌>>◌, raise_if}
use frappe_erp_next.Python.{
  Value, Items, Fields, Python, null, bool, int, str, list, dict, nil, cons, end, field, get,
  int_of, str_of, strip, len, truthy, ◌or◌,
}
use frappe_erp_next.Workflow.Design.{StageType, approval}
use frappe_erp_next.Workflow.Runtime.Assign.{values_of}

-- `unhashable` is the `TypeError` of a list or a dictionary that is looked up in a set.
pub data StageError : Type 0 where
  bad_deadline bad_range bad_unit no_role bad_type no_target bad_access unhashable : StageError
  bad_source bad_field bad_operator no_value bad_wait bad_duration bad_outcome : StageError

abbrev pub texts_list : List String → Items
texts_list [] = nil
texts_list (s ∷ rest) = cons (str s) (texts_list rest)

-- `value in (None, "", 0, "0")`
abbrev pub is_no_deadline : Value → Bool
is_no_deadline null = true
is_no_deadline (str s) = s == "" || s == "0"
is_no_deadline (int (pos zero)) = true
is_no_deadline (bool b) = not b
is_no_deadline _ = false

abbrev pub no_deadline : Fields
no_deadline = field "deadline_value" (int (pos 0)) (
    field "deadline_unit" (str "Hour") (
      field "reminder_before_minutes" (int (pos 0))
        (field "escalation_roles" (list nil) (field "reassign_on_overdue" (bool false) end))))

abbrev pub int_or : StageError → Option ℤ → Result StageError ℤ
int_or e (some z) = ok z
int_or e none = err e

-- `low <= number <= high`, as a natural number
abbrev pub between : ℕ → ℕ → ℤ → Result StageError ℕ
between low high (pos n) = if leb low n && leb n high then ok n else err bad_range
between low high (negsuc n) = err bad_range

-- `value in {...}`
abbrev pub one_text : StageError → List String → Value → Result StageError String
one_text e texts (str s) = if contains texts s then ok s else err e
one_text e texts (list _) = err unhashable
one_text e texts (dict _) = err unhashable
one_text e texts _ = err e

abbrev pub units : List String
units = "Minute" ∷ "Hour" ∷ "Day" ∷ []

abbrev pub deadline_fields : ℕ → String → ℕ → List String → Bool → Fields
deadline_fields value unit reminder roles reassign = field "deadline_value" (int (pos value)) (
    field "deadline_unit" (str unit) (
      field "reminder_before_minutes" (int (pos reminder)) (
        field "escalation_roles" (list (texts_list roles))
          (field "reassign_on_overdue" (bool reassign) end))))

abbrev pub is_empty_list : List String → Bool
is_empty_list [] = true
is_empty_list (_ ∷ _) = false

abbrev pub assignment_types : List String
assignment_types =
    "Role" ∷ "Department" ∷ "Employee" ∷ "Initiator" ∷ "Initiator Department" ∷ "Direct Manager"
    ∷ []

abbrev pub operators : List String
operators = "Equals" ∷ "Not Equals" ∷ "Greater Than" ∷ "Less Than" ∷ "Contains" ∷ "Is Set" ∷ []

-- `[a-zA-Z_][a-zA-Z0-9_]*`
abbrev pub is_letter : ℕ → Bool
is_letter c = (leb 65 c && leb c 90) || (leb 97 c && leb c 122) || eqb c 95

abbrev pub name_rest : String → Bool
name_rest String.[] = true
name_rest (String.◌∷◌ c s) =
    (is_letter (code c) || (leb 48 (code c) && leb (code c) 57)) && name_rest s

abbrev pub is_field_name : String → Bool
is_field_name String.[] = false
is_field_name (String.◌∷◌ c s) = is_letter (code c) && name_rest s

-- `f"{prefix}_roles"` and so on, the prefix being that of the stage type
abbrev pub role_key : StageType → String
role_key approval = "approver_roles"
role_key _ = "assignee_roles"

abbrev pub department_key : StageType → String
department_key approval = "approver_departments"
department_key _ = "assignee_departments"

abbrev pub employee_key : StageType → String
employee_key approval = "approver_employees"
employee_key _ = "assignee_employees"

module _ (py : Python) where
  abbrev pub given_deadline : Fields → Result StageError Fields
  given_deadline raw = do
    v ← int_or bad_deadline (int_of py (get raw "deadline_value"))
    r ← int_or bad_deadline (int_of py (get raw "reminder_before_minutes" or int (pos 0)))
    value ← between 1 3650 v
    reminder ← between 0 525600 r
    unit ← one_text bad_unit units (get raw "deadline_unit" or str "Hour")
    let roles = values_of py (get raw "escalation_roles") in
        let reassign = truthy (get raw "reassign_on_overdue") in
        raise_if (reassign && is_empty_list roles) no_role
        >> ok (deadline_fields value unit reminder roles reassign)

  -- `_deadline_policy(raw)`
  unfoldable pub deadline_policy : Fields → Result StageError Fields
  deadline_policy raw =
      if is_no_deadline (get raw "deadline_value") then ok no_deadline else given_deadline raw

  abbrev pub selected_targets : String → List String → List String → List String → List String
  selected_targets t roles departments employees =
      if t == "Role"
      then roles
      else if t == "Department"
      then departments
      else if t == "Employee"
      then employees
      else "initiator" ∷ []

  abbrev pub only_if : Bool → List String → Value
  only_if b values = list (texts_list (if b then values else []))

  abbrev pub assignment_fields :
      StageType → String → List String → List String → List String → Fields
  assignment_fields kind t roles departments employees = field "assignment_type" (str t) (
      field (role_key kind) (only_if (t == "Role") roles) (
        field (department_key kind) (only_if (t == "Department") departments)
          (field (employee_key kind) (only_if (t == "Employee") employees) end)))

  abbrev pub assignment_type : Fields → String
  assignment_type raw = str_of py (get raw "assignment_type" or str "Role")

  -- `_normalize_assignment(raw, prefix)`
  unfoldable pub normalize_assignment : StageType → Fields → Result StageError Fields
  normalize_assignment kind raw =
      let t = assignment_type raw in
      let roles = values_of py (get raw (role_key kind)) in
      let departments = values_of py (get raw (department_key kind)) in
      let employees = values_of py (get raw (employee_key kind)) in
      raise_if (not (contains assignment_types t)) bad_type
      >> raise_if (is_empty_list (selected_targets t roles departments employees)) no_target
      >> ok (assignment_fields kind t roles departments employees)

  -- `_document_access(raw)`
  abbrev pub document_access : Fields → Result StageError String
  document_access raw =
      one_text bad_access ("Read Only" ∷ "Edit" ∷ "Limited Edit" ∷ [])
        (str (str_of py (get raw "document_access" or str "Read Only")))

  abbrev pub trimmed_setting : Fields → String → String
  trimmed_setting raw k = strip (str_of py (get raw k or str ""))

  -- The branch `Condition` of `normalize_stage_config`.
  unfoldable pub normalize_condition : String → Fields → Result StageError Fields
  normalize_condition title raw = do
    kind ← one_text bad_source ("Document" ∷ "Form" ∷ []) (get raw "source_kind" or str "Document")
    raise_if (not (is_field_name (trimmed_setting raw "source_field"))) bad_field
    operator ← one_text bad_operator operators (get raw "operator")
    raise_if (not (operator == "Is Set") && (trimmed_setting raw "compare_value" == "")) no_value
    ok (
        field "title" (str title) (
          field "source_kind" (str kind) (
            field "source_field" (str (trimmed_setting raw "source_field")) (
              field "operator" (str operator)
                (field "compare_value" (str (trimmed_setting raw "compare_value")) end)))))
