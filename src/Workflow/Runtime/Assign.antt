-- ===== src/Workflow/Runtime/Assign.antt =====
-- The users that a stage is assigned to: asoud_erp/services/workflow_assignment.py and
-- `_users_for_stage`, `_initiator_employee`, `_users_for_roles` of
-- asoud_erp/api/v1/workflow_runtime.py, over the tables that they query.
use frappe_erp_next.Prelude.{
  String, Bool, not, ◌&&◌, ◌||◌, Option, none, some, List, [], ◌∷◌, ◌==◌, map, if◌then◌else◌,
  select, find, contains,
}
use frappe_erp_next.Prelude.Result.{Result, ok, err, ◌>>=◌}
use frappe_erp_next.Python.{
  Value, Items, Fields, nil, cons, str, list, get, ◌or◌, str_of, strip, Python,
}
use frappe_erp_next.Workflow.Design.{StageType, approval}

-- A row of Employee; an unset link is "".
pub record Employee : Type 0 where
  pub name : String
  pub user_id : String
  pub department : String
  pub reports_to : String
  pub company : String
  pub active : Bool

pub record RoleRow : Type 0 where
  pub role : String
  pub user : String

-- The tables Employee and Has Role, and the users with `enabled = 0`.
pub record Directory : Type 0 where
  pub employees : List Employee
  pub role_rows : List RoleRow
  pub disabled : List String

pub data AssignError : Type 0 where
  invalid_type no_active_user : AssignError

-- `list(dict.fromkeys(xs))` less what was seen
abbrev pub unique_from : List String → List String → List String
unique_from seen [] = []
unique_from seen (x ∷ xs) =
    let rest = unique_from (x ∷ seen) xs in
    let same = unique_from seen xs in if contains seen x then same else x ∷ rest

abbrev pub unique_strings : List String → List String
unique_strings = unique_from []

module _ (py : Python) where
  abbrev pub stripped : Items → List String
  stripped nil = []
  stripped (cons v vs) =
      let s = strip (str_of py v) in let rest = stripped vs in if s == "" then rest else s ∷ rest

  abbrev pub values_of : Value → List String
  values_of (list vs) = unique_strings (stripped vs)
  values_of _ = []

  -- `f"{prefix}_{suffix}"`, of an assignment type that names its targets
  abbrev pub approver_key : String → Option String
  approver_key t =
      if t == "Role"
      then some "approver_roles"
      else if t == "Department"
      then some "approver_departments"
      else if t == "Employee"
      then some "approver_employees"
      else none

  abbrev pub assignee_key : String → Option String
  assignee_key t =
      if t == "Role"
      then some "assignee_roles"
      else if t == "Department"
      then some "assignee_departments"
      else if t == "Employee"
      then some "assignee_employees"
      else none

  abbrev pub target_key : StageType → String → Option String
  target_key approval t = approver_key t
  target_key _ t = assignee_key t

  abbrev pub needs_no_target : String → Bool
  needs_no_target t = (t == "Initiator") || (t == "Initiator Department") || (t == "Direct Manager")

  abbrev pub keyed : Fields → String → Option String → Result AssignError (String × List String)
  keyed config t none = err invalid_type
  keyed config t (some key) = ok (t, values_of (get config key))

  -- `assignment_values(config, stage_type)`
  unfoldable pub assignment_values : Fields → StageType → Result AssignError (String × List String)
  assignment_values config kind =
      let t = str_of py (get config "assignment_type" or str "Role") in
      if needs_no_target t then ok (t, []) else keyed config t (target_key kind t)

-- `frappe.get_all("Employee", filters={..., "status": "Active", "user_id": ["is", "set"]})`
abbrev active_users : (Employee → Bool) → List Employee → List String
active_users test employees =
    map (λ e. e.user_id) (select (λ e. test e && e.active && not (e.user_id == "")) employees)

module _ (directory : Directory) (company started_by : String) where
  -- The active Employee of the initiator in the workflow's company, if it has one.
  abbrev pub initiator_employee : Option Employee
  initiator_employee =
      find
        (λ e. (e.user_id == started_by) && e.active && ((company == "") || (e.company == company)))
        directory.employees

  abbrev department_users : Option Employee → List String
  department_users none = []
  department_users (some e) =
      if e.department == ""
      then []
      else active_users (λ d. d.department == e.department) directory.employees

  abbrev user_list : Option Employee → List String
  user_list none = []
  user_list (some e) = if e.user_id == "" then [] else e.user_id ∷ []

  abbrev manager_users : Option Employee → List String
  manager_users none = []
  manager_users (some e) =
      if e.reports_to == ""
      then []
      else user_list (find (λ d. (d.name == e.reports_to) && d.active) directory.employees)

  -- The rows of Has Role for the roles, less the disabled users.
  abbrev pub role_users : List String → List String
  role_users roles =
      select (λ u. not (contains directory.disabled u))
        (map (λ r. r.user) (select (λ r. contains roles r.role) directory.role_rows))

  abbrev pub raw_users : String → List String → List String
  raw_users t values =
      if t == "Initiator"
      then started_by ∷ []
      else if t == "Initiator Department"
      then department_users initiator_employee
      else if t == "Direct Manager"
      then manager_users initiator_employee
      else if t == "Employee"
      then active_users (λ e. contains values e.name) directory.employees
      else if t == "Department"
      then active_users (λ e. contains values e.department) directory.employees
      else role_users values

abbrev pub is_person : String → Bool
is_person u = not ((u == "Guest") || (u == "Administrator"))

abbrev pub some_users : List String → Result AssignError (List String)
some_users [] = err no_active_user
some_users (u ∷ us) = ok (u ∷ us)

-- `_users_for_stage(stage, instance)` of a stage without the version-1 action contract
unfoldable pub users_for_stage :
    Python → Directory → String → String → StageType → Fields → Result AssignError (List String)
unfolding assignment_values
users_for_stage py directory company started_by kind config = do
  (t, values) ← assignment_values py config kind
  some_users (unique_strings (select is_person (raw_users directory company started_by t values)))

-- `_users_for_roles(roles)`
unfoldable pub users_for_roles : Directory → List String → List String
users_for_roles directory roles =
    unique_strings (select is_person (role_users directory "" "" roles))
