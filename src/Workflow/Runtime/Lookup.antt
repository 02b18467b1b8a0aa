-- ===== src/Workflow/Runtime/Lookup.antt =====
-- What the engine of asoud_erp/api/v1/workflow_runtime.py reads from the rows of an instance:
-- `_latest_form_value`, `_task_deadlines` and `_completed_task_rows`.
use frappe_erp_next.Prelude.{
  ℕ, zero, suc, ◌*◌, String, Bool, true, false, Option, none, some, List, [], ◌∷◌, ◌==◌,
  if◌then◌else◌, select,
}
use frappe_erp_next.Prelude.Int.{ℤ, pos, negsuc, ◌+ℤ◌, ◌-ℤ◌, ltb_ℤ}
use frappe_erp_next.Prelude.Result.{Result, ok, err, ◌>>=◌}
use frappe_erp_next.Python.{
  Value, Fields, null, int, str, dict, get, get_by, has_key_by, ◌or◌, str_of, int_of, truthy,
  Python,
}
use frappe_erp_next.Workflow.Design.{Stage}
use frappe_erp_next.Workflow.History.{CompletedRow}
use frappe_erp_next.Workflow.Runtime.State.{
  TaskStatus, Task, Reference, Engine, EngineError, Site, workflow_request, form_entry,
  bad_deadline, get_stage, config_of,
}

abbrev pub is_completed : Task → Bool
is_completed t = elim t.status [ TaskStatus.completed ↦ true | _ ↦ false ]

-- `order_by="completed_on desc"`
abbrev insert_newest : Task → List Task → List Task
insert_newest t [] = t ∷ []
insert_newest t (u ∷ us) =
    if ltb_ℤ t.completed_on u.completed_on then u ∷ insert_newest t us else t ∷ u ∷ us

abbrev newest_first : List Task → List Task
newest_first [] = []
newest_first (t ∷ ts) = insert_newest t (newest_first ts)

abbrev pub completed_tasks : Engine → List Task
completed_tasks e = newest_first (select is_completed e.tasks)

abbrev latest_of : Value → List Task → Option Value
latest_of name [] = none
latest_of name (t ∷ ts) =
    if has_key_by t.response name then some (get_by t.response name) else latest_of name ts

abbrev value_or : Option Value → Value → Value
value_or none d = d
value_or (some v) d = v

abbrev sourced : Value → Option Task → Option Value
sourced name none = none
sourced name (some t) = if has_key_by t.response name then some (get_by t.response name) else none

abbrev reference_value : Value → Reference → Value
reference_value name r = elim r.kind [
  | workflow_request ↦ get_by r.values name
  | form_entry ↦ get_by r.values name
  | _ ↦ null
]

-- `_latest_form_value(instance, fieldname, source_task)`
unfoldable pub latest_form_value : Engine → Value → Option Task → Value
latest_form_value e name source =
    value_or (sourced name source)
      (value_or (latest_of name (completed_tasks e)) (reference_value name e.reference))

abbrev pub unit_minutes : String → Option ℕ
unit_minutes u =
    if u == "Minute"
    then some 1
    else if u == "Hour"
    then some 60
    else if u == "Day"
    then some 1440
    else none

abbrev positive : ℤ → ℕ
positive (pos n) = n
positive (negsuc n) = 0

abbrev pub reminder : ℤ → ℤ → Option ℤ
reminder due (pos zero) = none
reminder due minutes = some (due -ℤ minutes)

abbrev pub due_times : ℤ → ℕ → Option ℕ → Option ℤ → Result EngineError (Option ℤ × Option ℤ)
due_times now value (some unit) (some before) =
    let due = now +ℤ pos (value * unit) in ok (some due, reminder due before)
due_times now value _ _ = err bad_deadline

-- `_task_deadlines(config)`: `(due_on, reminder_on)`
unfoldable pub task_deadlines : Python → ℤ → Fields → Result EngineError (Option ℤ × Option ℤ)
task_deadlines py now config = elim (int_of py (get config "deadline_value" or int (pos 0))) [
  | some (pos (suc n)) ↦
      due_times now (suc n) (unit_minutes (str_of py (get config "deadline_unit" or str "Hour")))
        (int_of py (get config "reminder_before_minutes" or int (pos 0)))
  | some _ ↦ ok (none, none)
  | none ↦ err bad_deadline
]

-- `_completed_task_rows(instance)`, newest first
abbrev pub rows_of : List Stage → List Task → Result EngineError (List CompletedRow)
rows_of stages [] = ok []
rows_of stages (t ∷ ts) = do
  stage ← get_stage stages t.workflow_stage
  config ← config_of stage
  rest ← rows_of stages ts
  ok (
      record {
        workflow_stage = t.workflow_stage;
        stage_type = stage.stage_type;
        has_form_fields = truthy (get config "form_fields");
        response = dict t.response;
      }
      ∷ rest)

unfoldable pub completed_rows : Site → Engine → Result EngineError (List CompletedRow)
completed_rows site e = rows_of site.stages (completed_tasks e)
