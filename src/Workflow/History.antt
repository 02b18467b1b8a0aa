-- ===== src/Workflow/History.antt =====
-- asoud_erp/services/workflow_history.py: the merged responses of completed tasks, and the stage
-- that a return goes back to.
use frappe_erp_next.Prelude.{
  String, Bool, true, false, Option, none, some, List, [], ◌∷◌, ◌==◌, if◌then◌else◌, select,
  is_empty,
}
use frappe_erp_next.Python.{Value, Fields, end, dict, update}
use frappe_erp_next.Workflow.Design.{StageType, user_task}

-- A row of `_completed_task_rows`. `response` is the decoded `response_json`.
pub record CompletedRow : Type 0 where
  pub workflow_stage : String
  pub stage_type : StageType
  pub has_form_fields : Bool
  pub response : Value

abbrev pub merge_into : Fields → List CompletedRow → Fields
merge_into merged [] = merged
merge_into merged (row ∷ rows) =
    merge_into (elim row.response [ dict r ↦ update merged r | _ ↦ merged ]) rows

-- `merge_completed_responses(rows)`, the rows oldest first
unfoldable pub merge_completed_responses : List CompletedRow → Fields
merge_completed_responses rows = merge_into end rows

abbrev pub is_user_task : CompletedRow → Bool
is_user_task row = elim row.stage_type [ user_task ↦ true | _ ↦ false ]

-- `str(candidates[0]["workflow_stage"])`, if there is one that is not empty
abbrev first_stage : List CompletedRow → Option String
first_stage [] = none
first_stage (row ∷ rows) = if row.workflow_stage == "" then none else some row.workflow_stage

-- `select_return_stage(rows)`, the rows newest first; `none` where it raises
unfoldable pub select_return_stage : List CompletedRow → Option String
select_return_stage rows =
    let user_tasks = select is_user_task rows in
    let editable = select (λ row. row.has_form_fields) user_tasks in
    first_stage (if is_empty editable then user_tasks else editable)
