-- ===== src/Workflow/Runtime/Draft/Saved.antt =====
-- What `save_workflow_task_draft` of asoud_erp/api/v1/workflow_runtime.py leaves.
use frappe_erp_next.Prelude.{ℕ, String, ◌≡◌, map, true, false, some, eqb, find}
use frappe_erp_next.Prelude.Result.{Result, ok}
use frappe_erp_next.Python.{Items, Fields, bool, str, list, dict, nil, get, get_or, has_key, truthy}
use frappe_erp_next.Workflow.Design.{Stage}
use frappe_erp_next.Workflow.Runtime.State.{Task, Engine, Site, get_stage, config_of, is_open}
use frappe_erp_next.Workflow.Runtime.Draft.{Desk, form_fields_of, is_named, check_attachments}
use frappe_erp_next.Python.Members.{Among}

-- What holds where a draft is saved.
pub record Saved (site : Site) (desk : Desk) (e : Engine) (name : ℕ) (values : Fields) (e' : Engine)
    : Type 0 where
  pub row : Task
  pub stage : Stage
  pub config : Fields
  pub fields : Items
  pub found : find (is_named name) e.tasks ≡ some row
  pub generic : site.rejects row ≡ false
  pub accessible : site.has_access row ≡ true
  pub owned : row.assigned_to ≡ site.user
  pub opened : is_open row ≡ true
  pub staged : get_stage site.stages row.workflow_stage ≡ ok stage
  pub configured : config_of stage ≡ ok config
  pub drafts : truthy (get_or config "allow_draft" (bool true)) ≡ true
  pub form : form_fields_of (get_or config "form_fields" (list nil)) ≡ ok fields
  pub declared :
      (k : String)
      → has_key values k ≡ true
      → (f : Fields) × Among (dict f) fields × (get f "key" ≡ str k)
  pub attached : check_attachments desk fields (dict values) ≡ ok tt
  pub row_after : find (is_named name) e'.tasks ≡ some (record row { draft = values })
  pub other_rows :
      (k : ℕ) → eqb name k ≡ false → find (is_named k) e'.tasks ≡ find (is_named k) e.tasks
  pub names_kept : map (λ (t : Task). t.name) e'.tasks ≡ map (λ (t : Task). t.name) e.tasks
  pub instance_kept :
      (e'.started_by ≡ e.started_by)
      × (e'.reference ≡ e.reference)
      × (e'.current_stage ≡ e.current_stage)
      × (e'.status ≡ e.status)
      × (e'.completed_on ≡ e.completed_on)
      × (e'.next_task ≡ e.next_task)
      × (e'.activities ≡ e.activities)
      × (e'.notified ≡ e.notified)
