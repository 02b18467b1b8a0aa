-- ===== src/Workflow/Runtime/Permit.antt =====
-- What a decision on a task needs: `complete_workflow_task` of asoud_erp/api/v1/workflow_runtime.py,
-- its guards read in the terms of the request.
use frappe_erp_next.Prelude.{String, ◌≡◌, ◌≢◌, ◌⊎◌, true, false}
use frappe_erp_next.Python.{Fields, bool, get, get_or, is_blank, truthy}
use frappe_erp_next.Workflow.Design.{Stage, approval}
use frappe_erp_next.Workflow.Runtime.State.{Task, Engine, Site, open_task}

-- The duties of whoever decides a task at a stage.
pub record Permitted (site : Site) (e : Engine) (task : Task) (action comment : String)
    (stage : Stage) (config : Fields) : Type 0 where
  pub generic : site.rejects task ≡ false
  pub accessible : site.has_access task ≡ true
  pub owned : task.assigned_to ≡ site.user
  pub opened : task.status ≡ open_task
  pub at_approval :
      stage.stage_type ≡ approval → (action ≡ "Approve") ⊎ (action ≡ "Reject") ⊎ (action ≡ "Return")
  pub elsewhere :
      stage.stage_type ≢ approval
      → (action ≡ "Complete") ⊎ (action ≡ "Reject") ⊎ (action ≡ "Return")
  pub not_own : stage.stage_type ≡ approval → e.started_by ≢ site.user
  pub commented : truthy (get config "comment_required") ≡ true → is_blank comment ≡ false
  pub reasoned : (action ≡ "Reject") ⊎ (action ≡ "Return") → is_blank comment ≡ false
  pub may_reject : action ≡ "Reject" → truthy (get_or config "allow_reject" (bool false)) ≡ true
  pub may_return : action ≡ "Return" → truthy (get_or config "allow_return" (bool false)) ≡ true
