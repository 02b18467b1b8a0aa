-- ===== src/Workflow/Runtime/Duty.antt =====
-- Who may decide a task and what a decision needs, and how a rejection ends an instance:
-- `complete_workflow_task` of asoud_erp/api/v1/workflow_runtime.py.
use mathlib.Core.Bool.{false≢true}
use frappe_erp_next.Prelude.{
  Option, ℕ, String, ◌≡◌, refl, sym, ap, ◌∙◌, subst, eq_refl, Bool, true, false, not, ◌&&◌, none,
  some, List, [], ◌∷◌, ◌==◌, eq_iff, arith, any, contains, is_empty,
}
use frappe_erp_next.Prelude.Result.{ok_eq, Result, ok, check_all, check_all-AllPass, >>=-eq-ok}
use frappe_erp_next.Python.{Fields, bool, get, get_or, is_blank, truthy}
use frappe_erp_next.Workflow.Design.{Stage, approval}
use frappe_erp_next.Workflow.Runtime.Route.{next_stage}
use frappe_erp_next.Workflow.Runtime.Assign.{users_for_roles}
use frappe_erp_next.Workflow.Runtime.Activate.{close, assignees, others_than, string_items}
use frappe_erp_next.Workflow.Runtime.Complete.{
  Decision, reject, decision_of, is_approval, is_allowed, is_forward, is_reject, is_return,
  guard_list, given, entry_guards, first_guards, open_guards, original_config, guards, respond_step,
  output_step, proceed, close_task, decided, complete_workflow_task, cancelled_here,
}
use frappe_erp_next.Workflow.Runtime.State.{
  InstanceStatus, Engine, EngineError, Task, Site, get_stage, config_of, is_open, open_at,
  cancel_open,
}

-- What the guards of a decision leave, one by one.
pub record MayDecide (site : Site) (e : Engine) (task : Task) (stage : Stage) (config : Fields)
    (decision : Decision) (comment : String) : Type 0 where
  pub generic : site.rejects task ≡ false
  pub access : site.has_access task ≡ true
  pub owner : task.assigned_to ≡ site.user
  pub still_open : is_open task ≡ true
  pub fits : is_allowed stage decision ≡ true
  pub not_own : (is_approval stage && (e.started_by == site.user)) ≡ false
  pub commented : (truthy (get config "comment_required") && is_blank comment) ≡ false
  pub reasoned : (not (is_forward decision) && is_blank comment) ≡ false
  pub may_reject :
      (is_reject decision && not (truthy (get_or config "allow_reject" (bool false)))) ≡ false
  pub may_return :
      (is_return decision && not (truthy (get_or config "allow_return" (bool false)))) ≡ false

module _ (site : Site) (e : Engine) (task : Task) (stage : Stage) (config : Fields)
    (decision : Decision) (comment : String) where
  guards-MayDecide :
      {u v w : Unit {0}}
      → check_all (entry_guards site task) ≡ ok u
      → check_all (open_guards task) ≡ ok v
      → guards site e task stage config decision comment ≡ ok w
      → MayDecide site e task stage config decision comment
  guards-MayDecide entry opened h =
      let (g, (a, (b, _))) = check_all-AllPass (entry_guards site task) entry in
      let (c, _) = check_all-AllPass (open_guards task) opened in
      let (d, (p, (q, (r, (t, (v, _)))))) =
        check_all-AllPass (guard_list site e task stage config decision comment) h in
      record {
        generic = g;
        access = holds (site.has_access task) a;
        owner = (eq_iff task.assigned_to site.user).0 (holds (task.assigned_to == site.user) b);
        still_open = holds (is_open task) c;
        fits = holds (is_allowed stage decision) d;
        not_own = p;
        commented = q;
        reasoned = r;
        may_reject = t;
        may_return = v;
      }
    where
      holds : (b : Bool) → not b ≡ false → b ≡ true
      holds true h = refl
      holds false h = cc

module _ (fuel : ℕ) (site : Site) (e : Engine) (task : Task) (action comment : String)
    (raw : Option Fields) where
  -- How a call that succeeds has run.
  pub record Ran (e' : Engine) : Type 0 where
    pub decision : Decision
    pub stage : Stage
    pub config : Fields
    pub response : Fields
    pub made : Engine
    pub named : decision_of action ≡ ok decision
    pub at_stage : get_stage site.stages task.workflow_stage ≡ ok stage
    pub configured : config_of stage ≡ ok config
    pub permitted : MayDecide site e task stage config decision comment
    pub answered : respond_step site stage config decision (given task raw) e ≡ ok response
    pub output : output_step site task config decision response e ≡ ok made
    pub went_on :
        proceed fuel site
          (decided site task decision comment response)
          config
          decision
          (close_task site (decided site task decision comment response) decision made)
        ≡ ok e'

  pub complete_workflow_task-Ran :
      {e' : Engine} → complete_workflow_task fuel site e task action comment raw ≡ ok e' → Ran e'
  unfolding complete_workflow_task
  complete_workflow_task-Ran h =
      let (_, entry, g1) = >>=-eq-ok (check_all (entry_guards site task)) _ h in
      let (original, _, g2) = >>=-eq-ok (original_config site.stages task.workflow_stage) _ g1 in
      let (_, _, g3) = >>=-eq-ok (check_all (first_guards original)) _ g2 in
      let (decision, p, g4) = >>=-eq-ok (decision_of action) _ g3 in
      let (_, opened, h1) = >>=-eq-ok (check_all (open_guards task)) _ g4 in
      let (stage, q, h2) = >>=-eq-ok (get_stage site.stages task.workflow_stage) _ h1 in
      let (config, r, h3) = >>=-eq-ok (config_of stage) _ h2 in
      let (u, s, h4) = >>=-eq-ok (guards site e task stage config decision comment) _ h3 in
      let (response, t, h5) =
        >>=-eq-ok (respond_step site stage config decision (given task raw) e) _ h4 in
      let (made, v, h6) = >>=-eq-ok (output_step site task config decision response e) _ h5 in
      record {
        decision = decision;
        stage = stage;
        config = config;
        response = response;
        made = made;
        named = p;
        at_stage = q;
        configured = r;
        permitted = guards-MayDecide site e task stage config decision comment entry opened s;
        answered = t;
        output = v;
        went_on = h6;
      }

-- Nobody decides an approval of what they started: where the task is at an approval and the session's
-- user started the instance, no call succeeds, whatever the action, the comment and the response.
pub complete_workflow_task-self_approval :
    (fuel : ℕ) (site : Site) (e : Engine) (task : Task) (stage : Stage) (action comment : String)
    (raw : Option Fields)
    → get_stage site.stages task.workflow_stage ≡ ok stage
    → stage.stage_type ≡ approval
    → e.started_by ≡ site.user
    → ¬ ((e' : Engine) × (complete_workflow_task fuel site e task action comment raw ≡ ok e'))
complete_workflow_task-self_approval fuel site e task stage action comment raw found kind own
      (e', h) =
    let r = complete_workflow_task-Ran fuel site e task action comment raw h in
    let same : stage ≡ r.stage = ok_eq (sym found ∙ r.at_stage) in
    let k : r.stage.stage_type ≡ approval =
      subst (λ (s : Stage). s.stage_type ≡ approval) same kind in
    let q = r.permitted.not_own in false≢true (sym q ∙ both r.stage k)
  where
    both :
        (s : Stage)
        → s.stage_type ≡ approval
        → (is_approval s && (e.started_by == site.user)) ≡ true
    both s k = rw k (rw own (eq_refl site.user))

none_open : (stage : String) (ts : List Task) → any (open_at stage) (cancel_open stage ts) ≡ false
none_open stage [] = refl
none_open stage (t ∷ ts) = ground (arith, none_open stage ts)

module _ (fuel : ℕ) (site : Site) (task : Task) (config : Fields) where
  reject_ends :
      (e e' : Engine)
      → next_stage site.py site.transitions task.workflow_stage (some "Reject") ≡ ok none
      → proceed fuel site task config reject e ≡ ok e'
      → (e'.status ≡ InstanceStatus.rejected)
        × (e'.completed_on ≡ some site.now)
        × (any (open_at task.workflow_stage) e'.tasks ≡ false)
  reject_ends e e' alone h =
      let q : ◌≡◌ {A = Result EngineError Engine}
          (ok (close site InstanceStatus.rejected (cancelled_here fuel site task e))) (ok e') =
        rw alone at h in
      let p : close site InstanceStatus.rejected (cancelled_here fuel site task e) ≡ e' = cc in
      (
        ap (λ (x : Engine). x.status) (sym p),
        ap (λ (x : Engine). x.completed_on) (sym p),
        subst (λ (x : Engine). any (open_at task.workflow_stage) x.tasks ≡ false) p
            (none_open task.workflow_stage e.tasks),
      )

-- A rejection that succeeds at a stage without a route for it ends the instance: it is Rejected,
-- closed now, and no task of the stage stays open.
pub complete_workflow_task-reject_ends :
    (fuel : ℕ) (site : Site) (e : Engine) (task : Task) (comment : String) (raw : Option Fields)
    {e' : Engine}
    → next_stage site.py site.transitions task.workflow_stage (some "Reject") ≡ ok none
    → complete_workflow_task fuel site e task "Reject" comment raw ≡ ok e'
    → (e'.status ≡ InstanceStatus.rejected)
      × (e'.completed_on ≡ some site.now)
      × (any (open_at task.workflow_stage) e'.tasks ≡ false)
complete_workflow_task-reject_ends fuel site e task comment raw {e'} alone h =
    let r = complete_workflow_task-Ran fuel site e task "Reject" comment raw h in
    let d : r.decision ≡ reject = sym (cc r.named) in
    let done = decided site task reject comment r.response in
    reject_ends fuel site done r.config (close_task site done reject r.made) e' alone (
      subst
        (λ (x : Decision).
          proceed fuel site (decided site task x comment r.response) r.config x
            (close_task site (decided site task x comment r.response) x r.made)
          ≡ ok e')
        d r.went_on)

others-lack : (user : String) (xs : List String) → contains (others_than user xs) user ≡ false
others-lack user [] = refl
others-lack user (x ∷ xs) = ground (arith, others-lack user xs)

-- When a stage is entered, whoever started the instance is among the assignees of an approval only
-- where neither the stage nor
-- its escalation roles have anybody else, and then the flag that makes the engine note it is set.
pub assignees-separated :
    (site : Site) (e : Engine) (config : Fields) (users : List String)
    → contains (assignees site e approval config users).0 e.started_by ≡ true
    → (is_empty (others_than e.started_by users) ≡ true)
      × (is_empty (
            others_than e.started_by
              (users_for_roles site.directory (string_items (get config "escalation_roles"))))
          ≡ true)
      × ((assignees site e approval config users).1 ≡ true)
assignees-separated site e config users h = ground (
  arith,
  others-lack e.started_by users,
  others-lack e.started_by
      (users_for_roles site.directory (string_items (get config "escalation_roles"))),
)
