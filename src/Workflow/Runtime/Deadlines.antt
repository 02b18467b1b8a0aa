-- ===== src/Workflow/Runtime/Deadlines.antt =====
-- `process_workflow_deadlines` of asoud_erp/api/v1/workflow_runtime.py, for the tasks of one
-- instance that are no directives: one reminder and one escalation of each open task. A task whose
-- stage cannot be read is logged and left as it is.
use Prim.Native.String.{◌++◌ as ◌<>◌}
use frappe_erp_next.Prelude.{
  ℕ, String, ◌≡◌, refl, ap, subst, ◌∙◌, sym, Bool, true, false, not, ◌&&◌, ◌||◌, Option, none, some,
  List, [], ◌∷◌, eqb, arith, if◌then◌else◌, map, select, all,
}
use frappe_erp_next.Prelude.Int.{ℤ, ltb_ℤ}
use frappe_erp_next.Prelude.Result.{Result, ok, err, ◌>>=◌}
use frappe_erp_next.Python.{Fields, get, truthy}
use frappe_erp_next.Workflow.Design.{Stage}
use frappe_erp_next.Workflow.Runtime.Assign.{users_for_roles}
use frappe_erp_next.Workflow.Runtime.Activate.{string_items, has_contract}
use frappe_erp_next.Workflow.Runtime.Complete.{replace_task}
use frappe_erp_next.Workflow.Runtime.State.{
  Task, Engine, EngineError, Site, get_stage, config_of, is_open, record_activity, notify_user,
}

-- `[time, "<=", current]`, which an unset time does not pass
abbrev pub is_past : ℤ → Option ℤ → Bool
is_past now none = false
is_past now (some time) = not (ltb_ℤ now time)

abbrev pub is_ahead : ℤ → Option ℤ → Bool
is_ahead now none = false
is_ahead now (some time) = ltb_ℤ now time

abbrev pub is_unset : Option ℤ → Bool
is_unset none = true
is_unset (some time) = false

-- The filters of the two queries.
abbrev pub needs_reminder : ℤ → Task → Bool
needs_reminder now t =
    is_open t && is_past now t.reminder_on && is_ahead now t.due_on && is_unset t.reminder_sent_on

abbrev pub is_overdue : ℤ → Task → Bool
is_overdue now t = is_open t && is_past now t.due_on && is_unset t.escalated_on

abbrev pub notify_all : Site → List String → Engine → Engine
notify_all site [] e = e
notify_all site (u ∷ us) e = notify_all site us (notify_user site u e)

abbrev pub reminded : ℤ → Task → Task
reminded now t = if needs_reminder now t then record t { reminder_sent_on = some now } else t

-- The first loop.
unfoldable pub send_reminders : Site → Engine → Engine
send_reminders site e =
    notify_all site (map (λ t. t.assigned_to) (select (needs_reminder site.now) e.tasks))
      (record e { tasks = map (reminded site.now) e.tasks })

abbrev pub reassign : Site → Task → List String → Engine → Task × Engine
reassign site t [] e = (t, e)
reassign site t (user ∷ users) e =
    let moved : Task = record t { assigned_to = user } in
    (
      moved,
      record_activity site moved "Escalated" ("Reassigned from " <> t.assigned_to <> " to " <> user)
          e,
    )

abbrev pub reassign_if : Bool → Site → Task → List String → Engine → Task × Engine
reassign_if true site t users e = reassign site t users e
reassign_if false site t users e = (t, e)

abbrev pub escalated : ℤ → Task → Task
escalated now t = record t { escalated_on = some now }

abbrev pub save_task : Task → Engine → Engine
save_task t e = record e { tasks = replace_task t e.tasks }

-- `escalate` of services/workflow_user_action.py, for a task of the version-1 action contract
abbrev pub ContractEscalation : Type 0
ContractEscalation = Engine → Task → Result EngineError Engine

module _ (site : Site) (contract : ContractEscalation) where
  abbrev pub escalate_as : Fields → Engine → Task → Engine
  escalate_as config e t =
      let users = users_for_roles site.directory (string_items (get config "escalation_roles")) in
      let told = notify_all site users (notify_user site t.assigned_to e) in
      let (moved, noted) =
        reassign_if (truthy (get config "reassign_on_overdue")) site t users told in
      save_task (escalated site.now moved) noted

  -- One round of the second loop.
  unfoldable pub escalate_task : Engine → Task → Result EngineError Engine
  escalate_task e t = do
    stage ← get_stage site.stages t.workflow_stage
    config ← config_of stage
    if has_contract config then contract e t else ok (escalate_as config e t)

  -- An error is rolled back to the savepoint.
  abbrev pub settled : Engine → Result EngineError Engine → Engine
  settled e (ok e') = e'
  settled e (err x) = e

  abbrev pub escalate_all : List Task → Engine → Engine
  escalate_all [] e = e
  escalate_all (t ∷ ts) e = escalate_all ts (settled e (escalate_task e t))

  -- `process_workflow_deadlines()`
  unfoldable pub process_workflow_deadlines : Engine → Engine
  unfolding send_reminders
  process_workflow_deadlines e =
      let after = send_reminders site e in
      escalate_all (select (is_overdue site.now) after.tasks) after

notify_all-tasks :
    (site : Site) (users : List String) (e : Engine) → (notify_all site users e).tasks ≡ e.tasks
notify_all-tasks site [] e = refl
notify_all-tasks site (u ∷ us) e = notify_all-tasks site us (notify_user site u e) ∙ ground arith

reminded-once : (now : ℤ) (t : Task) → needs_reminder now (reminded now t) ≡ false
reminded-once now t = ground arith

select-reminded :
    (now : ℤ) (ts : List Task) → select (needs_reminder now) (map (reminded now) ts) ≡ []
select-reminded now [] = refl
select-reminded now (t ∷ ts) = rw (reminded-once now t) (select-reminded now ts)

map-reminded :
    (now : ℤ) (ts : List Task) → map (reminded now) (map (reminded now) ts) ≡ map (reminded now) ts
map-reminded now [] = refl
map-reminded now (t ∷ ts) = rw (reminded-once now t, map-reminded now ts) refl

unchanged :
    (site : Site) (x : Engine)
    → select (needs_reminder site.now) x.tasks ≡ []
    → map (reminded site.now) x.tasks ≡ x.tasks
    → send_reminders site x ≡ x
unfolding send_reminders
unchanged site x p q = rw (p, q) refl

-- One reminder for each task: sending the reminders again at the same time changes nothing and
-- tells nobody.
pub send_reminders_once :
    (site : Site) (e : Engine) → send_reminders site (send_reminders site e) ≡ send_reminders site e
unfolding send_reminders
send_reminders_once site e = unchanged site (send_reminders site e) idle kept
  where
    rows : (send_reminders site e).tasks ≡ map (reminded site.now) e.tasks
    rows =
        notify_all-tasks site (map (λ t. t.assigned_to) (select (needs_reminder site.now) e.tasks))
          (record e { tasks = map (reminded site.now) e.tasks })

    idle : select (needs_reminder site.now) (send_reminders site e).tasks ≡ []
    idle = ap (select (needs_reminder site.now)) rows ∙ select-reminded site.now e.tasks

    kept : map (reminded site.now) (send_reminders site e).tasks ≡ (send_reminders site e).tasks
    kept = ap (map (reminded site.now)) rows ∙ map-reminded site.now e.tasks ∙ sym rows

-- The rows of a task's name.
abbrev pub none_overdue : ℤ → ℕ → List Task → Bool
none_overdue now name = all (λ u. not (eqb u.name name) || not (is_overdue now u))

replaced-none_overdue :
    (now : ℤ) (t : Task) (rows : List Task)
    → none_overdue now t.name (replace_task (escalated now t) rows) ≡ true
replaced-none_overdue now t [] = refl
replaced-none_overdue now t (u ∷ us) = ground (arith, replaced-none_overdue now t us)

-- One escalation of each task: an overdue task of a stage without the version-1 action contract
-- that is escalated is not overdue again, also where it is handed to another user.
pub escalate_task_once :
    (site : Site) (contract : ContractEscalation) (e : Engine) (t : Task) (stage : Stage)
    (config : Fields) {e' : Engine}
    → get_stage site.stages t.workflow_stage ≡ ok stage
    → config_of stage ≡ ok config
    → has_contract config ≡ false
    → escalate_task site contract e t ≡ ok e'
    → none_overdue site.now t.name e'.tasks ≡ true
unfolding escalate_task
escalate_task_once site contract e t stage config {e'} found configured plain h =
    subst (λ (x : Engine). none_overdue site.now t.name x.tasks ≡ true)
      (ok_eq (rw (found, configured, plain) at h))
      (saved (truthy (get config "reassign_on_overdue"))
        (users_for_roles site.directory (string_items (get config "escalation_roles"))) _)
  where
    ok_eq : {a b : Engine} → ◌≡◌ {A = Result EngineError Engine} (ok a) (ok b) → a ≡ b
    ok_eq p = cc

    saved :
        (b : Bool) (users : List String) (x : Engine)
        → none_overdue site.now t.name
            (save_task
              (escalated site.now (reassign_if b site t users x).0)
              (reassign_if b site t users x).1).tasks
          ≡ true
    saved false users x = replaced-none_overdue site.now t x.tasks
    saved true [] x = replaced-none_overdue site.now t x.tasks
    saved true (u ∷ us) x = replaced-none_overdue site.now (record t { assigned_to = u }) x.tasks
