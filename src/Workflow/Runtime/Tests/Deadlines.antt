-- ===== src/Workflow/Runtime/Tests/Deadlines.antt =====
-- Reminders and escalations at concrete tasks.
use frappe_erp_next.Prelude.{map, ◌≡◌, refl, true, some, [], ◌∷◌}
use frappe_erp_next.Prelude.Int.{pos}
use frappe_erp_next.Prelude.Result.{ok}
use frappe_erp_next.Python.{Fields, str, bool, list, nil, cons, end, field}
use frappe_erp_next.Workflow.Design.{approval, Stage}
use frappe_erp_next.Workflow.Tests.{stage_of}
use frappe_erp_next.Workflow.Runtime.Assign.{users_for_roles}
use frappe_erp_next.Workflow.Runtime.State.{Task, Engine}
use frappe_erp_next.Workflow.Runtime.Tests.{site_for, site, task, engine, or_blank}
use frappe_erp_next.Workflow.Runtime.Deadlines.{send_reminders, escalate_task}

-- An open task that is due at 120 and to be reminded of at 90; the time is 100.
abbrev timed : Task
timed = record (task 1 "sign" "dana") { due_on = some (pos 120); reminder_on = some (pos 90) }

reminded_now : (send_reminders (site "ann") (engine "ann" timed)).notified ≡ "dana" ∷ []
unfolding send_reminders
reminded_now = refl

abbrev handing : Fields
handing =
    field "escalation_roles" (list (cons (str "Director") nil))
      (field "reassign_on_overdue" (bool true) end)

abbrev sign : Stage
sign = stage_of "sign" approval handing

abbrev late : Task
late = record (task 1 "sign" "fred") { due_on = some (pos 80) }

abbrev handed : Engine
unfolding escalate_task
handed =
    or_blank (escalate_task (site_for (sign ∷ []) [] "ann") (λ e t. ok e) (engine "ann" late) late)

handed_ok :
    escalate_task (site_for (sign ∷ []) [] "ann") (λ e t. ok e) (engine "ann" late) late ≡ ok handed
unfolding escalate_task users_for_roles
handed_ok = refl

handed_to : map (λ t. t.assigned_to) handed.tasks ≡ "dana" ∷ []
unfolding escalate_task users_for_roles
handed_to = refl
