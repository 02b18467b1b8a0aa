-- ===== src/Workflow/Runtime/Tests/Draft.antt =====
-- A draft of a form with a table of attachments.
use frappe_erp_next.Prelude.{String, ◌≡◌, refl, true, false, some, [], ◌∷◌, ◌==◌}
use frappe_erp_next.Prelude.Result.{Result, ok, err}
use frappe_erp_next.Python.{Value, Items, Fields, str, list, dict, nil, cons, end, field}
use frappe_erp_next.Python.Members.{here, there}
use frappe_erp_next.Workflow.Design.{user_task}
use frappe_erp_next.Workflow.Tests.{stage_of, transitions}
use frappe_erp_next.Workflow.Runtime.State.{Site, Engine}
use frappe_erp_next.Workflow.Runtime.Draft.{
  DraftError, Desk, check_attachments, save_workflow_task_draft,
}
use frappe_erp_next.Workflow.Runtime.Draft.Files.{at, in_row, check_attachments-Attached}
use frappe_erp_next.Workflow.Runtime.Draft.Saved.{Saved}
use frappe_erp_next.Workflow.Runtime.Tests.{site_for, engine, task}

abbrev entry : String → String → Fields → Value
entry key kind more = dict (field "key" (str key) (field "type" (str kind) more))

abbrev columns : Items
columns = cons (entry "file" "Attachment" end) nil

abbrev form : Items
form =
    cons (entry "amount" "Number" end)
      (cons (entry "lines" "Table" (field "columns" (list columns) end)) nil)

abbrev drafting : Site
drafting =
    site_for
      (stage_of "fill" user_task
          (field "assignment_type" (str "Initiator") (field "form_fields" (list form) end))
        ∷ [])
      transitions "ann"

-- Ann may read one file.
abbrev desk : Desk
desk = record { may_read_file = λ v. elim v [ str s ↦ s == "/files/a.pdf" | _ ↦ false ] }

abbrev values : Fields
values =
    field "amount" (str "7")
      (field "lines" (list (cons (dict (field "file" (str "/files/a.pdf") end)) nil)) end)

abbrev or_engine : Result DraftError Engine → Engine
or_engine (ok e) = e
or_engine (err x) = engine "" (task 0 "" "")

abbrev rows : Engine
rows = engine "ann" (task 1 "fill" "ann")

abbrev saved : Engine
unfolding save_workflow_task_draft
saved = or_engine (save_workflow_task_draft drafting desk rows 1 (some (dict values)))

other_file :
    save_workflow_task_draft drafting desk rows 1 (
      some
        (dict (field "lines" (list (cons (dict (field "file" (str "/files/b.pdf") end)) nil)) end)))
    ≡ err DraftError.no_file
unfolding save_workflow_task_draft check_attachments
other_file = refl

checked : check_attachments desk form (dict values) ≡ ok tt
unfolding check_attachments
checked = refl

check_attachments-Attached_example : desk.may_read_file (str "/files/a.pdf") ≡ true
check_attachments-Attached_example =
    check_attachments-Attached desk checked
      (in_row
        (field "key" (str "lines")
          (field "type" (str "Table") (field "columns" (list columns) end)))
        (there here) refl here
        (at (field "key" (str "file") (field "type" (str "Attachment") end)) here refl refl))
      refl
