-- ===== src/Workflow/Runtime/Launch/Existing.antt =====
-- The instance that `start_workflow_instance` of asoud_erp/api/v1/workflow_runtime.py finds: of a call
-- that is sent again, and of its record.
use frappe_erp_next.Prelude.{
  String, Bool, true, false, not, ◌&&◌, ◌||◌, Option, none, some, List, [], ◌∷◌, ◌==◌,
  if◌then◌else◌, find,
}
use frappe_erp_next.Prelude.Result.{Result, ok, ◌>>=◌}
use frappe_erp_next.Python.{Fields}
use frappe_erp_next.Workflow.Start.{StartMode, reuse, new, start_decision}
use frappe_erp_next.Workflow.Runtime.State.{InstanceStatus, Site, running}
use frappe_erp_next.Workflow.Runtime.Launch.{
  Request, Started, Instance, Store, LaunchError, wrong_request, Args, Office, is_entry, is_request,
  is_given, lift_start, is_configured, is_restarting, manager_restart, requester_only,
}
use frappe_erp_next.Workflow.Runtime.Launch.{text_of}

abbrev pub same_text : Option String → Option String → Bool
same_text none none = true
same_text (some a) (some b) = a == b
same_text _ _ = false

-- The row of the query for `request_id` that the loop returns.
abbrev pub started_as : String → Args → Option Started → Bool
started_as user a none = false
started_as user a (some s) = (s.actor == user) && same_text s.request_id a.request_id

abbrev pub is_repeat : String → Args → Instance → Bool
is_repeat user a i = (i.workflow_definition == a.definition) && started_as user a i.started

abbrev pub repeated : String → Args → Store → Option Instance
repeated user a st = if is_given a.request_id then find (is_repeat user a) st.instances else none

-- The request of the reference belongs to this design, and to a user who may only ask.
abbrev pub request_fits : String → Office → Args → Option Request → Bool
request_fits user o a none = false
request_fits user o a (some r) =
    (r.workflow_definition == a.definition) && not (requester_only o && not (r.owner == user))

abbrev pub request_guard : Site → Office → Args → List (Bool × LaunchError)
request_guard site o a =
    (
      is_request a
          && is_given a.reference_name
          && not (request_fits site.user o a (o.request (text_of a.reference_name))),
      wrong_request,
    )
    ∷ []

abbrev pub runs : InstanceStatus → Bool
runs running = true
runs _ = false

abbrev pub is_running : Instance → Bool
is_running i = runs i.rows.status

abbrev pub refers_to : Option String → Option String → Instance → Bool
refers_to doctype name i = same_text i.reference_doctype doctype && same_text i.reference_name name

-- The rows of `lookup`, in which a running instance comes first.
abbrev pub of_design : Args → Instance → Bool
of_design a i =
    (i.workflow_definition == a.definition) && refers_to a.reference_doctype a.reference_name i

abbrev pub or_else : Option Instance → Option Instance → Option Instance
or_else (some i) j = some i
or_else none j = j

abbrev pub existing_of : Args → Store → Option Instance
existing_of a st =
    if is_given a.reference_name
    then or_else (find (λ i. of_design a i && is_running i) st.instances)
        (find (of_design a) st.instances)
    else none

abbrev pub status_name : InstanceStatus → String
status_name running = "Running"
status_name InstanceStatus.completed = "Completed"
status_name InstanceStatus.rejected = "Rejected"
status_name InstanceStatus.cancelled = "Cancelled"
status_name InstanceStatus.failed = "Failed"

abbrev pub status_text : Option Instance → String
status_text none = ""
status_text (some i) = status_name i.rows.status

-- An instance without settings is looked up by its reference alone, for a form entry or a request.
abbrev pub unconfigured_existing : Args → Store → Option Instance
unconfigured_existing a st =
    if is_entry a || (is_request a && is_given a.reference_name)
    then find (refers_to a.reference_doctype a.reference_name) st.instances
    else none

-- Whether an instance is reused; the instance found.
abbrev pub decided_start :
    Office → Args → Fields → Store → Result LaunchError (StartMode × Option Instance)
decided_start o a config st =
    if is_configured config
    then (do
      mode ← lift_start (
          start_decision config (status_text (existing_of a st)) (is_restarting a)
            (manager_restart o) a.reason)
      ok (mode, existing_of a st))
    else ok (elim (unconfigured_existing a st) [ some i ↦ (reuse, some i) | none ↦ (new, none) ])
