-- ===== src/Workflow/Runtime/Launch.antt =====
-- `start_workflow_instance` of asoud_erp/api/v1/workflow_runtime.py: the guards of a start, the
-- instance that it finds, and the instance that it makes.
pub mod Existing
pub mod Create
pub mod Made
pub mod Once
pub mod Retry
use frappe_erp_next.Prelude.{
  ℕ, suc, String, Bool, true, false, not, ◌&&◌, ◌||◌, Option, none, some, List, [], ◌∷◌, ◌==◌, eqb,
  ltb, if◌then◌else◌, any, find, contains,
}
use frappe_erp_next.Prelude.Result.{Result, ok, err, ◌>>=◌, ◌>>◌, check_all}
use frappe_erp_next.Python.{
  Value, Fields, str, end, get, get_or, str_is, str_of, strip, len, truthy,
}
use frappe_erp_next.Workflow.Design.{Stage, is_one}
use frappe_erp_next.Workflow.Activation.{is_start}
use frappe_erp_next.Workflow.Start.{
  StartError, StartMode, reuse, new, validate_request_id, start_decision,
}
use frappe_erp_next.Workflow.Runtime.Route.{next_stage}
use frappe_erp_next.Workflow.Runtime.Activate.{string_items, activate}
use frappe_erp_next.Workflow.Runtime.State.{
  InstanceStatus, Activity, Reference, Engine, EngineError, Site, running, no_next_stage,
  lift_route, get_stage, config_of,
}

-- A row of ASOUD Workflow Definition; an unset column is "".
pub record Definition : Type 0 where
  pub company : String
  pub status : String
  pub readiness_status : String
  pub source_form : String
  pub target_doctype : String

-- A row of ASOUD Workflow Request, of which the call reads two columns.
pub record Request : Type 0 where
  pub workflow_definition : String
  pub owner : String

-- The activity "Workflow Started": its actor, and the `request_id` of its `change_json`.
pub record Started : Type 0 where
  pub actor : String
  pub request_id : Option String
  pub previous_instance : Option ℕ
  pub start_mode : Value

-- A row of ASOUD Workflow Instance with the rows that belong to it.
pub record Instance : Type 0 where
  pub name : ℕ
  pub workflow_definition : String
  pub subject : String
  pub reference_doctype : Option String
  pub reference_name : Option String
  pub started : Option Started
  pub rows : Engine

-- All instances, the newest first.
pub record Store : Type 0 where
  pub instances : List Instance
  pub next_name : ℕ

pub data LaunchError : Type 0 where
  start_error : StartError → LaunchError
  engine_error : EngineError → LaunchError
  bad_definition bad_reference form_only no_company bad_restart restart_unconfigured no_role :
      LaunchError
  manual_only submission_only no_initiator half_reference own_request_only inactive short_subject :
      LaunchError
  wrong_doctype no_document not_readable wrong_request no_start_stage : LaunchError

-- The arguments of the call; `restart` is `str(restart)`.
pub record Args : Type 0 where
  pub definition : String
  pub subject : String
  pub reference_doctype : Option String
  pub reference_name : Option String
  pub reason : Value
  pub restart : String
  pub request_id : Option String

-- What the call reads besides the design: the definition's row, the session's roles, and, of other
-- modules, `company_access`, `assert_reference` (its subject, or what it raises), `request_permission`
-- and the framework's permissions and rows.
pub record Office : Type 0 where
  pub definition : Definition
  pub roles : List String
  pub may_write : Bool
  pub in_company : Bool
  pub assert_reference : Option String → Bool → Result LaunchError String
  pub exists : String → String → Bool
  pub readable : String → String → Bool
  pub request : String → Option Request
  pub reference : Option String → Option String → Reference

abbrev pub is_doctype : String → Option String → Bool
is_doctype t none = false
is_doctype t (some d) = d == t

abbrev pub is_entry : Args → Bool
is_entry a = is_doctype "ASOUD Form Entry" a.reference_doctype

abbrev pub is_request : Args → Bool
is_request a = is_doctype "ASOUD Workflow Request" a.reference_doctype

abbrev pub is_given : Option String → Bool
is_given none = false
is_given (some s) = not (s == "")

-- `value is not None and (not value or len(value) > 140)`
abbrev pub bad_text : Option String → Bool
bad_text none = false
bad_text (some s) = (s == "") || ltb 140 (len s)

-- `roles.intersection(...)`
abbrev pub holds_any : List String → List String → Bool
holds_any held roles = any (contains roles) held

-- The row that `db.get_value` finds, and its configuration.
abbrev pub start_row : List Stage → Option Stage
start_row = find is_start

abbrev pub start_config_of : Option Stage → Result EngineError Fields
start_config_of none = ok end
start_config_of (some s) = config_of s

abbrev pub lift_engine {ℓ} : {A : Type ℓ} → Result EngineError A → Result LaunchError A
lift_engine (ok a) = ok a
lift_engine (err e) = err (engine_error e)

abbrev pub lift_start {ℓ} : {A : Type ℓ} → Result StartError A → Result LaunchError A
lift_start (ok a) = ok a
lift_start (err e) = err (start_error e)

abbrev pub is_configured : Fields → Bool
is_configured config = is_one (get config "start_settings_version")

abbrev pub is_manual : Fields → Bool
is_manual config = is_configured config && str_is "Manual" (get config "trigger_type")

abbrev pub is_restarting : Args → Bool
is_restarting a = (a.restart == "1") || (a.restart == "True")

abbrev pub manager_restart : Office → Bool
manager_restart o = holds_any o.roles ("System Manager" ∷ "Accounts Manager" ∷ []) && o.may_write

-- `require_roles(...)` with no company
abbrev pub lacks_role : Site → Office → List String → Bool
lacks_role site o roles = not ((site.user == "Administrator") || holds_any o.roles roles)

abbrev pub starter_roles : List String
starter_roles =
    "System Manager" ∷ "HR Manager" ∷ "HR User" ∷ "Accounts Manager" ∷ "Accounts User"
    ∷ "Purchase Manager" ∷ "Purchase User" ∷ "Employee" ∷ []

abbrev pub wide_roles : List String
wide_roles =
    "System Manager" ∷ "HR Manager" ∷ "Accounts Manager" ∷ "Accounts User" ∷ "Purchase Manager"
    ∷ "Purchase User" ∷ []

abbrev pub requester_only : Office → Bool
requester_only o =
    holds_any o.roles ("Employee" ∷ "HR User" ∷ []) && not (holds_any o.roles wide_roles)

-- What is tested before the start stage is read.
abbrev pub argument_guards : Office → Args → List (Bool × LaunchError)
argument_guards o a =
    (not (validate_request_id a.request_id), start_error StartError.bad_request_id)
    ∷ (
      (a.definition == "")
          || ltb 140 (len a.definition)
          || ltb (len (strip a.subject)) 3
          || ltb 140 (len a.subject),
      bad_definition,
    )
    ∷ (bad_text a.reference_doctype || bad_text a.reference_name, bad_reference)
    ∷ (not (o.definition.source_form == "") && not (is_entry a), form_only)
    ∷ (not (o.definition.company == "") && not o.in_company, no_company)
    ∷ []

-- `bool(a) != bool(b)`
abbrev pub differ : Bool → Bool → Bool
differ true b = not b
differ false b = b

-- What the settings of the start stage ask for.
abbrev pub setting_guards : Site → Office → Args → Fields → List (Bool × LaunchError)
setting_guards site o a config =
    (not (contains ("0" ∷ "1" ∷ "False" ∷ "True" ∷ []) a.restart), bad_restart)
    ∷ (is_restarting a && not (is_configured config), restart_unconfigured)
    ∷ (not (is_manual config) && not (is_entry a) && lacks_role site o starter_roles, no_role)
    ∷ (is_configured config && is_manual config && is_entry a, manual_only)
    ∷ (is_configured config && not (is_manual config) && not (is_entry a), submission_only)
    ∷ (
      is_configured config
          && is_manual config
          && not (holds_any o.roles (string_items (get config "initiator_roles")))
          && not
              (is_restarting a && manager_restart o && truthy (get config "allow_manager_restart")),
      no_initiator,
    )
    ∷ (
      is_configured config && differ (is_given a.reference_name) (is_given a.reference_doctype),
      half_reference,
    )
    ∷ []

abbrev pub text_of : Option String → String
text_of none = ""
text_of (some s) = s
