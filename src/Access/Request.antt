-- ===== src/Access/Request.antt =====
-- asoud_erp/services/request_access.py and the rule of asoud_erp/services/certificate_access.py: who
-- may see a company, a request, the rows of its workflow, and its files. The user is the argument
-- or the session's, whichever the code takes. A query is the condition that its text states on a row.
pub mod Listed
use frappe_erp_next.Prelude.{
  String, Bool, true, false, not, ◌&&◌, ◌||◌, Option, none, some, List, [], ◌∷◌, ◌==◌,
  if◌then◌else◌, contains, any, select, is_empty,
}

-- What the framework answers a hook: `True`, `False`, or `None` for its ordinary permissions.
pub data Permission : Type 0 where
  allowed denied deferred : Permission

-- A row of ASOUD Workflow Request; no instance is "".
pub record Request : Type 0 where
  pub name : String
  pub company : String
  pub owner : String
  pub workflow_instance : String

-- A row of File; an unset column is "".
pub record File : Type 0 where
  pub attached_to_doctype : String
  pub attached_to_name : String
  pub attached_to_field : String
  pub is_private : Bool

-- The instance of a task, an activity or an instance.
pub record Running : Type 0 where
  pub reference_doctype : String
  pub reference_name : String

-- The settings, the tables and the answers of the framework, and of other modules the service user
-- of a company (`none` where it raises PermissionError), the hooks of directives (`none` for `None`)
-- and of form entries.
pub record Realm : Type 0 where
  pub configured_service_user : Option String
  pub service_user : String → Option String
  pub roles : String → List String
  pub companies : List String
  pub company_permission : String → String → Bool
  pub office_role : String → String → Bool
  pub active_employee : String → String → Bool
  pub reads_company : String → String → Bool
  pub assigned_to : String → String → Bool
  pub request : String → Request
  pub running_of_task : String → Running
  pub directive_file : File → String → Option String → Option Permission
  pub directive_record : Running → String → Option String → Option Permission
  pub entry_permission : Running → String → Option String → Permission

abbrev pub is_user : String → Option String → Bool
is_user user none = false
is_user user (some u) = user == u

abbrev pub has_any : List String → List String → Bool
has_any roles held = any (contains held) roles

abbrev pub office_roles : List String
office_roles = "System Manager" ∷ "HR Manager" ∷ "Accounts Manager" ∷ "Accounts User" ∷ []

abbrev pub manager_roles : List String
manager_roles = "System Manager" ∷ "HR Manager" ∷ []

-- `if result is not None: return result`
abbrev pub unless_none : Option Permission → Permission → Permission
unless_none none p = p
unless_none (some answer) p = answer

-- `company_access(company, user)`
unfoldable pub company_access : Realm → String → String → Bool
company_access r company user =
    if (user == "Guest") || (company == "")
    then false
    else if is_user user r.configured_service_user
    then is_user user (r.service_user company)
    else if contains (r.roles user) "HR Manager" && r.company_permission user company
    then true
    else if r.office_role user company
    then true
    else if not (has_any office_roles (r.roles user))
    then r.active_employee user company
    else if r.reads_company user company
    then true
    else r.active_employee user company

-- `permission_type in (None, "read", "select")`
abbrev pub is_reading : Option String → Bool
is_reading none = true
is_reading (some t) = (t == "read") || (t == "select")

abbrev pub is_assignee : Realm → String → Request → Bool
is_assignee r user q = not (q.workflow_instance == "") && r.assigned_to user q.workflow_instance

-- `request_permission(doc, user, permission_type)`
unfoldable pub request_permission : Realm → Request → String → Option String → Permission
request_permission r q user kind =
    if is_user user r.configured_service_user
    then (if company_access r q.company user then deferred else denied)
    else if not (is_reading kind)
    then denied
    else if not (company_access r q.company user)
    then denied
    else if (q.owner == user) || has_any manager_roles (r.roles user)
    then allowed
    else if is_assignee r user q
    then allowed
    else denied

-- `[company for company in companies if company_access(company, user)]`
abbrev pub allowed_companies : Realm → String → List String
allowed_companies r user = select (λ c. company_access r c user) r.companies

-- `request_query(user)`, of a row
unfoldable pub request_query : Realm → String → Request → Bool
request_query r user q =
    if user == "Guest"
    then false
    else if is_empty (allowed_companies r user)
    then false
    else if has_any manager_roles (r.roles user)
    then contains (allowed_companies r user) q.company
    else ((q.owner == user) || r.assigned_to user q.workflow_instance)
      && contains (allowed_companies r user) q.company

-- `certificate_access.can_download(...)`
abbrev pub can_download : String → List String → String → Bool → Bool
can_download user roles owner company_ok =
    if not company_ok || (user == "") || (user == "Guest")
    then false
    else (user == owner) || has_any manager_roles roles

-- `certificate_permission(request, user)`
abbrev pub certificate_permission : Realm → Request → String → Bool
certificate_permission r q user =
    can_download user (r.roles user) q.owner (company_access r q.company user)

abbrev pub permission_of : Bool → Permission
permission_of true = allowed
permission_of false = denied

abbrev pub grants : Permission → Bool
grants allowed = true
grants _ = false

-- `workflow_record_permission(doc, user, permission_type)`
abbrev pub record_permission : Realm → Running → String → Option String → Permission
record_permission r i user kind =
    if i.reference_doctype == "ASOUD Form Entry"
    then r.entry_permission i user kind
    else if not (i.reference_doctype == "ASOUD Workflow Request")
    then deferred
    else request_permission r (r.request i.reference_name) user kind

abbrev pub workflow_record_permission : Realm → Running → String → Option String → Permission
workflow_record_permission r i user kind =
    unless_none (r.directive_record i user kind) (record_permission r i user kind)

abbrev pub request_file : Realm → File → String → Option String → Permission
request_file r f user kind =
    if not f.is_private || (f.attached_to_name == "")
    then denied
    else if grants (request_permission r (r.request f.attached_to_name) user kind)
        && (f.attached_to_field == "certificate")
    then permission_of (certificate_permission r (r.request f.attached_to_name) user)
    else request_permission r (r.request f.attached_to_name) user kind

abbrev pub attached_file : Realm → File → String → Option String → Permission
attached_file r f user kind =
    if (f.attached_to_doctype == "ASOUD Workflow Task") && not (f.attached_to_name == "")
    then workflow_record_permission r (r.running_of_task f.attached_to_name) user kind
    else if f.attached_to_doctype == "ASOUD Workflow Request"
    then request_file r f user kind
    else deferred

-- `file_permission(doc, user, permission_type)`
unfoldable pub file_permission : Realm → File → String → Option String → Permission
file_permission r f user kind =
    unless_none (r.directive_file f user kind) (attached_file r f user kind)
