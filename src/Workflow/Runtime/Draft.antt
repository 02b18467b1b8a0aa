-- ===== src/Workflow/Runtime/Draft.antt =====
-- `save_workflow_task_draft` of asoud_erp/api/v1/workflow_runtime.py, for tasks without the version-1
-- action contract, with the check of the attachments that a response names.
pub mod Saved
pub mod Files
use frappe_erp_next.Prelude.{
  ℕ, String, ◌≡◌, refl, Bool, true, false, not, ◌&&◌, ◌||◌, Option, none, some, List, [], ◌∷◌, ◌==◌,
  eqb, if◌then◌else◌, find, all, map,
}
use frappe_erp_next.Prelude.Result.{Result, ok, err, ◌>>=◌, ◌>>◌, check_all}
use frappe_erp_next.Python.{
  Value, Items, Fields, null, bool, int, str, list, dict, nil, cons, end, field, get, get_by,
  get_or, str_is, truthy,
}
use frappe_erp_next.Workflow.Runtime.Activate.{has_contract}
use frappe_erp_next.Workflow.Runtime.Complete.{replace_task, original_config}
use frappe_erp_next.Workflow.Runtime.State.{
  Task, Engine, EngineError, Site, get_stage, config_of, is_open,
}

pub data DraftError : Type 0 where
  no_task is_directive no_access not_owner not_open bad_response versioned : DraftError
  no_draft unknown_field bad_fields no_file : DraftError
  engine_error : EngineError → DraftError

-- Of the framework: whether a file of this address may be read.
pub record Desk : Type 0 where
  pub may_read_file : Value → Bool

-- A key that a set or a dictionary takes.
abbrev pub is_hashable : Value → Bool
is_hashable (list _) = false
is_hashable (dict _) = false
is_hashable _ = true

-- `for row in rows`
abbrev pub each_row : (Value → Result DraftError (Unit {0})) → Items → Result DraftError (Unit {0})
each_row check nil = ok tt
each_row check (cons row rows) = check row >> each_row check rows

-- The rows of the answer to a table; another answer has none.
abbrev pub table_rows : Fields → Value → Items
table_rows f (list rows) = if str_is "Table" (get f "type") then rows else nil
table_rows f _ = nil

abbrev pub answer : Fields → Value → Value
answer f (dict values) = get_by values (get f "key")
answer f _ = null

-- What is wrong with one field and its answer, before the rows of a table are looked at.
abbrev pub field_guards : Fields → Value → List (Bool × DraftError)
field_guards f (dict values) = (not (is_hashable (get f "key")), bad_fields) ∷ []
field_guards f _ = (true, bad_fields) ∷ []

abbrev pub file_guards : Desk → Fields → Value → List (Bool × DraftError)
file_guards desk f value =
    (str_is "Attachment" (get f "type") && truthy value && not (desk.may_read_file value), no_file)
    ∷ []

-- Columns that are no list: an empty value has none, and another cannot be read.
abbrev pub bad_columns : Value → Items → Result DraftError (Unit {0})
bad_columns v nil = ok tt
bad_columns v (cons _ _) = if truthy v then err bad_fields else ok tt

-- `_validate_response_attachments(fields, values)`
unfoldable mutual
  pub check_attachments : Desk → Items → Value → Result DraftError (Unit {0})
  check_attachments desk nil values = ok tt
  check_attachments desk (cons (dict f) rest) values =
      check_all (field_guards f values)
      >> check_columns desk f (table_rows f (answer f values))
      >> check_all (file_guards desk f (answer f values))
      >> check_attachments desk rest values
  check_attachments desk (cons _ rest) values = err bad_fields

  -- `field.get("columns") or []`, for each row
  pub check_columns : Desk → Fields → Items → Result DraftError (Unit {0})
  check_columns desk end rows = ok tt
  check_columns desk (field j (list columns) r) rows =
      if j == "columns"
      then each_row (check_attachments desk columns) rows
      else check_columns desk r rows
  check_columns desk (field j v r) rows =
      if j == "columns" then bad_columns v rows else check_columns desk r rows

-- `{field.get("key") for field in fields if isinstance(field, dict)}`
abbrev pub declares : String → Value → Bool
declares k (dict f) = str_is k (get f "key")
declares k _ = false

abbrev pub is_declared : Items → String → Bool
is_declared nil k = false
is_declared (cons f rest) k = declares k f || is_declared rest k

abbrev pub hashable_keys : Items → Bool
hashable_keys nil = true
hashable_keys (cons (dict f) rest) = is_hashable (get f "key") && hashable_keys rest
hashable_keys (cons _ rest) = hashable_keys rest

-- `not set(values) - allowed_keys`
abbrev pub only_declared : Items → Fields → Bool
only_declared fields end = true
only_declared fields (field k v r) = is_declared fields k && only_declared fields r

-- The fields of the stage; a text or a dictionary with something in it fails at its first part.
abbrev pub form_fields_of : Value → Result DraftError Items
form_fields_of (list fields) = ok fields
form_fields_of (str s) = if s == "" then ok nil else err bad_fields
form_fields_of (dict end) = ok nil
form_fields_of _ = err bad_fields

abbrev pub response_of : Option Value → Result DraftError Fields
response_of (some (dict values)) = ok values
response_of _ = err bad_response

abbrev pub lift_draft {ℓ} : {A : Type ℓ} → Result EngineError A → Result DraftError A
lift_draft (ok a) = ok a
lift_draft (err e) = err (engine_error e)

abbrev pub is_named : ℕ → Task → Bool
is_named name t = eqb t.name name

abbrev pub task_of : Engine → ℕ → Result DraftError Task
task_of e name = elim (find (is_named name) e.tasks) [ some t ↦ ok t | none ↦ err no_task ]

abbrev pub task_guards : Site → Task → List (Bool × DraftError)
task_guards site t =
    (site.rejects t, is_directive)
    ∷ (not (site.has_access t), no_access)
    ∷ (not (t.assigned_to == site.user), not_owner)
    ∷ (not (is_open t), not_open)
    ∷ []

abbrev pub config_guards : Fields → List (Bool × DraftError)
config_guards config =
    (has_contract config, versioned)
    ∷ (not (truthy (get_or config "allow_draft" (bool true))), no_draft)
    ∷ []

abbrev pub field_set_guards : Items → Fields → List (Bool × DraftError)
field_set_guards fields values =
    (not (hashable_keys fields), bad_fields)
    ∷ (not (only_declared fields values), unknown_field)
    ∷ []

-- `doc.draft_json = json.dumps(values)`, the model's column being what `json.loads` reads from it;
-- `doc.save()`
abbrev pub save_draft : Task → Fields → Engine → Engine
save_draft t values e = record e { tasks = replace_task (record t { draft = values }) e.tasks }

-- `save_workflow_task_draft(task, response)`, with the decoded response
unfoldable pub save_workflow_task_draft :
    Site → Desk → Engine → ℕ → Option Value → Result DraftError Engine
save_workflow_task_draft site desk e name response = do
  t ← task_of e name
  check_all (task_guards site t)
  values ← response_of response
  stage ← lift_draft (get_stage site.stages t.workflow_stage)
  config ← lift_draft (config_of stage)
  check_all (config_guards config)
  fields ← form_fields_of (get_or config "form_fields" (list nil))
  check_all (field_set_guards fields values)
  check_attachments desk fields (dict values)
  ok (save_draft t values e)
