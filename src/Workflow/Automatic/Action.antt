-- ===== src/Workflow/Automatic/Action.antt =====
-- `normalize_action` of asoud_erp/services/automatic_action_policy.py.
use frappe_erp_next.Prelude.{
  ℕ, suc, String, Bool, true, false, not, ◌&&◌, ◌||◌, Option, none, some, List, [], ◌∷◌, ◌==◌, eqb,
  leb, if◌then◌else◌, contains,
}
use frappe_erp_next.Prelude.Int.{pos}
use frappe_erp_next.Prelude.Result.{Result, ok, err, ◌>>=◌, ◌>>◌, raise_if}
use frappe_erp_next.Python.{
  Value, Items, Fields, bool, int, str, list, dict, nil, cons, end, get, get_or, is_part, truthy,
}
use frappe_erp_next.Workflow.Automatic.{
  PolicyError, invalid, bounded_int, identifier, text, only_keys, dict_of, Entry, source, mappings,
  Target, target,
}
use frappe_erp_next.Workflow.Automatic.Formula.{Parser, validate_formula}

-- Besides the parser, the text that `VARIABLE.sub("", message)` leaves.
pub record Library : Type 0 where
  pub parser : Parser
  pub without_variables : String → String

-- The action, with what the dictionary `operation` holds for its kind.
pub data Operation : Type 0 where
  create_request : List (String × Entry) → Bool → String → Operation
  create_document : List (String × Entry) → Bool → String → String → Operation
  update_fields : Target → List (String × Entry) → Operation
  change_status : Target → String → Operation
  send_notification : List String → List String → String → Operation
  calculate_value : Target → String → List (String × Entry) → String → Option String → Operation
  link_record : Target → String → String → Entry → String → String → String → Operation

pub record ExecutionPolicy : Type 0 where
  pub extra_attempts : ℕ
  pub retry_seconds : ℕ
  pub timeout_seconds : ℕ

pub record Action : Type 0 where
  pub operation : Operation
  pub execution : ExecutionPolicy

-- A text that is one of these.
abbrev pub one_of : List String → Value → Result PolicyError String
one_of names (str s) = if contains names s then ok s else err invalid
one_of names _ = err invalid

abbrev pub link_of : Fields → Result PolicyError Bool
link_of payload = elim (get_or payload "link_original" (bool true)) [
  | bool b ↦ ok b
  | _ ↦ err invalid
]

abbrev pub list_of : Value → Result PolicyError Items
list_of (list xs) = ok xs
list_of _ = err invalid

abbrev pub texts : Items → Result PolicyError (List String)
texts nil = ok []
texts (cons v rest) = do s ← text 140 v; more ← texts rest; ok (s ∷ more)

abbrev pub channels_of : Items → Result PolicyError (List String)
channels_of nil = ok []
channels_of (cons v rest) = do
  s ← one_of ("in_app" ∷ "email" ∷ []) v
  more ← channels_of rest
  ok (s ∷ more)

abbrev pub size_of : Items → ℕ
size_of nil = 0
size_of (cons _ rest) = suc (size_of rest)

-- `list(dict.fromkeys(items))`: the first of equal items stays.
abbrev pub unique_after : List String → List String → List String
unique_after seen [] = []
unique_after seen (x ∷ xs) =
    let rest = unique_after (x ∷ seen) xs in if contains seen x then rest else x ∷ rest

abbrev pub from_keys : List String → List String
from_keys = unique_after []

abbrev pub allowed_keys : String → List String
allowed_keys kind =
    if kind == "Create Request"
    then "request_type" ∷ "mapping" ∷ "link_original" ∷ []
    else if kind == "Create Document"
    then "doctype" ∷ "initial_state" ∷ "mapping" ∷ "link_original" ∷ []
    else if kind == "Update Fields"
    then "target" ∷ "mapping" ∷ []
    else if kind == "Change Status"
    then "target" ∷ "transition" ∷ []
    else if kind == "Send Notification"
    then "recipients" ∷ "channels" ∷ "message" ∷ []
    else if kind == "Calculate Value"
    then "target" ∷ "field" ∷ "method" ∷ "inputs" ∷ "formula" ∷ []
    else "target" ∷ "doctype" ∷ "lookup_field" ∷ "lookup" ∷ "relationship" ∷ "missing" ∷ "multiple"
      ∷ []

abbrev pub actions : List String
actions =
    "Create Request" ∷ "Create Document" ∷ "Update Fields" ∷ "Change Status" ∷ "Send Notification"
    ∷ "Calculate Value" ∷ "Link Record" ∷ []

abbrev pub request_operation : Fields → Result PolicyError Operation
request_operation payload = do
  mapping ← mappings (get payload "mapping")
  link ← link_of payload
  request_type ← text 140 (get payload "request_type")
  ok (create_request mapping link request_type)

abbrev pub document_operation : Fields → Result PolicyError Operation
document_operation payload = do
  mapping ← mappings (get payload "mapping")
  link ← link_of payload
  doctype ← text 140 (get payload "doctype")
  state ← one_of ("Draft" ∷ "Submitted" ∷ []) (get_or payload "initial_state" (str "Draft"))
  ok (create_document mapping link doctype state)

abbrev pub update_operation : Fields → Result PolicyError Operation
update_operation payload = do
  to ← target (get payload "target")
  mapping ← mappings (get payload "mapping")
  ok (update_fields to mapping)

abbrev pub status_operation : Fields → Result PolicyError Operation
status_operation payload = do
  to ← target (get payload "target")
  transition ← text 140 (get payload "transition")
  ok (change_status to transition)

abbrev pub notification_operation : Library → Fields → Result PolicyError Operation
notification_operation lib payload = do
  recipients ← list_of (get payload "recipients")
  raise_if (not (leb 1 (size_of recipients) && leb (size_of recipients) 30)) invalid
  people ← texts recipients
  channels ← list_of (get payload "channels")
  raise_if (not (leb 1 (size_of channels))) invalid
  ways ← channels_of channels
  message ← text 2000 (get payload "message")
  raise_if
      (is_part "{{" (lib.without_variables message) || is_part "}}" (lib.without_variables message))
      invalid
  ok (send_notification (from_keys people) (from_keys ways) message)

abbrev pub text_value : Value → Result PolicyError String
text_value (str s) = ok s
text_value _ = err invalid

-- The formula, which no other method has.
abbrev pub formula_of : Library → String → Value → List String → Result PolicyError (Option String)
formula_of lib method v variables =
    if method == "formula"
    then (do tree ← validate_formula lib.parser v variables; s ← text_value v; ok (some s))
    else if truthy v
    then err invalid
    else ok none

abbrev pub keys_of : List (String × Entry) → List String
keys_of [] = []
keys_of ((k, e) ∷ rest) = k ∷ keys_of rest

abbrev pub calculation : Library → Fields → Result PolicyError Operation
calculation lib payload = do
  to ← target (get payload "target")
  name ← identifier (get payload "field")
  inputs ← mappings (get payload "inputs")
  method ← one_of ("sum" ∷ "average" ∷ "formula" ∷ []) (get payload "method")
  formula ← formula_of lib method (get payload "formula") (keys_of inputs)
  ok (calculate_value to name inputs method formula)

abbrev pub link_operation : Fields → Result PolicyError Operation
link_operation payload = do
  to ← target (get payload "target")
  doctype ← text 140 (get payload "doctype")
  lookup_field ← identifier (get payload "lookup_field")
  lookup ← source (get payload "lookup")
  relationship ← one_of ("related" ∷ "supports" ∷ "follows" ∷ []) (get payload "relationship")
  missing ← one_of ("error" ∷ "skip" ∷ []) (get payload "missing")
  multiple ← one_of ("error" ∷ []) (get payload "multiple")
  ok (link_record to doctype lookup_field lookup relationship missing multiple)

abbrev pub operation_of : Library → String → Fields → Result PolicyError Operation
operation_of lib kind payload =
    if kind == "Create Request"
    then request_operation payload
    else if kind == "Create Document"
    then document_operation payload
    else if kind == "Update Fields"
    then update_operation payload
    else if kind == "Change Status"
    then status_operation payload
    else if kind == "Send Notification"
    then notification_operation lib payload
    else if kind == "Calculate Value"
    then calculation lib payload
    else link_operation payload

unfoldable pub execution_of : Value → Result PolicyError ExecutionPolicy
execution_of raw = do
  policy ← dict_of raw
  raise_if (not (only_keys ("extra_attempts" ∷ "retry_seconds" ∷ "timeout_seconds" ∷ []) policy))
      invalid
  extra ← bounded_int (get_or policy "extra_attempts" (int (pos 0))) 0 5
  retry ← bounded_int (get_or policy "retry_seconds" (int (pos 60))) 30 3600
  timeout ← bounded_int (get_or policy "timeout_seconds" (int (pos 120))) 10 300
  ok (record { extra_attempts = extra; retry_seconds = retry; timeout_seconds = timeout })

-- `raw.get("schema_version") != 2`, negated
abbrev pub is_version_two : Value → Bool
is_version_two (int (pos n)) = eqb n 2
is_version_two _ = false

-- `normalize_action(raw)`
unfoldable pub normalize_action : Library → Value → Result PolicyError Action
normalize_action lib raw = do
  m ← dict_of raw
  raise_if
      (not (
        only_keys
          ("title" ∷ "description" ∷ "schema_version" ∷ "action_type" ∷ "operation" ∷ "execution"
            ∷ [])
          m))
      invalid
  raise_if (not (is_version_two (get m "schema_version"))) invalid
  kind ← one_of actions (get m "action_type")
  payload ← dict_of (get m "operation")
  raise_if (not (only_keys (allowed_keys kind) payload)) invalid
  operation ← operation_of lib kind payload
  execution ← execution_of (get_or m "execution" (dict end))
  ok (record { operation = operation; execution = execution })
