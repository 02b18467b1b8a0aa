-- ===== src/Workflow/Response.antt =====
-- asoud_erp/services/workflow_step_validation.py: a response is bound to the values of the request.
-- The keys of fields are texts. Columns are taken in order, where the code has a set of their keys.
pub mod Limits
pub mod Rows
pub mod Tables
pub mod Bounds
mod Tests
use frappe_erp_next.Prelude.{
  ℕ, suc, String, Bool, true, false, not, ◌&&◌, ◌||◌, Option, none, some, List, [], ◌∷◌, ◌==◌, eqb,
  if◌then◌else◌,
}
use frappe_erp_next.Prelude.Result.{Result, ok, err, ◌>>=◌, ◌>>◌, raise_if}
use frappe_erp_next.Python.{
  Value, Items, Fields, Python, null, bool, str, list, dict, nil, cons, end, get, get_by, get_or,
  has_key, put, str_is, str_of, strip, is_blank, truthy,
}
use frappe_erp_next.Python.Equality.{eq_value}

pub data StepError : Type 0 where
  malformed bad_source row_count bad_row missing_column read_only : StepError
  not_a_number too_small too_large no_reason : StepError

-- `for item in value`, where the items are dictionaries: a text has no such item.
abbrev pub items_of : Value → Result StepError Items
items_of (list xs) = ok xs
items_of (str s) = if s == "" then ok nil else err malformed
items_of (dict end) = ok nil
items_of _ = err malformed

abbrev pub all_dicts : Items → Bool
all_dicts nil = true
all_dicts (cons (dict _) rest) = all_dicts rest
all_dicts (cons _ rest) = false

abbrev pub source_rows_of : Value → Result StepError Items
source_rows_of (list rows) = if all_dicts rows then ok rows else err bad_source
source_rows_of _ = err bad_source

abbrev pub blank_rows : Items → Items
blank_rows nil = nil
blank_rows (cons _ rest) = cons (dict end) (blank_rows rest)

abbrev pub count_items : Items → ℕ
count_items nil = 0
count_items (cons _ rest) = suc (count_items rest)

abbrev pub supplied_rows : Items → Value → Result StepError Items
supplied_rows source null = ok (blank_rows source)
supplied_rows source (list rows) =
    if eqb (count_items rows) (count_items source) then ok rows else err row_count
supplied_rows source _ = err row_count

abbrev pub is_true : Value → Bool
is_true (bool b) = b
is_true _ = false

abbrev pub is_key : Value → Bool
is_key (list _) = false
is_key (dict _) = false
is_key _ = true

-- The keys of the columns that are read only.
abbrev pub request_columns : Items → Result StepError (List Value)
request_columns nil = ok []
request_columns (cons (dict c) rest) = do
  keys ← request_columns rest
  raise_if (is_true (get c "readonly") && truthy (get c "key") && not (is_key (get c "key")))
      malformed
  ok (if is_true (get c "readonly") && truthy (get c "key") then get c "key" ∷ keys else keys)
request_columns (cons _ rest) = err malformed

-- `row[key] = source_row[key]`, where the row has no other value there
abbrev pub seed_column : Value → Fields → Fields → Result StepError Fields
seed_column (str k) source row = do
  raise_if (not (has_key source k)) missing_column
  raise_if (has_key row k && not (eq_value (get row k) (get source k))) read_only
  ok (put k (get source k) row)
seed_column _ source row = err missing_column

abbrev pub seed : List Value → Fields → Fields → Result StepError Fields
seed [] source row = ok row
seed (k ∷ ks) source row = do seeded ← seed_column k source row; seed ks source seeded

abbrev pub project_rows : List Value → Items → Items → Result StepError Items
project_rows keys nil nil = ok nil
project_rows keys (cons (dict source) sources) (cons (dict row) rows) = do
  first ← seed keys source row
  rest ← project_rows keys sources rows
  ok (cons (dict first) rest)
project_rows keys (cons _ _) (cons _ _) = err bad_row
project_rows keys _ _ = err row_count

abbrev pub key_of : Value → Result StepError String
key_of (str k) = ok k
key_of _ = err malformed

abbrev pub is_projected : Fields → Bool
is_projected f = str_is "Table" (get f "type") && truthy (get f "rows_from_request")

abbrev pub project_table : Fields → Fields → Fields → Result StepError Fields
project_table f request result = do
  source ← source_rows_of (get_by request (get f "rows_from_request"))
  key ← key_of (get f "key")
  supplied ← supplied_rows source (get result key)
  columns ← items_of (get_or f "columns" (list nil))
  keys ← request_columns columns
  rows ← project_rows keys source supplied
  ok (put key (list rows) result)

abbrev pub project_field : Fields → Fields → Fields → Result StepError Fields
project_field f request result =
    if is_projected f then project_table f request result else ok result

-- `project_request_rows(fields, request_values, response)`; no response is `{}`
unfoldable pub project_request_rows : Items → Fields → Fields → Result StepError Fields
project_request_rows nil request result = ok result
project_request_rows (cons (dict f) rest) request result = do
  next ← project_field f request result
  project_request_rows rest request next
project_request_rows (cons _ rest) request result = err malformed
