-- ===== src/Form/Response.antt =====
-- `normalize_form_response` of asoud_erp/services/workflow_response.py. The fuel bounds the tables
-- in tables.
pub mod Typed
mod Fits
mod Tables
pub mod Sound
mod Tests
use frappe_erp_next.Prelude.{
  ℕ, zero, suc, String, Bool, true, false, not, ◌&&◌, ◌||◌, ◌==◌, leb, List, [], ◌∷◌, if◌then◌else◌,
}
use frappe_erp_next.Prelude.Int.{pos}
use frappe_erp_next.Prelude.Result.{Result, ok, err, ◌>>=◌, ◌>>◌, raise_if}
use frappe_erp_next.Python.{
  Value, Items, Fields, null, str, list, dict, nil, cons, end, field, get, truthy, str_is,
}
use frappe_erp_next.Form.Values.{
  Outside, ResponseError, not_a_form, unknown_field, auto_value, required, no_columns, raised,
  too_deep, finite_number, choice_value, choice_values, checkbox_value, link_value, select_value,
  time_value, date_value, filled_text, file_reference, can_hash,
}
use frappe_erp_next.Form.Rows.{count_rows, item_rows}
use frappe_erp_next.Form.Visible.{
  Definitions, definitions_from, is_defined, Flags, shown, visibility,
}

pub data Kind : Type 0 where
  number checkbox choice choices link select time items table file date text : Kind

-- The branch of a field type.
abbrev pub kind_of_text : String → Kind
kind_of_text s =
    if s == "Number" || s == "Currency"
    then number
    else if s == "Checkbox"
    then checkbox
    else if s == "Choice"
    then choice
    else if s == "Multi Choice"
    then choices
    else if s == "User" || s == "Department"
    then link
    else if s == "System Select"
    then select
    else if s == "Time"
    then time
    else if s == "Item Table"
    then items
    else if s == "Table"
    then Kind.table
    else if s == "Attachment"
    then file
    else if s == "Date"
    then date
    else text

abbrev pub kind_of : Value → Kind
kind_of (str s) = kind_of_text s
kind_of _ = text

abbrev pub link_only : Value → Result ResponseError Value
link_only v = do s ← link_value v; ok (str s)

abbrev pub item_table : Outside → Fields → Value → Result ResponseError Value
item_table out f v = do rows ← item_rows out v (get f "row_options"); ok (list rows)

abbrev pub is_empty : Value → Bool
is_empty null = true
is_empty (str s) = s == ""
is_empty (list nil) = true
is_empty _ = false

abbrev pub is_auto : Fields → Bool
is_auto f = str_is "Auto" (get f "type")

abbrev pub columns_of : Value → Result ResponseError Value
columns_of (list (cons c rest)) = ok (list (cons c rest))
columns_of _ = err no_columns

-- A column table, each row by the normaliser itself.
module _ (nested : Value → Value → Result ResponseError Fields) where
  abbrev pub each_table_row : Value → Items → Result ResponseError Items
  each_table_row columns nil = ok nil
  each_table_row columns (cons r rest) = do
    first ← nested columns r
    others ← each_table_row columns rest
    ok (cons (dict first) others)

  abbrev pub table_value : Fields → Value → Result ResponseError Value
  table_value f (list rows) = do
    raise_if (not (leb (count_rows rows) 100)) ResponseError.table
    columns ← columns_of (get f "columns")
    out ← each_table_row columns rows
    ok (list out)
  table_value f _ = err ResponseError.table

  -- The value of a field that is shown and not empty.
  abbrev pub value_of : Outside → Fields → Kind → Value → Result ResponseError Value
  value_of out f number v = finite_number out v
  value_of out f checkbox v = checkbox_value v
  value_of out f choice v = choice_value out f v
  value_of out f choices v = choice_values out f v
  value_of out f link v = link_only v
  value_of out f select v = select_value f v
  value_of out f time v = time_value out v
  value_of out f items v = item_table out f v
  value_of out f Kind.table v = table_value f v
  value_of out f file v = file_reference v
  value_of out f date v = date_value out v
  value_of out f text v = filled_text out f v

  abbrev pub given_value : Outside → Fields → Value → Result ResponseError Value
  given_value out f v =
      raise_if (not (can_hash (get f "type"))) raised >> value_of out f (kind_of (get f "type")) v

  abbrev pub shown_value : Outside → Fields → Value → Result ResponseError Value
  shown_value out f v =
      raise_if (truthy (get f "required") && is_empty v) required
      >> (if is_empty v then ok null else given_value out f v)

  abbrev pub field_values : Outside → Flags → Fields → Definitions → Result ResponseError Fields
  field_values out flags raw [] = ok end
  field_values out flags raw ((k, f) ∷ rest) =
      if is_auto f
      then field_values out flags raw rest
      else ((if shown flags k then shown_value out f (get raw k) else ok null) >>= λ v.
          field_values out flags raw rest >>= λ others. ok (field k v others))

abbrev all_defined : Definitions → Fields → Bool
all_defined ds end = true
all_defined ds (field k v rest) = is_defined k ds && all_defined ds rest

abbrev field_of : Definitions → String → Fields
field_of [] k = end
field_of ((j, f) ∷ rest) k = if j == k then f else field_of rest k

abbrev is_blank_value : Value → Bool
is_blank_value null = true
is_blank_value (str s) = s == ""
is_blank_value _ = false

abbrev gives_auto : Definitions → Fields → Bool
gives_auto ds end = false
gives_auto ds (field k v rest) =
    (str_is "Auto" (get (field_of ds k) "type") && not (is_blank_value v)) || gives_auto ds rest

abbrev pub normalize_with :
    (Value → Value → Result ResponseError Fields)
    → Outside
    → Bool
    → Value
    → Value
    → Result ResponseError Fields
normalize_with nested out allow_auto (list fields) (dict raw) = do
  let ds = definitions_from out fields []
  raise_if (not (all_defined ds raw)) unknown_field
  raise_if (not allow_auto && gives_auto ds raw) auto_value
  flags ← visibility ds raw
  field_values nested out flags raw ds
normalize_with nested out allow_auto _ _ = err not_a_form

-- `normalize_form_response(fields, response, allow_auto)`
unfoldable pub normalize_form_response :
    ℕ → Outside → Bool → Value → Value → Result ResponseError Fields
normalize_form_response zero out allow_auto fields response = err too_deep
normalize_form_response (suc n) out allow_auto fields response =
    normalize_with (normalize_form_response n out false) out allow_auto fields response
