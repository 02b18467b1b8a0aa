-- ===== src/Workflow/Response/Limits.antt =====
-- `validate_request_bounds` of asoud_erp/services/workflow_step_validation.py.
use frappe_erp_next.Prelude.{String, Bool, false, not, ◌&&◌, ◌||◌, none, some, if◌then◌else◌}
use frappe_erp_next.Prelude.Result.{Result, ok, err, ◌>>=◌, ◌>>◌, raise_if}
use frappe_erp_next.Python.{
  Value, Items, Fields, Python, null, str, list, dict, nil, cons, get, get_by, get_or, has_key,
  str_is, str_of, strip, is_blank, truthy,
}
use frappe_erp_next.Workflow.Response.{
  StepError, malformed, not_a_number, too_small, too_large, no_reason, items_of, is_projected,
  project_request_rows,
}

abbrev pub is_less : Python → String → String → Bool
is_less py a b = elim (py.decimal_lt a b) [ some b' ↦ b' | none ↦ false ]

-- `value not in (None, "")`
abbrev pub is_answered : Value → Bool
is_answered null = false
is_answered v = not (str_is "" v)

abbrev pub is_numeric : Fields → Bool
is_numeric f = str_is "Number" (get f "type") || str_is "Currency" (get f "type")

abbrev pub gives_reason : Value → Bool
gives_reason (str s) = not (is_blank s)
gives_reason _ = false

-- `Decimal(text)` does not raise and is finite, of Python's library.
module _ (py : Python) (is_finite : String → Bool) where
  -- `_number(value, label)`: the text of the number
  abbrev pub number : Value → Result StepError String
  number v = let s = strip (str_of py v) in if is_finite s then ok s else err not_a_number

  -- `numeric > minimum`
  abbrev pub check_minimum : Fields → String → Result StepError (Unit {0})
  check_minimum f n =
      if has_key f "min_value_exclusive"
      then (do
        least ← number (get f "min_value_exclusive")
        raise_if (not (is_less py least n)) too_small)
      else ok tt

  -- `numeric <= requested`
  abbrev pub check_maximum : Fields → Fields → String → Result StepError (Unit {0})
  check_maximum f request n =
      if truthy (get f "max_from_request")
      then (do
        most ← number (get_by request (get f "max_from_request"))
        raise_if (is_less py most n) too_large)
      else ok tt

  -- A lower value than the requested one has a reason.
  abbrev pub check_reason : Fields → Fields → Fields → String → Result StepError (Unit {0})
  check_reason f request response n =
      if truthy (get f "reason_required_if_less_than")
      then (do
        asked ← number (get_by request (get f "reason_required_if_less_than"))
        raise_if (is_less py n asked && not (gives_reason (get_by response (get f "reason_field"))))
            no_reason)
      else ok tt

  abbrev pub check_number : Fields → Fields → Fields → Result StepError (Unit {0})
  check_number f request response =
      if is_numeric f && is_answered (get_by response (get f "key"))
      then (do
        n ← number (get_by response (get f "key"))
        check_minimum f n
        check_maximum f request n
        check_reason f request response n)
      else ok tt

  abbrev pub check_cell : Fields → Fields → Fields → Result StepError (Unit {0})
  check_cell column source row =
      if truthy (get column "max_from_row") && is_answered (get_by row (get column "key"))
      then (do
        n ← number (get_by row (get column "key"))
        most ← number (get_by source (get column "max_from_row"))
        raise_if (is_less py most n) too_large)
      else ok tt

  abbrev pub check_row : Items → Fields → Fields → Result StepError (Unit {0})
  check_row nil source row = ok tt
  check_row (cons (dict column) rest) source row =
      check_cell column source row >> check_row rest source row
  check_row (cons _ rest) source row = err malformed

  abbrev pub check_rows : Items → Items → Items → Result StepError (Unit {0})
  check_rows columns (cons (dict source) sources) (cons (dict row) rows) =
      check_row columns source row >> check_rows columns sources rows
  check_rows columns nil nil = ok tt
  check_rows columns _ _ = err malformed

  abbrev pub check_table : Fields → Fields → Fields → Result StepError (Unit {0})
  check_table f request response =
      if is_projected f
      then (do
        rows ← items_of (get_by response (get f "key"))
        source ← items_of (get_by request (get f "rows_from_request"))
        columns ← items_of (get_or f "columns" (list nil))
        check_rows columns source rows)
      else ok tt

  abbrev pub check_fields : Items → Fields → Fields → Result StepError (Unit {0})
  check_fields nil request response = ok tt
  check_fields (cons (dict f) rest) request response =
      check_number f request response
      >> check_table f request response
      >> check_fields rest request response
  check_fields (cons _ rest) request response = err malformed

  -- `validate_request_bounds(fields, request_values, response)`
  unfoldable pub validate_request_bounds : Items → Fields → Fields → Result StepError Fields
  validate_request_bounds fields request response = do
    projected ← project_request_rows fields request response
    check_fields fields request projected
    ok projected
