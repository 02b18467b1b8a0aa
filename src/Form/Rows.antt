-- ===== src/Form/Rows.antt =====
-- `_item_rows` of asoud_erp/services/workflow_response.py: the rows of an item table.
use frappe_erp_next.Prelude.{
  ℕ, suc, String, Bool, true, not, ◌&&◌, ◌||◌, ◌==◌, leb, List, [], ◌∷◌, ◌++◌, contains,
  if◌then◌else◌,
}
use frappe_erp_next.Prelude.Int.{ℤ, pos}
use frappe_erp_next.Prelude.Result.{Result, ok, err, ◌>>=◌, ◌>>◌, raise_if}
use frappe_erp_next.Python.{
  Value, Items, Fields, null, str, list, dict, int, int_of, nil, cons, end, field, get, str_of,
  strip, len, truthy, ◌or◌,
}
use frappe_erp_next.Form.Values.{
  Outside, ResponseError, raised, item_table, item_row, given_or, finite_number, file_reference,
  limit_of, at_most, at_least,
}

abbrev pub count_rows : Items → ℕ
count_rows nil = 0
count_rows (cons _ rest) = suc (count_rows rest)

abbrev row_inputs : List String
row_inputs = "item_code" ∷ "qty" ∷ "uom" ∷ "description" ∷ []

abbrev row_derived : List String
row_derived =
    "item_name" ∷ "stock_uom" ∷ "conversion_factor" ∷ "stock_qty" ∷ "is_stock_item"
    ∷ "attachment_ref" ∷ []

-- `row_options`, or `{}` where it is no dictionary
abbrev pub row_options : Value → Fields
row_options (dict m) = m
row_options _ = end

abbrev row_keys : Fields → List String
row_keys o =
    row_inputs
    ++ row_derived
    ++ (if truthy (get o "note") then "note" ∷ [] else [])
    ++ (if truthy (get o "attachment") then "attachment" ∷ [] else [])

abbrev keys_within : List String → Fields → Bool
keys_within allowed end = true
keys_within allowed (field k v rest) = contains allowed k && keys_within allowed rest

-- `str(row.get(key) or "").strip()`
abbrev pub cell : Outside → Fields → String → String
cell out r k = strip (str_of out.python (get r k or str ""))

abbrev with_note : Outside → Fields → Fields → Fields → Fields
with_note out o r rest =
    if truthy (get o "note") then field "note" (str (cell out r "note")) rest else rest

abbrev file_field : Fields → Result ResponseError Fields
file_field r =
    if truthy (get r "attachment")
    then file_reference (get r "attachment") >>= (λ v. ok (field "attachment" v end))
    else ok (field "attachment" null end)

abbrev pub attachment_field : Fields → Fields → Result ResponseError Fields
attachment_field o r = if truthy (get o "attachment") then file_field r else ok end

abbrev row_fields : Outside → Fields → Value → Fields → Fields
row_fields out r qty rest = field "item_code" (str (cell out r "item_code")) (
    field "qty" qty (
      field "uom" (if cell out r "uom" == "" then null else str (cell out r "uom"))
        (field "description" (str (cell out r "description")) rest)))

abbrev pub item_fields : Outside → Fields → Fields → Result ResponseError Fields
item_fields out o r = do
  raise_if (not (keys_within (row_keys o) r)) item_row
  qty ← finite_number out (get r "qty")
  raise_if
      (cell out r "item_code" == ""
        || not (leb (len (cell out r "item_code")) 140)
        || not (out.is_positive qty))
      item_row
  raise_if
      (not (leb (len (cell out r "uom")) 140) || not (leb (len (cell out r "description")) 1000))
      item_row
  raise_if (truthy (get o "note") && not (leb (len (cell out r "note")) 500)) item_row
  last ← attachment_field o r
  ok (row_fields out r qty (with_note out o r last))

abbrev pub each_item_row : Outside → Fields → Items → Result ResponseError Items
each_item_row out o nil = ok nil
each_item_row out o (cons (dict r) rest) = do
  first ← item_fields out o r
  others ← each_item_row out o rest
  ok (cons (dict first) others)
each_item_row out o (cons _ rest) = err item_row

abbrev pub min_rows : Outside → Value → Result ResponseError ℤ
min_rows out options =
    given_or raised (int_of out.python (get (row_options options) "min_rows" or int (pos 0)))

abbrev pub item_list : Value → Result ResponseError Items
item_list (list xs) = ok xs
item_list _ = err item_table

-- `_item_rows(value, key, row_options)`
abbrev pub item_rows : Outside → Value → Value → Result ResponseError Items
item_rows out v options = do
  most ← limit_of out 100 (get (row_options options) "max_rows")
  least ← min_rows out options
  rows ← item_list v
  raise_if (not (at_most (count_rows rows) most) || not (at_least (count_rows rows) least))
      item_table
  each_item_row out (row_options options) rows
