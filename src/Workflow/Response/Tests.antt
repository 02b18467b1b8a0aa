-- ===== src/Workflow/Response/Tests.antt =====
-- A response to a request of five pens, of which three are handed out.
use frappe_erp_next.Prelude.{String, ◌≡◌, ◌≢◌, refl, Bool, true, ◌&&◌, ◌||◌, none, some, ◌==◌}
use frappe_erp_next.Prelude.Result.{ok, err}
use frappe_erp_next.Python.{
  Items, Fields, Python, str, bool, list, dict, nil, cons, end, field, get, strip,
}
use frappe_erp_next.Python.Equality.{eq_value}
use frappe_erp_next.Python.Members.{Among, here, there}
use frappe_erp_next.Workflow.Response.{read_only, project_request_rows}
use frappe_erp_next.Workflow.Response.Limits.{validate_request_bounds}
use frappe_erp_next.Workflow.Response.Tables.{
  Apart, ProjectedTable, project_request_rows-ProjectedTable,
}

-- Of the numbers, three and five are used.
abbrev python : Python
python = record {
  casefold = λ s. s;
  upper = λ s. s;
  repr = λ v. "";
  parse_int = λ s. none;
  is_decimal = λ s. (s == "3") || (s == "5");
  decimal_lt = λ a b. some ((a == "3") && (b == "5"));
}

abbrev is_finite : String → Bool
is_finite s = (s == "3") || (s == "5")

abbrev item : Fields
item = field "key" (str "item") (field "readonly" (bool true) end)

abbrev quantity : Fields
quantity = field "key" (str "quantity") (field "max_from_row" (str "quantity") end)

abbrev lines : Fields
lines = field "key" (str "lines") (
    field "type" (str "Table") (
      field "rows_from_request" (str "items")
        (field "columns" (list (cons (dict item) (cons (dict quantity) nil))) end)))

abbrev remark : Fields
remark = field "key" (str "remark") (field "type" (str "Text") end)

abbrev form : Items
form = cons (dict lines) (cons (dict remark) nil)

abbrev asked : Fields
asked = field "item" (str "pen") (field "quantity" (str "5") end)

abbrev request : Fields
request = field "items" (list (cons (dict asked) nil)) end

abbrev row : String → Fields
row n = field "quantity" (str n) end

abbrev response : String → Fields
response n = field "lines" (list (cons (dict (row n)) nil)) (field "remark" (str "ok") end)

abbrev handed : Fields
handed = field "quantity" (str "3") (field "item" (str "pen") end)

abbrev accepted : Fields
accepted = field "lines" (list (cons (dict handed) nil)) (field "remark" (str "ok") end)

projected_ok : project_request_rows form request (response "3") ≡ ok accepted
unfolding project_request_rows eq_value
projected_ok = refl

bounds_ok : validate_request_bounds python is_finite form request (response "3") ≡ ok accepted
unfolding validate_request_bounds project_request_rows eq_value strip
bounds_ok = refl

-- A read-only column of another value is refused.
changed_item :
    project_request_rows form request
      (field "lines" (list (cons (dict (field "item" (str "ink") end)) nil)) end)
    ≡ err read_only
unfolding project_request_rows eq_value
changed_item = refl

form-Apart : Apart form
form-Apart = (λ g m. remark_key g m, (λ g m. elim m [ ], tt))
  where
    other : str "remark" ≢ str "lines"
    other e = cc

    remark_key :
        (g : Fields) → Among (dict g) (cons (dict remark) nil) → get g "key" ≢ get lines "key"
    remark_key g here = other
    remark_key g (there m) = elim m [ ]

project_request_rows-ProjectedTable_example :
    (key : String) × (get lines "key" ≡ str key)
    × ProjectedTable lines request (get (response "3") key) (get accepted key)
project_request_rows-ProjectedTable_example =
    project_request_rows-ProjectedTable form request (response "3") lines form-Apart projected_ok
      here refl
