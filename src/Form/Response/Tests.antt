-- ===== src/Form/Response/Tests.antt =====
-- A form with a hidden field, a computed one and a table of files.
use frappe_erp_next.Prelude.{suc, String, Bool, true, false, ◌&&◌, ◌≡◌, refl, some, none, leb}
use frappe_erp_next.Prelude.Int.{pos}
use frappe_erp_next.Prelude.Result.{ok, err}
use frappe_erp_next.Python.{
  Value, Items, Fields, Python, null, bool, int, str, list, dict, nil, cons, end, field, strip,
}
use frappe_erp_next.Python.Equality.{eq_value}
use frappe_erp_next.Form.Values.{Outside, required, file}
use frappe_erp_next.Form.Response.{normalize_form_response}

abbrev python : Python
python = record {
  casefold = λ s. s;
  upper = λ s. s;
  repr = λ v. "";
  parse_int = λ s. none;
  is_decimal = λ s. false;
  decimal_lt = λ a b. none;
}

abbrev is_above : Value → Bool
is_above (int (pos (suc n))) = true
is_above _ = false

abbrev outside : Outside
outside = record {
  python = python;
  float_of_int = λ z. some z;
  float_of_text = λ s. none;
  is_positive = is_above;
  is_decimal_digit = λ c. leb 48 c && leb c 57;
  iso_date = λ s. some s;
}

abbrev a_field : String → String → Fields → Value
a_field k t rest = dict (field "key" (str k) (field "type" (str t) rest))

abbrev must : Fields
must = field "required" (bool true) end

abbrev fields : Items
fields = cons (a_field "subject" "Text" must) (
    cons (a_field "urgent" "Checkbox" end) (
      cons
        (a_field "reason" "Text" (
          field "required" (bool true) (
            field "visible_when"
              (dict (field "field" (str "urgent") (field "equals" (bool true) end))) end)))
        (cons (a_field "total" "Auto" end) (
          cons
            (a_field "files" "Table"
              (field "columns" (list (cons (a_field "scan" "Attachment" must) nil)) end))
            nil))))

abbrev scans : String → Value
scans path = list (cons (dict (field "scan" (str path) end)) nil)

abbrev response : String → Value → Fields
response path urgent =
    field "subject" (str " leave ") (field "urgent" urgent (field "files" (scans path) end))

abbrev accepted : Fields
accepted =
    field "subject" (str "leave")
      (field "urgent" (bool false) (field "reason" null (field "files" (scans "/files/a.pdf") end)))

accepts :
    normalize_form_response 2 outside false
      (list fields)
      (dict (response "/files/a.pdf" (int (pos 0))))
    ≡ ok accepted
unfolding normalize_form_response eq_value strip
accepts = refl

-- A reason is asked for where the request is urgent.
asks_for_reason :
    normalize_form_response 2 outside false
      (list fields)
      (dict (response "/files/a.pdf" (bool true)))
    ≡ err required
unfolding normalize_form_response eq_value strip
asks_for_reason = refl

refuses_path :
    normalize_form_response 2 outside false
      (list fields)
      (dict (response "/etc/passwd" (bool false)))
    ≡ err file
unfolding normalize_form_response eq_value strip
refuses_path = refl
