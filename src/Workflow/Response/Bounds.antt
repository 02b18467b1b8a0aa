-- ===== src/Workflow/Response/Bounds.antt =====
-- The limits that the request sets: `validate_request_bounds` of
-- asoud_erp/services/workflow_step_validation.py.
use frappe_erp_next.Prelude.{String, ◌≡◌, refl, subst, Bool, true, false}
use frappe_erp_next.Prelude.Result.{Result, ok, ◌>>=◌, ◌>>◌, raise_if, >>=-eq-ok}
use frappe_erp_next.Python.{
  Value, Items, Fields, Python, list, dict, nil, cons, get, get_by, get_or, truthy,
}
use frappe_erp_next.Python.Members.{Among, here, there}
use frappe_erp_next.Workflow.Response.{
  StepError, too_large, items_of, is_projected, project_request_rows,
}
use frappe_erp_next.Workflow.Response.Limits.{
  number, is_less, is_answered, is_numeric, check_minimum, check_maximum, check_number, check_cell,
  check_row, check_rows, check_table, check_fields, validate_request_bounds,
}

-- Two rows at one place of two lists.
pub data Beside (a b : Value) : Items → Items → Type 0 where
  first : {xs ys : Items} → Beside a b (cons a xs) (cons b ys)
  later : {x y : Value} {xs ys : Items} → Beside a b xs ys → Beside a b (cons x xs) (cons y ys)

-- A value of the response, and the value of the request that it may not exceed.
pub data Limited (fields : Items) (request response : Fields) : Value → Value → Type 0 where
  by_field :
      {v most : Value} (f : Fields)
      → Among (dict f) fields
      → is_numeric f ≡ true
      → truthy (get f "max_from_request") ≡ true
      → get_by response (get f "key") ≡ v
      → get_by request (get f "max_from_request") ≡ most
      → Limited fields request response v most
  by_row :
      {v most : Value} (f source row column : Fields) (sources rows columns : Items)
      → Among (dict f) fields
      → is_projected f ≡ true
      → get_by response (get f "key") ≡ list rows
      → get_by request (get f "rows_from_request") ≡ list sources
      → items_of (get_or f "columns" (list nil)) ≡ ok columns
      → Beside (dict source) (dict row) sources rows
      → Among (dict column) columns
      → truthy (get column "max_from_row") ≡ true
      → get_by row (get column "key") ≡ v
      → get_by source (get column "max_from_row") ≡ most
      → Limited fields request response v most

raise_if-ok : (b : Bool) (e : StepError) {u : Unit {0}} → raise_if b e ≡ ok u → b ≡ false
raise_if-ok false e h = refl
raise_if-ok true e h = cc

module _ (py : Python) (is_finite : String → Bool) where
  -- Both are numbers, and the first is not greater.
  abbrev pub AtMost : Value → Value → Type 0
  AtMost v most =
      (n m : String) × (number py is_finite v ≡ ok n)
      × (number py is_finite most ≡ ok m)
      × (is_less py m n ≡ false)

  abbrev numbers : Value → Value → Result StepError (Unit {0})
  numbers v most = do
    n ← number py is_finite v
    m ← number py is_finite most
    raise_if (is_less py m n) too_large

  numbers-AtMost : (v most : Value) {u : Unit {0}} → numbers v most ≡ ok u → AtMost v most
  numbers-AtMost v most h =
      let (n, p, h1) = >>=-eq-ok (number py is_finite v) _ h in
      let (m, q, h2) = >>=-eq-ok (number py is_finite most) _ h1 in
      (n, m, p, q, raise_if-ok (is_less py m n) too_large h2)

  check_fields-Among :
      (fields : Items) (request response : Fields) (f : Fields) {u : Unit {0}}
      → check_fields py is_finite fields request response ≡ ok u
      → Among (dict f) fields
      → (check_number py is_finite f request response ≡ ok tt)
        × (check_table py is_finite f request response ≡ ok tt)
  check_fields-Among nil request response f h m = elim m [ ]
  check_fields-Among (cons (dict g) rest) request response f h here =
      let (u, p, h1) =
        >>=-eq-ok
          (check_number py is_finite f request response
            >> check_table py is_finite f request response)
          _ h in
      let (v, q, h2) = >>=-eq-ok (check_number py is_finite f request response) _ p in (q, h2)
  check_fields-Among (cons (dict g) rest) request response f h (there m) =
      let (u, p, h1) =
        >>=-eq-ok
          (check_number py is_finite g request response
            >> check_table py is_finite g request response)
          _ h in
      check_fields-Among rest request response f h1 m
  check_fields-Among (cons g rest) request response f h (there m) = cc

  check_row-Among :
      (columns : Items) (source row : Fields) (c : Fields) {u : Unit {0}}
      → check_row py is_finite columns source row ≡ ok u
      → Among (dict c) columns
      → check_cell py is_finite c source row ≡ ok tt
  check_row-Among nil source row c h m = elim m [ ]
  check_row-Among (cons (dict d) rest) source row c h here =
      let (u, p, h1) = >>=-eq-ok (check_cell py is_finite c source row) _ h in p
  check_row-Among (cons (dict d) rest) source row c h (there m) =
      let (u, p, h1) = >>=-eq-ok (check_cell py is_finite d source row) _ h in
      check_row-Among rest source row c h1 m
  check_row-Among (cons d rest) source row c h (there m) = cc

  check_rows-Beside :
      (columns sources rows : Items) (source row : Fields) {u : Unit {0}}
      → check_rows py is_finite columns sources rows ≡ ok u
      → Beside (dict source) (dict row) sources rows
      → check_row py is_finite columns source row ≡ ok tt
  check_rows-Beside columns nil rows source row h m = elim m [ ]
  check_rows-Beside columns (cons s sources) nil source row h m = elim m [ ]
  check_rows-Beside columns (cons (dict s) sources) (cons (dict r) rows) source row h first =
      let (u, p, h1) = >>=-eq-ok (check_row py is_finite columns source row) _ h in p
  check_rows-Beside columns (cons (dict s) sources) (cons (dict r) rows) source row h (later m) =
      let (u, p, h1) = >>=-eq-ok (check_row py is_finite columns s r) _ h in
      check_rows-Beside columns sources rows source row h1 m
  check_rows-Beside columns (cons s sources) (cons r rows) source row h (later m) = cc

  check_maximum-AtMost :
      (f request : Fields) (n : String) {u : Unit {0}}
      → check_maximum py is_finite f request n ≡ ok u
      → truthy (get f "max_from_request") ≡ true
      → (m : String) × (number py is_finite (get_by request (get f "max_from_request")) ≡ ok m)
        × (is_less py m n ≡ false)
  check_maximum-AtMost f request n h t =
      let (m, z, h1) =
        >>=-eq-ok (number py is_finite (get_by request (get f "max_from_request"))) _ (rw t at h) in
      (m, z, raise_if-ok (is_less py m n) too_large h1)

  check_number-AtMost :
      (f request response : Fields)
      → check_number py is_finite f request response ≡ ok tt
      → is_numeric f ≡ true
      → is_answered (get_by response (get f "key")) ≡ true
      → truthy (get f "max_from_request") ≡ true
      → AtMost (get_by response (get f "key")) (get_by request (get f "max_from_request"))
  check_number-AtMost f request response h k a t =
      let (n, p, h1) =
        >>=-eq-ok (number py is_finite (get_by response (get f "key"))) _ (rw (k, a) at h) in
      let (u, q, h2) = >>=-eq-ok (check_minimum py is_finite f n) _ h1 in
      let (v, r, h3) = >>=-eq-ok (check_maximum py is_finite f request n) _ h2 in
      let (m, z, below) = check_maximum-AtMost f request n r t in (n, m, p, z, below)

  check_cell-AtMost :
      (column source row : Fields)
      → check_cell py is_finite column source row ≡ ok tt
      → is_answered (get_by row (get column "key")) ≡ true
      → truthy (get column "max_from_row") ≡ true
      → AtMost (get_by row (get column "key")) (get_by source (get column "max_from_row"))
  check_cell-AtMost column source row h a t =
      numbers-AtMost (get_by row (get column "key")) (get_by source (get column "max_from_row"))
        (rw (t, a) at h)

  check_table-rows :
      (f request response : Fields) {sources rows columns : Items}
      → check_table py is_finite f request response ≡ ok tt
      → is_projected f ≡ true
      → get_by response (get f "key") ≡ list rows
      → get_by request (get f "rows_from_request") ≡ list sources
      → items_of (get_or f "columns" (list nil)) ≡ ok columns
      → check_rows py is_finite columns sources rows ≡ ok tt
  check_table-rows f request response h t r s c = rw (t, r, s, c) at h

  -- No number of an accepted response, in a field or in the row of a table that comes from the
  -- request, is greater than the request's value that limits it; both are finite numbers.
  pub validate_request_bounds-AtMost :
      (fields : Items) (request response : Fields) {accepted : Fields} {v most : Value}
      → validate_request_bounds py is_finite fields request response ≡ ok accepted
      → Limited fields request accepted v most
      → is_answered v ≡ true
      → AtMost v most
  unfolding validate_request_bounds
  validate_request_bounds-AtMost fields request response {accepted} {v} {most} h limit a =
      let (out, p, h1) = >>=-eq-ok (project_request_rows fields request response) _ h in
      let (u, q, h2) = >>=-eq-ok (check_fields py is_finite fields request out) _ h1 in
      go
        (subst (λ (x : Fields). check_fields py is_finite fields request x ≡ ok tt) (fields_same h2)
          q)
        limit a
    where
      fields_same : {x y : Fields} → ◌≡◌ {A = Result StepError Fields} (ok x) (ok y) → x ≡ y
      fields_same q = cc

      go :
          {v most : Value}
          → check_fields py is_finite fields request accepted ≡ ok tt
          → Limited fields request accepted v most
          → is_answered v ≡ true
          → AtMost v most
      go q (by_field f m k t e e') a =
          let (c, _) = check_fields-Among fields request accepted f q m in
          rw (← e, ← e') (check_number-AtMost f request accepted c k (rw e a) t)
      go q (by_row f source row column sources rows columns m k r s cs b mc t e e') a =
          let (_, c) = check_fields-Among fields request accepted f q m in
          let cells =
            check_rows-Beside columns sources rows source row
              (check_table-rows f request accepted c k r s cs) b in
          rw (← e, ← e')
            (check_cell-AtMost column source row
              (check_row-Among columns source row column cells mc) (rw e a) t)
