-- ===== src/Workflow/Response/Tables.antt =====
-- The tables of a response after `project_request_rows` of
-- asoud_erp/services/workflow_step_validation.py.
use frappe_erp_next.Prelude.{
  String, ◌≡◌, ◌≢◌, refl, sym, ap, ◌∙◌, subst, inl, inr, true, false, not, ◌&&◌, List, ◌==◌, eq_iff,
  eq_refl, arith, Bool-cases, In, In.here, In.there, In-cons, &&-left, &&-right, ◌∷◌,
}
use frappe_erp_next.Prelude.Result.{Result, ok, raise_if, >>=-eq-ok}
use frappe_erp_next.Python.{
  Value, Items, Fields, bool, str, list, dict, nil, cons, get, get_by, get_or, put, truthy,
}
use frappe_erp_next.Python.Members.{Among, here, there}
use frappe_erp_next.Workflow.Response.{
  StepError, malformed, is_true, is_key, items_of, source_rows_of, key_of, supplied_rows,
  request_columns, project_rows, is_projected, project_table, project_field, project_request_rows,
}
use frappe_erp_next.Workflow.Response.Rows.{get-put, fields_eq, Projects, project_rows-Projects}

-- No two fields have one key.
abbrev pub Apart : Items → Type 0
Apart nil = Unit {0}
Apart (cons (dict f) rest) =
    ((g : Fields) → Among (dict g) rest → get g "key" ≢ get f "key") × Apart rest
Apart (cons _ rest) = Apart rest

-- What a table of the form has in the response that is returned.
pub record ProjectedTable (f request : Fields) (before after : Value) : Type 0 where
  pub source : Items
  pub supplied : Items
  pub rows : Items
  pub columns : Items
  pub keys : List Value
  pub source_is : get_by request (get f "rows_from_request") ≡ list source
  pub supplied_is : supplied_rows source before ≡ ok supplied
  pub columns_are : items_of (get_or f "columns" (list nil)) ≡ ok columns
  pub covers :
      (c : Fields) (k : String)
      → Among (dict c) columns
      → get c "readonly" ≡ bool true
      → get c "key" ≡ str k
      → (k == "") ≡ false
      → In (str k) keys
  pub listed :
      (v : Value)
      → In v keys
      → (c : Fields) × Among (dict c) columns
        × (get c "readonly" ≡ bool true)
        × (get c "key" ≡ v)
        × (truthy v ≡ true)
  pub rows_are : after ≡ list rows
  pub projects : Projects keys source supplied rows

keys_eq : {x y : List Value} → ◌≡◌ {A = Result StepError (List Value)} (ok x) (ok y) → y ≡ x
keys_eq q = cc

request_columns_covers :
    (columns : Items) {keys : List Value}
    → request_columns columns ≡ ok keys
    → (c : Fields) (k : String) → Among (dict c) columns
    → get c "readonly" ≡ bool true
    → get c "key" ≡ str k
    → (k == "") ≡ false
    → In (str k) keys
request_columns_covers nil h c k m r e n = elim m [ ]
request_columns_covers (cons (dict d) rest) h c k here r e n =
    let (more, p, h1) = >>=-eq-ok (request_columns rest) _ h in
    let (u, q, h2) =
      >>=-eq-ok
        (raise_if (is_true (get c "readonly") && truthy (get c "key") && not (is_key (get c "key")))
          malformed)
        _ h1 in
    rw (keys_eq h2, r, e, n) In.here
request_columns_covers (cons (dict d) rest) h c k (there m) r e n =
    let (more, p, h1) = >>=-eq-ok (request_columns rest) _ h in
    let (u, q, h2) =
      >>=-eq-ok
        (raise_if (is_true (get d "readonly") && truthy (get d "key") && not (is_key (get d "key")))
          malformed)
        _ h1 in
    let found = request_columns_covers rest p c k m r e n in
    elim (Bool-cases (is_true (get d "readonly") && truthy (get d "key"))) [
      | inl t ↦ rw (keys_eq h2, t) (In.there found)
      | inr f ↦ rw (keys_eq h2, f) found
    ]
request_columns_covers (cons d rest) h c k (there m) r e n = cc

is_true_eq : (v : Value) → is_true v ≡ true → v ≡ bool true
is_true_eq (bool b) h = ap bool h
is_true_eq v h = cc

-- A key that the request keeps to itself is that of a read-only column.
abbrev ReadOnly : Items → Value → Type 0
ReadOnly columns v =
    (c : Fields) × Among (dict c) columns
    × (get c "readonly" ≡ bool true)
    × (get c "key" ≡ v)
    × (truthy v ≡ true)

request_columns_listed :
    (columns : Items) {keys : List Value}
    → request_columns columns ≡ ok keys
    → (v : Value) → In v keys
    → ReadOnly columns v
request_columns_listed nil h v m = elim (subst (In v) (keys_eq h) m) [ ]
request_columns_listed (cons (dict d) rest) {keys} h v m =
    let (more, p, h1) = >>=-eq-ok (request_columns rest) _ h in
    let (u, q, h2) =
      >>=-eq-ok
        (raise_if (is_true (get d "readonly") && truthy (get d "key") && not (is_key (get d "key")))
          malformed)
        _ h1 in
    let later : In v more → ReadOnly (cons (dict d) rest) v =
      λ n. (let (c, a, r, k, t) = request_columns_listed rest p v n in (c, there a, r, k, t)) in
    elim (Bool-cases (is_true (get d "readonly") && truthy (get d "key"))) [
      | inl t ↦
          let first : keys ≡ get d "key" ∷ more = rw (keys_eq h2, t) refl in
          elim (In-cons (subst (In v) first m)) [
            | inl e ↦ (
              d,
              here,
              is_true_eq (get d "readonly") (&&-left _ _ t),
              sym e,
              ap truthy e ∙ &&-right (is_true (get d "readonly")) _ t,
            )
            | inr n ↦ later n
          ]
      | inr f ↦ let same : keys ≡ more = rw (keys_eq h2, f) refl in later (subst (In v) same m)
    ]
request_columns_listed (cons d rest) h v m = cc

key_of-ok : (v : Value) {k : String} → key_of v ≡ ok k → v ≡ str k
key_of-ok (str s) h = cc
key_of-ok v h = cc

source_rows_of-ok : (v : Value) {rows : Items} → source_rows_of v ≡ ok rows → v ≡ list rows
source_rows_of-ok (list xs) h = ground arith
source_rows_of-ok v h = cc

get-put_self :
    (k : String) (v : Value) (m : Fields) {after : Fields} → after ≡ put k v m → get after k ≡ v
get-put_self k v m e = rw (e, get-put k v m k, eq_refl k)

get-put_other :
    (k : String) (v : Value) (m : Fields) (j : String) {after : Fields}
    → str k ≢ str j
    → after ≡ put k v m
    → get after j ≡ get m j
get-put_other k v m j n e = elim (Bool-cases (k == j)) [
  | inl same ↦ absurd (n (ap str ((eq_iff k j).0 same)))
  | inr other ↦ rw (e, get-put k v m j, other)
]

module _ (f request before : Fields) where
  project_table_lem :
      {after : Fields}
      → project_table f request before ≡ ok after
      → (key : String) × (rows : Items) × (get f "key" ≡ str key)
        × (after ≡ put key (list rows) before)
        × ProjectedTable f request (get before key) (list rows)
  project_table_lem h =
      let (source, p1, h1) =
        >>=-eq-ok (source_rows_of (get_by request (get f "rows_from_request"))) _ h in
      let (key, p2, h2) = >>=-eq-ok (key_of (get f "key")) _ h1 in
      let (supplied, p3, h3) = >>=-eq-ok (supplied_rows source (get before key)) _ h2 in
      let (columns, p4, h4) = >>=-eq-ok (items_of (get_or f "columns" (list nil))) _ h3 in
      let (keys, p5, h5) = >>=-eq-ok (request_columns columns) _ h4 in
      let (rows, p6, h6) = >>=-eq-ok (project_rows keys source supplied) _ h5 in
      (
        key,
        rows,
        key_of-ok (get f "key") p2,
        fields_eq h6,
        record {
          source = source;
          supplied = supplied;
          rows = rows;
          columns = columns;
          keys = keys;
          source_is = source_rows_of-ok (get_by request (get f "rows_from_request")) p1;
          supplied_is = p3;
          columns_are = p4;
          covers = request_columns_covers columns p5;
          listed = request_columns_listed columns p5;
          rows_are = refl;
          projects = project_rows-Projects keys source supplied p6;
        },
      )

  -- A field changes nothing at another key.
  project_field_other :
      (k : String) {after : Fields}
      → get f "key" ≢ str k
      → project_field f request before ≡ ok after
      → get after k ≡ get before k
  project_field_other k n h = elim (Bool-cases (is_projected f)) [
    | inl t ↦
        let (key, rows, q, e, _) = project_table_lem (rw t at h) in
        get-put_other key (list rows) before k (λ s. n (q ∙ s)) e
    | inr t ↦ rw (fields_eq (rw t at h))
  ]

project_request_rows_other :
    (fields : Items) (request before : Fields) (k : String) {after : Fields}
    → ((g : Fields) → Among (dict g) fields → get g "key" ≢ str k)
    → project_request_rows fields request before ≡ ok after
    → get after k ≡ get before k
unfolding project_request_rows
project_request_rows_other nil request before k n h = rw (fields_eq h)
project_request_rows_other (cons (dict f) rest) request before k n h =
    let (next, p, h1) = >>=-eq-ok (project_field f request before) _ h in
    project_request_rows_other rest request next k (λ g m. n g (there m)) h1
    ∙ project_field_other f request before k (n f here) p
project_request_rows_other (cons f rest) request before k n h = cc

-- In a form whose fields have different keys, every table that takes its rows from the request has
-- after the call a row for each of the request's: exactly the read-only columns with a key have the
-- request's values, and every other key reads as in the row of the response, or as in a blank row
-- where it has no table.
pub project_request_rows-ProjectedTable :
    (fields : Items) (request response : Fields) {after : Fields} (f : Fields)
    → Apart fields
    → project_request_rows fields request response ≡ ok after
    → Among (dict f) fields
    → is_projected f ≡ true
    → (key : String) × (get f "key" ≡ str key)
      × ProjectedTable f request (get response key) (get after key)
unfolding project_request_rows
project_request_rows-ProjectedTable nil request response f apart h m t = elim m [ ]
project_request_rows-ProjectedTable (cons (dict g) rest) request response {after} f apart h here t =
    let (next, p, h1) = >>=-eq-ok (project_field f request response) _ h in
    let (key, rows, q, e, table) = project_table_lem f request response (rw t at p) in
    let same : get after key ≡ get next key =
      project_request_rows_other rest request next key (λ g m s. apart.0 g m (s ∙ sym q)) h1 in
    (
      key,
      q,
      subst (ProjectedTable f request (get response key))
          (sym (same ∙ get-put_self key (list rows) response e)) table,
    )
project_request_rows-ProjectedTable (cons (dict g) rest) request response {after} f apart h
      (there m) t =
    let (next, p, h1) = >>=-eq-ok (project_field g request response) _ h in
    let (key, q, table) = project_request_rows-ProjectedTable rest request next f apart.1 h1 m t in
    let same : get next key ≡ get response key =
      project_field_other g request response key (λ s. apart.0 f m (q ∙ sym s)) p in
    (key, q, subst (λ v. ProjectedTable f request v (get after key)) same table)
project_request_rows-ProjectedTable (cons g rest) request response f apart h (there m) t = cc
