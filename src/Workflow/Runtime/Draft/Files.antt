-- ===== src/Workflow/Runtime/Draft/Files.antt =====
-- The attachments of a draft: `_validate_response_attachments` of
-- asoud_erp/api/v1/workflow_runtime.py.
use frappe_erp_next.Prelude.{◌≡◌, subst, true, false, not, ◌&&◌, ◌==◌, arith, Bool-cases, inl, inr}
use frappe_erp_next.Prelude.Result.{Result, ok, ◌>>◌, check_all, check_all-AllPass, >>=-eq-ok}
use frappe_erp_next.Python.{
  Value, Items, Fields, list, dict, nil, cons, end, field, get, str_is, truthy,
}
use frappe_erp_next.Python.Members.{Among, here, there}
use frappe_erp_next.Workflow.Runtime.Draft.{
  DraftError, Desk, each_row, table_rows, answer, field_guards, file_guards, check_attachments,
  check_columns,
}

-- What stands at an attachment field of a form, or of the rows of its tables.
pub data Attached : Items → Value → Value → Type 0 where
  at :
      {fields : Items} {values v : Value} (f : Fields)
      → Among (dict f) fields
      → str_is "Attachment" (get f "type") ≡ true
      → answer f values ≡ v
      → Attached fields values v
  in_row :
      {fields columns : Items} {values row v : Value} (f : Fields)
      → Among (dict f) fields
      → get f "columns" ≡ list columns
      → Among row (table_rows f (answer f values))
      → Attached columns row v
      → Attached fields values v

each_row-Among :
    (check : Value → Result DraftError (Unit {0})) (rows : Items) {row : Value} {u : Unit {0}}
    → each_row check rows ≡ ok u
    → Among row rows
    → check row ≡ ok tt
each_row-Among check nil h m = elim m [ ]
each_row-Among check (cons row rows) h here = let (v, p, q) = >>=-eq-ok (check row) _ h in p
each_row-Among check (cons row rows) h (there m) =
    let (v, p, q) = >>=-eq-ok (check row) _ h in each_row-Among check rows q m

list_eq : {xs ys : Items} → list xs ≡ list ys → xs ≡ ys
list_eq q = cc

check_columns-Among :
    (desk : Desk) (f : Fields) (rows : Items) {columns : Items} {row : Value} {u : Unit {0}}
    → check_columns desk f rows ≡ ok u
    → get f "columns" ≡ list columns
    → Among row rows
    → check_attachments desk columns row ≡ ok tt
unfolding check_columns
check_columns-Among desk end rows h g m = cc
check_columns-Among desk (field j (list columns) r) rows {row = row} h g m =
    elim (Bool-cases (j == "columns")) [
      | inl e ↦
          subst (λ (xs : Items). check_attachments desk xs row ≡ ok tt) (list_eq (rw e at g))
            (each_row-Among (check_attachments desk columns) rows (rw e at h) m)
      | inr e ↦ check_columns-Among desk r rows (rw e at h) (rw e at g) m
    ]
check_columns-Among desk (field j v r) rows h g m = elim (Bool-cases (j == "columns")) [
  | inl e ↦ cc (rw e at g)
  | inr e ↦ check_columns-Among desk r rows (rw e at h) (rw e at g) m
]

check_attachments-Among :
    (desk : Desk) (fields : Items) (values : Value) (f : Fields) {u : Unit {0}}
    → check_attachments desk fields values ≡ ok u
    → Among (dict f) fields
    → (check_columns desk f (table_rows f (answer f values)) ≡ ok tt)
      × ((str_is "Attachment" (get f "type")
            && truthy (answer f values)
            && not (desk.may_read_file (answer f values)))
          ≡ false)
unfolding check_attachments
check_attachments-Among desk nil values f h m = elim m [ ]
check_attachments-Among desk (cons (dict g) rest) values f h here =
    let (u, p, h1) =
      >>=-eq-ok
        (check_all (field_guards f values)
          >> check_columns desk f (table_rows f (answer f values))
          >> check_all (file_guards desk f (answer f values)))
        _ h in
    let (v, q, h2) =
      >>=-eq-ok
        (check_all (field_guards f values) >> check_columns desk f (table_rows f (answer f values)))
        _ p in
    let (w, r, h3) = >>=-eq-ok (check_all (field_guards f values)) _ q in
    let (passed, _) = check_all-AllPass (file_guards desk f (answer f values)) h2 in (h3, passed)
check_attachments-Among desk (cons (dict g) rest) values f h (there m) =
    let (u, p, h1) =
      >>=-eq-ok
        (check_all (field_guards g values)
          >> check_columns desk g (table_rows g (answer g values))
          >> check_all (file_guards desk g (answer g values)))
        _ h in
    check_attachments-Among desk rest values f h1 m
check_attachments-Among desk (cons x rest) values f h (there m) = cc

-- Every attachment that an accepted response names, in the rows of its tables at any depth too, is a
-- file that the user may read.
pub check_attachments-Attached :
    (desk : Desk) {fields : Items} {values v : Value} {u : Unit {0}}
    → check_attachments desk fields values ≡ ok u
    → Attached fields values v
    → truthy v ≡ true
    → desk.may_read_file v ≡ true
check_attachments-Attached desk {values = values} {v} h (at f m k e) t =
    let (p, q) = check_attachments-Among desk _ values f h m in
    let q' = rw (k, e, t) at q in ground arith
check_attachments-Attached desk {values = values} h (in_row f m c r a) t =
    let (p, q) = check_attachments-Among desk _ values f h m in
    check_attachments-Attached desk (check_columns-Among desk f _ p c r) a t
