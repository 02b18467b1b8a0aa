-- ===== src/Form/Response/Tables.antt =====
-- The rows of an item table and of a table of columns.
use frappe_erp_next.Prelude.{
  not-false, either_false, suc, ◌≤◌, not, ◌||◌, ◌==◌, ◌≡◌, refl, ap, leb, leb→le, subst, ◌∙◌, [],
  sym,
}
use frappe_erp_next.Prelude.Result.{Result, ok, raise_if, >>=-eq-ok, >>-eq-ok, ok_eq, raise_if-lets}
use frappe_erp_next.Python.{
  Value, Items, Fields, null, bool, int, str, list, dict, nil, cons, get, len,
}
use frappe_erp_next.Form.Values.{Outside, ResponseError, finite_number, item_row, limit_of}
use frappe_erp_next.Form.Rows.{
  count_rows, item_rows, each_item_row, item_fields, row_options, cell, attachment_field, item_list,
  min_rows,
}
use frappe_erp_next.Form.Visible.{definitions_from, Flags}
use frappe_erp_next.Form.Response.{Kind, item_table, table_value, each_table_row, columns_of}
use frappe_erp_next.Form.Response.Typed.{
  Fits, AreItems, no_items, an_item, some_items, AllTyped, no_more, more, Typed, some_rows,
}

columns_lem :
    (v : Value) {c : Value} → columns_of v ≡ ok c → (cs : Items) × (v ≡ list cs) × (c ≡ list cs)
columns_lem (list nil) h = cc
columns_lem (list (cons x xs)) h = (cons x xs, refl, sym (ok_eq h))
columns_lem null h = cc
columns_lem (bool b) h = cc
columns_lem (int z) h = cc
columns_lem (str s) h = cc
columns_lem (dict m) h = cc

module _ (out : Outside) where
  item-AreItems :
      (o r : Fields) {first : Fields} {others : Items}
      → item_fields out o r ≡ ok first
      → AreItems out others
      → AreItems out (cons (dict first) others)
  item-AreItems o r {first} {others} h rest =
      let (_, h1) = >>-eq-ok (raise_if _ item_row) _ h in
      let (q, _, h2) = >>=-eq-ok (finite_number out (get r "qty")) _ h1 in
      let (coded, h3) =
        >>-eq-ok
          (raise_if
            (cell out r "item_code" == ""
              || not (leb (len (cell out r "item_code")) 140)
              || not (out.is_positive q))
            item_row)
          _ h2 in
      let (_, h4) = >>-eq-ok (raise_if _ item_row) _ h3 in
      let (_, h5) = >>-eq-ok (raise_if _ item_row) _ h4 in
      let (last, _, done) = >>=-eq-ok (attachment_field o r) _ h5 in
      let tests = raise_if-lets _ item_row coded in
      let (front, positive) =
        either_false (cell out r "item_code" == "" || not (leb (len (cell out r "item_code")) 140))
          _ tests in
      let (filled, _) = either_false (cell out r "item_code" == "") _ front in
      subst (λ x. AreItems out (cons (dict x) others)) (ok_eq done)
        (an_item filled (not-false (out.is_positive q) positive) rest)

  each_item_row-AreItems :
      (o : Fields) (xs : Items) {ys : Items} → each_item_row out o xs ≡ ok ys → AreItems out ys
  each_item_row-AreItems o nil h = subst (AreItems out) (ok_eq h) no_items
  each_item_row-AreItems o (cons (dict r) rest) h =
      let (first, is, more_rows) = >>=-eq-ok (item_fields out o r) _ h in
      let (others, are, done) = >>=-eq-ok (each_item_row out o rest) _ more_rows in
      subst (AreItems out) (ok_eq done) (item-AreItems o r is (each_item_row-AreItems o rest are))
  each_item_row-AreItems o (cons null rest) h = cc
  each_item_row-AreItems o (cons (bool b) rest) h = cc
  each_item_row-AreItems o (cons (int z) rest) h = cc
  each_item_row-AreItems o (cons (str s) rest) h = cc
  each_item_row-AreItems o (cons (list xs) rest) h = cc

  item_rows-AreItems :
      (v options : Value) {ys : Items} → item_rows out v options ≡ ok ys → AreItems out ys
  item_rows-AreItems v options h =
      let (most, _, h1) = >>=-eq-ok (limit_of out 100 (get (row_options options) "max_rows")) _ h in
      let (least, _, h2) = >>=-eq-ok (min_rows out options) _ h1 in
      let (rows, _, h3) = >>=-eq-ok (item_list v) _ h2 in
      let (_, each) = >>-eq-ok (raise_if _ ResponseError.item_table) _ h3 in
      each_item_row-AreItems (row_options options) rows each

  pub items-Fits :
      (f : Fields) (v : Value) {w : Value} → item_table out f v ≡ ok w → Fits out f Kind.items w
  items-Fits f v h =
      let (rows, is, done) = >>=-eq-ok (item_rows out v (get f "row_options")) _ h in
      subst (Fits out f Kind.items) (ok_eq done)
        (some_items (item_rows-AreItems v (get f "row_options") is))

  -- What a normaliser of rows must give.
  abbrev pub TypesRows : (Value → Value → Result ResponseError Fields) → Type 0
  TypesRows nested =
      (columns : Items) (row : Value) (r : Fields)
      → nested (list columns) row ≡ ok r
      → (flags : Flags) × Typed out flags (definitions_from out columns []) r

  module _ (nested : Value → Value → Result ResponseError Fields) (types : TypesRows nested) where
    each-AllTyped :
        (columns xs : Items) {ys : Items}
        → each_table_row nested (list columns) xs ≡ ok ys
        → AllTyped out columns ys × (count_rows ys ≡ count_rows xs)
    each-AllTyped columns nil h =
        subst (λ ys. AllTyped out columns ys × (count_rows ys ≡ 0)) (ok_eq h) (no_more, refl)
    each-AllTyped columns (cons x xs) h =
        let (first, is, more_rows) = >>=-eq-ok (nested (list columns) x) _ h in
        let (others, are, done) = >>=-eq-ok (each_table_row nested (list columns) xs) _ more_rows in
        let (flags, typed) = types columns x first is in
        let (all, same) = each-AllTyped columns xs are in
        subst (λ ys. AllTyped out columns ys × (count_rows ys ≡ suc (count_rows xs))) (ok_eq done)
          (more typed all, ap (λ n. suc n) same)

    pub table-Fits :
        (f : Fields) (v : Value) {w : Value}
        → table_value nested f v ≡ ok w
        → Fits out f Kind.table w
    table-Fits f (list rows) h =
        let (few, rest) =
          >>-eq-ok (raise_if (not (leb (count_rows rows) 100)) ResponseError.table) _ h in
        let (columns, is, more_rows) = >>=-eq-ok (columns_of (get f "columns")) _ rest in
        let (cs, at, same) = columns_lem (get f "columns") is in
        let (ys, are, done) = >>=-eq-ok (each_table_row nested columns rows) _ more_rows in
        let (all, count) =
          each-AllTyped cs rows (ap (λ c. each_table_row nested c rows) (sym same) ∙ are) in
        let short =
          leb→le (count_rows rows) 100 (not-false _ (raise_if-lets _ ResponseError.table few)) in
        subst (Fits out f Kind.table) (ok_eq done)
          (some_rows at (subst (λ n. n ≤ 100) (sym count) short) all)
    table-Fits f null h = cc
    table-Fits f (bool b) h = cc
    table-Fits f (int z) h = cc
    table-Fits f (str s) h = cc
    table-Fits f (dict m) h = cc
