-- ===== src/Workflow/Response/Rows.antt =====
-- The rows of the tables that come from the request, in
-- asoud_erp/services/workflow_step_validation.py.
use frappe_erp_next.Prelude.{
  String, ◌≡◌, ◌≢◌, refl, sym, ap, ◌∙◌, subst, ◌⊎◌, inl, inr, false, not, ◌&&◌, List, [], ◌∷◌, ◌==◌,
  eq_iff, eq_refl, arith, if◌then◌else◌, Bool-cases, In, In-cons,
}
use frappe_erp_next.Prelude.Result.{Result, ok, raise_if, >>=-eq-ok}
use frappe_erp_next.Python.{
  Value, Items, Fields, str, dict, nil, cons, end, field, get, has_key, put,
}
use frappe_erp_next.Python.Equality.{eq_value}
use frappe_erp_next.Workflow.Response.{
  StepError, missing_column, read_only, seed_column, seed, project_rows,
}

pub get-put :
    (k : String) (v : Value) (m : Fields) (j : String)
    → get (put k v m) j ≡ (if k == j then v else get m j)
get-put k v end j = refl
get-put k v (field i w r) j = elim (Bool-cases (i == k)) [
  | inl e ↦ let q : i ≡ k = (eq_iff i k).0 e in rw q (ground (arith, eq_refl k))
  | inr n ↦ elim (Bool-cases (i == j)) [
    | inl e ↦
        let other : (k == j) ≡ false = ground (arith, eq_iff i j, eq_iff k j, eq_iff i k) in
        rw (n, e, other)
    | inr d ↦ rw (n, d) (get-put k v r j)
  ]
]

str_ne : (k j : String) → (k == j) ≡ false → str k ≢ str j
str_ne k j n q = let e : k ≡ j = cc in ground (arith, eq_iff k j)

pub fields_eq : {x y : Fields} → ◌≡◌ {A = Result StepError Fields} (ok x) (ok y) → y ≡ x
fields_eq q = cc

items_eq : {x y : Items} → ◌≡◌ {A = Result StepError Items} (ok x) (ok y) → x ≡ y
items_eq q = cc

seed_column-get :
    (k : Value) (source row : Fields) {next : Fields}
    → seed_column k source row ≡ ok next
    → (j : String)
    → ((k ≡ str j) × (get next j ≡ get source j)) ⊎ ((k ≢ str j) × (get next j ≡ get row j))
seed_column-get (str k) source row {next} h j =
    let (u, p, h1) = >>=-eq-ok (raise_if (not (has_key source k)) missing_column) _ h in
    let (v, q, h2) =
      >>=-eq-ok (raise_if (has_key row k && not (eq_value (get row k) (get source k))) read_only) _
        h1 in
    let e : next ≡ put k (get source k) row = fields_eq h2 in
    elim (Bool-cases (k == j)) [
      | inl same ↦
          let q : k ≡ j = (eq_iff k j).0 same in
          inl (ap str q, rw (e, get-put k (get source k) row j, same) (rw q))
      | inr other ↦ inr (str_ne k j other, rw (e, get-put k (get source k) row j, other))
    ]
seed_column-get k source row h j = cc

seed_fixed :
    (keys : List Value) (source row : Fields) {seeded : Fields}
    → seed keys source row ≡ ok seeded
    → (k : String) → (get row k ≡ get source k) ⊎ In (str k) keys
    → get seeded k ≡ get source k
seed_fixed [] source row h k (inl e) = rw (fields_eq h) e
seed_fixed [] source row h k (inr m) = elim m [ ]
seed_fixed (x ∷ keys) source row h k which =
    let (next, p, h1) = >>=-eq-ok (seed_column x source row) _ h in
    seed_fixed keys source next h1 k (go next (seed_column-get x source row p k) which)
  where
    go :
        (next : Fields)
        → ((x ≡ str k) × (get next k ≡ get source k)) ⊎ ((x ≢ str k) × (get next k ≡ get row k))
        → (get row k ≡ get source k) ⊎ In (str k) (x ∷ keys)
        → (get next k ≡ get source k) ⊎ In (str k) keys
    go next (inl (e, g)) w = inl g
    go next (inr (n, g)) (inl e) = inl (g ∙ e)
    go next (inr (n, g)) (inr m) = elim (In-cons m) [ inl e ↦ absurd (n (sym e)) | inr m' ↦ inr m' ]

seed_kept :
    (keys : List Value) (source row : Fields) {seeded : Fields}
    → seed keys source row ≡ ok seeded
    → (k : String) → ¬ In (str k) keys
    → get seeded k ≡ get row k
seed_kept [] source row h k n = rw (fields_eq h)
seed_kept (x ∷ keys) source row h k n =
    let (next, p, h1) = >>=-eq-ok (seed_column x source row) _ h in
    elim (seed_column-get x source row p k) [
      | inl (e, g) ↦ absurd (n (rw e In.here))
      | inr (d, g) ↦ seed_kept keys source next h1 k (λ m. n (In.there m)) ∙ g
    ]

-- One row: the columns of the request have its values, the others those of the response.
pub record Seeded (keys : List Value) (source row seeded : Fields) : Type 0 where
  pub fixed : (k : String) → In (str k) keys → get seeded k ≡ get source k
  pub kept : (k : String) → ¬ In (str k) keys → get seeded k ≡ get row k

-- The rows of a table, one by one.
pub data Projects (keys : List Value) : Items → Items → Items → Type 0 where
  none_left : Projects keys nil nil nil
  next_row :
      {source row seeded : Fields} {sources rows projected : Items}
      → Seeded keys source row seeded
      → Projects keys sources rows projected
      → Projects keys
          (cons (dict source) sources)
          (cons (dict row) rows)
          (cons (dict seeded) projected)

pub project_rows-Projects :
    (keys : List Value) (sources rows : Items) {projected : Items}
    → project_rows keys sources rows ≡ ok projected
    → Projects keys sources rows projected
project_rows-Projects keys nil nil h = subst (Projects keys nil nil) (items_eq h) none_left
project_rows-Projects keys (cons (dict source) sources) (cons (dict row) rows) h =
    let (first, p, h1) = >>=-eq-ok (seed keys source row) _ h in
    let (rest, q, h2) = >>=-eq-ok (project_rows keys sources rows) _ h1 in
    subst (Projects keys (cons (dict source) sources) (cons (dict row) rows)) (items_eq h2) (
      next_row
        (record {
          fixed = λ k m. seed_fixed keys source row p k (inr m);
          kept = seed_kept keys source row p;
        })
        (project_rows-Projects keys sources rows q))
project_rows-Projects keys nil (cons row rows) h = cc
project_rows-Projects keys (cons (dict source) sources) nil h = cc
project_rows-Projects keys (cons source sources) nil h = cc
project_rows-Projects keys (cons source sources) (cons row rows) h = cc
