-- ===== src/Workflow/Policy/Tested.antt =====
-- A Condition stage that the designer saves is one that the engine can test.
use frappe_erp_next.Prelude.{
  String, Bool, true, not, ◌&&◌, ◌==◌, ◌≡◌, ◌≢◌, inl, inr, subst, Option, some, none, [], ◌∷◌,
  contains, Bool-cases, eq_iff, if◌then◌else◌,
}
use frappe_erp_next.Prelude.Result.{Result, ok, err, raise_if, >>=-eq-ok, >>-eq-ok, ok_eq}
use frappe_erp_next.Python.{Value, Fields, Python, str, get, str_of, ◌or◌}
use frappe_erp_next.Workflow.Condition.{
  ConditionError, invalid_operator, invalid_operation, not_numeric, evaluate_condition,
}
use frappe_erp_next.Workflow.Runtime.Activate.{test_of}
use frappe_erp_next.Workflow.Policy.{
  normalize_condition, one_text, bad_source, bad_field, bad_operator, no_value, operators,
  trimmed_setting, is_field_name,
}
use frappe_erp_next.Workflow.Policy.Deadline.{one_text_lem}

module _ (py : Python) (actual expected : Value) where
  -- The operator is one that the engine has.
  IsTested : String → Type 0
  IsTested operator = evaluate_condition py operator actual expected ≢ err invalid_operator

  no_answer :
      (o : Option Bool)
      → ◌≡◌ {A = Result ConditionError Bool}
          (elim o [ some b ↦ ok b | none ↦ err invalid_operation ])
          (err invalid_operator)
      → ⊥
  no_answer (some b) h = cc
  no_answer none h = cc

  -- Two texts are compared as numbers, or the comparison is refused.
  numbers :
      (left right : String) (o : Option Bool)
      → (if py.is_decimal left
          then (if py.is_decimal right
              then elim o [ some b ↦ ok b | none ↦ err invalid_operation ]
              else err not_numeric)
          else err not_numeric)
        ≢ err invalid_operator
  numbers left right o h = elim (Bool-cases (py.is_decimal left)) [
    | inl a ↦ elim (Bool-cases (py.is_decimal right)) [
      | inl b ↦ no_answer o (rw (a, b) at h)
      | inr b ↦ cc (rw (a, b) at h)
    ]
    | inr a ↦ cc (rw a at h)
  ]

  greater : IsTested "Greater Than"
  unfolding IsTested evaluate_condition
  greater =
      numbers (str_of py actual) (str_of py expected)
        (py.decimal_lt (str_of py expected) (str_of py actual))

  less : IsTested "Less Than"
  unfolding IsTested evaluate_condition
  less =
      numbers (str_of py actual) (str_of py expected)
        (py.decimal_lt (str_of py actual) (str_of py expected))

  plain : (b : Bool) → ◌≡◌ {A = Result ConditionError Bool} (ok b) (err invalid_operator) → ⊥
  plain b h = cc

  is_tested : (operator : String) → contains operators operator ≡ true → IsTested operator
  unfolding IsTested evaluate_condition
  is_tested o h = elim (Bool-cases ("Equals" == o)) [
    | inl p ↦ subst IsTested ((eq_iff "Equals" o).0 p) (plain _)
    | inr p0 ↦ elim (Bool-cases ("Not Equals" == o)) [
      | inl p ↦ subst IsTested ((eq_iff "Not Equals" o).0 p) (plain _)
      | inr p1 ↦ elim (Bool-cases ("Greater Than" == o)) [
        | inl p ↦ subst IsTested ((eq_iff "Greater Than" o).0 p) greater
        | inr p2 ↦ elim (Bool-cases ("Less Than" == o)) [
          | inl p ↦ subst IsTested ((eq_iff "Less Than" o).0 p) less
          | inr p3 ↦ elim (Bool-cases ("Contains" == o)) [
            | inl p ↦ subst IsTested ((eq_iff "Contains" o).0 p) (plain _)
            | inr p4 ↦ elim (Bool-cases ("Is Set" == o)) [
              | inl p ↦ subst IsTested ((eq_iff "Is Set" o).0 p) (plain _)
              | inr p5 ↦ cc (rw (p0, p1, p2, p3, p4, p5) at h)
            ]
          ]
        ]
      ]
    ]
  ]

-- The test of a Condition stage that the designer can save never fails for an unknown operator,
-- whatever the value that is tested.
pub test_of-normalize_condition :
    (py : Python) (title : String) (raw : Fields) {config : Fields} (actual : Value)
    → normalize_condition py title raw ≡ ok config
    → test_of py (get config "operator") actual (get config "compare_value") ≢ err invalid_operator
unfolding normalize_condition IsTested
test_of-normalize_condition py title raw actual h =
    let (kind, _, h1) =
      >>=-eq-ok
        (one_text bad_source ("Document" ∷ "Form" ∷ []) (get raw "source_kind" or str "Document")) _
        h in
    let (_, h2) =
      >>-eq-ok (raise_if (not (is_field_name (trimmed_setting py raw "source_field"))) bad_field) _
        h1 in
    let (operator, is, h3) =
      >>=-eq-ok (one_text bad_operator operators (get raw "operator")) _ h2 in
    let (_, done) =
      >>-eq-ok
        (raise_if (not (operator == "Is Set") && (trimmed_setting py raw "compare_value" == ""))
          no_value)
        _ h3 in
    subst (λ c. test_of py (get c "operator") actual (get c "compare_value") ≢ err invalid_operator)
      (ok_eq done)
      (is_tested py actual (str (trimmed_setting py raw "compare_value")) operator
        (one_text_lem bad_operator operators (get raw "operator") is))
