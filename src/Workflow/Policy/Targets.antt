-- ===== src/Workflow/Policy/Targets.antt =====
-- An assignment that the designer saves is one that the engine reads as it was meant.
use frappe_erp_next.Prelude.{
  not-false, String, true, false, not, ◌==◌, ◌≡◌, ◌⊎◌, inl, inr, refl, subst, some, List, [],
  contains, Bool-cases, eq_iff,
}
use frappe_erp_next.Prelude.Result.{ok, ◌>>◌, raise_if, >>-eq-ok, ok_eq, raise_if-lets}
use frappe_erp_next.Python.{Fields, Python, list, get}
use frappe_erp_next.Workflow.Design.{
  StageType, start, user_task, approval, condition, system_action, wait, end_stage,
}
use frappe_erp_next.Workflow.Runtime.Assign.{
  values_of, assignment_values, target_key, needs_no_target,
}
use frappe_erp_next.Workflow.Policy.Kept.{values_of_twice}
use frappe_erp_next.Workflow.Policy.{
  texts_list, is_empty_list, bad_type, no_target, assignment_types, assignment_type,
  assignment_fields, selected_targets, normalize_assignment, role_key, department_key, employee_key,
  only_if,
}

module _ (py : Python) where
  -- The targets that the assignment type selects.
  abbrev pub targets_of : StageType → Fields → List String
  targets_of kind raw =
      selected_targets py (assignment_type py raw) (values_of py (get raw (role_key kind)))
        (values_of py (get raw (department_key kind))) (values_of py (get raw (employee_key kind)))

  module _ (t : String) (roles departments employees : List String) where
    saved : StageType → Fields
    saved kind = assignment_fields py kind t roles departments employees

    -- Each key of the saved fields holds its own targets, and is the one that the engine reads.
    ReadsBack : StageType → Type 0
    ReadsBack kind =
        (get (saved kind) (role_key kind) ≡ only_if py (t == "Role") roles)
        × (get (saved kind) (department_key kind) ≡ only_if py (t == "Department") departments)
        × (get (saved kind) (employee_key kind) ≡ only_if py (t == "Employee") employees)
        × (target_key py kind "Role" ≡ some (role_key kind))
        × (target_key py kind "Department" ≡ some (department_key kind))
        × (target_key py kind "Employee" ≡ some (employee_key kind))

    reads_back : (kind : StageType) → ReadsBack kind
    unfolding ReadsBack saved
    reads_back start = (refl, refl, refl, refl, refl, refl)
    reads_back user_task = (refl, refl, refl, refl, refl, refl)
    reads_back approval = (refl, refl, refl, refl, refl, refl)
    reads_back condition = (refl, refl, refl, refl, refl, refl)
    reads_back system_action = (refl, refl, refl, refl, refl, refl)
    reads_back wait = (refl, refl, refl, refl, refl, refl)
    reads_back end_stage = (refl, refl, refl, refl, refl, refl)

    -- What the engine reads of the saved fields.
    Reads : StageType → Type 0
    Reads kind =
        ((needs_no_target py t ≡ true) × (assignment_values py (saved kind) kind ≡ ok (t, [])))
        ⊎ (assignment_values py (saved kind) kind
            ≡ ok (t, selected_targets py t roles departments employees))

  module _ (kind : StageType) (roles departments employees : List String) where
    AtType : String → Type 0
    AtType t = Reads t roles departments employees kind

    IsKept : List String → Type 0
    IsKept xs = values_of py (list (texts_list xs)) ≡ xs

    at_role : IsKept roles → AtType "Role"
    unfolding AtType IsKept Reads saved ReadsBack assignment_values
    at_role same =
        let (r, _, _, k, _, _) = reads_back "Role" roles departments employees kind in
        inr (rw (k, r, same) refl)

    at_department : IsKept departments → AtType "Department"
    unfolding AtType IsKept Reads saved ReadsBack assignment_values
    at_department same =
        let (_, r, _, _, k, _) = reads_back "Department" roles departments employees kind in
        inr (rw (k, r, same) refl)

    at_employee : IsKept employees → AtType "Employee"
    unfolding AtType IsKept Reads saved ReadsBack assignment_values
    at_employee same =
        let (_, _, r, _, _, k) = reads_back "Employee" roles departments employees kind in
        inr (rw (k, r, same) refl)

    at_type :
        (t : String)
        → contains assignment_types t ≡ true
        → IsKept roles
        → IsKept departments
        → IsKept employees
        → AtType t
    unfolding AtType Reads assignment_values saved
    at_type t h r d e = elim (Bool-cases ("Role" == t)) [
      | inl p ↦ subst AtType ((eq_iff "Role" t).0 p) (at_role r)
      | inr p0 ↦ elim (Bool-cases ("Department" == t)) [
        | inl p ↦ subst AtType ((eq_iff "Department" t).0 p) (at_department d)
        | inr p1 ↦ elim (Bool-cases ("Employee" == t)) [
          | inl p ↦ subst AtType ((eq_iff "Employee" t).0 p) (at_employee e)
          | inr p2 ↦ elim (Bool-cases ("Initiator" == t)) [
            | inl p ↦ subst AtType ((eq_iff "Initiator" t).0 p) (inl (refl, refl))
            | inr p3 ↦ elim (Bool-cases ("Initiator Department" == t)) [
              | inl p ↦ subst AtType ((eq_iff "Initiator Department" t).0 p) (inl (refl, refl))
              | inr p4 ↦ elim (Bool-cases ("Direct Manager" == t)) [
                | inl p ↦ subst AtType ((eq_iff "Direct Manager" t).0 p) (inl (refl, refl))
                | inr p5 ↦ cc (rw (p0, p1, p2, p3, p4, p5) at h)
              ]
            ]
          ]
        ]
      ]
    ]

  -- An assignment that the designer can save is read by the engine under the type that was meant:
  -- with no targets where the type names the initiator, else with the targets of that type, one at
  -- least.
  pub assignment_values-normalize_assignment :
      (kind : StageType) (raw : Fields) {config : Fields}
      → normalize_assignment py kind raw ≡ ok config
      → ((needs_no_target py (assignment_type py raw) ≡ true)
          × (assignment_values py config kind ≡ ok (assignment_type py raw, [])))
        ⊎ ((is_empty_list (targets_of kind raw) ≡ false)
            × (assignment_values py config kind ≡ ok (assignment_type py raw, targets_of kind raw)))
  unfolding normalize_assignment AtType IsKept Reads saved
  assignment_values-normalize_assignment kind raw {config} h =
      let t = assignment_type py raw in
      let roles = values_of py (get raw (role_key kind)) in
      let departments = values_of py (get raw (department_key kind)) in
      let employees = values_of py (get raw (employee_key kind)) in
      let some_targets = raise_if (is_empty_list (targets_of kind raw)) no_target in
      let known_type = raise_if (not (contains assignment_types t)) bad_type in
      let (both, done) =
        >>-eq-ok (known_type >> some_targets)
          (ok (assignment_fields py kind t roles departments employees)) h in
      let (known, filled) = >>-eq-ok known_type some_targets both in
      let is_known = not-false (contains assignment_types t) (raise_if-lets _ bad_type known) in
      let is_filled = raise_if-lets (is_empty_list (targets_of kind raw)) no_target filled in
      let reads =
        at_type kind roles departments employees t is_known
          (values_of_twice py (get raw (role_key kind)))
          (values_of_twice py (get raw (department_key kind)))
          (values_of_twice py (get raw (employee_key kind))) in
      subst
        (λ c.
          ((needs_no_target py t ≡ true) × (assignment_values py c kind ≡ ok (t, [])))
          ⊎ ((is_empty_list (targets_of kind raw) ≡ false)
              × (assignment_values py c kind ≡ ok (t, targets_of kind raw))))
        (ok_eq done) (elim reads [ inl r ↦ inl r | inr r ↦ inr (is_filled, r) ])
