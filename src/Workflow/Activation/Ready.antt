-- ===== src/Workflow/Activation/Ready.antt =====
-- What activation promises: `activation_requirements` is empty exactly for the designs that
-- `IsReady` describes, and it always answers.
use frappe_erp_next.Prelude.{
  String, ◌≡◌, refl, sym, ap, subst, ◌↔◌, true, false, some, List, [], ◌∷◌, ◌==◌, eqb, eqb→eq,
  arith, Has, In, is_empty, length, all, select, all-In, all_intro,
}
use frappe_erp_next.Python.{Python}
use frappe_erp_next.Workflow.Design.{
  Stage, Transition, Checks, valid_saved_stage, valid_saved_routes,
}
use frappe_erp_next.Workflow.Graph.{Leads}
use frappe_erp_next.Workflow.Activation.{
  Requirement, is_wait, names_of, starts_of, ends_of, is_inside, outgoing, endpoint_errors,
  edge_errors, stage_errors, path_errors, activation_requirements,
}
use frappe_erp_next.Workflow.Activation.Parts.{
  unique-eq-nil, append-eq-nil, edge_errors-eq-nil, passes, stage_errors-eq-nil, kept_all,
  path_errors_iff, path_errors_total,
}

-- The edges of a design that leave a stage.
abbrev pub routes_from : List Transition → String → List Transition
routes_from transitions name = select (λ e. e.from_stage == name) transitions

-- One start and at least one end; every edge joins two stages; every stage and its routes pass the
-- saved checks and no stage waits; every stage lies on a way from the start to an end.
pub record IsReady (py : Python) (checks : Checks) (stages : List Stage)
    (transitions : List Transition) : Type 0 where
  pub begin : String
  pub one_start : starts_of stages ≡ begin ∷ []
  pub some_end : is_empty (ends_of stages) ≡ false
  pub inside : (e : Transition) → In e transitions → is_inside (names_of stages) e ≡ true
  pub complete :
      (row : Stage)
      → In row stages
      → (valid_saved_stage checks row ≡ true)
        × (valid_saved_routes py row.stage_type (routes_from transitions row.name) ≡ true)
        × (is_wait row ≡ false)
  pub reachable : (row : Stage) → In row stages → Leads transitions begin row.name
  pub finishing :
      (row : Stage)
      → In row stages
      → (f : String) × Has (ends_of stages) f × Leads transitions row.name f

-- Both searches end, so there is a list of requirements for any saved rows on which every check ends
-- in its answer or in one of the errors that are caught.
pub activation_requirements_total :
    (py : Python) (checks : Checks) (stages : List Stage) (transitions : List Transition)
    → (errors : List Requirement) × (activation_requirements py checks stages transitions
        ≡ some errors)
unfolding activation_requirements
activation_requirements_total py checks stages transitions =
    let (paths, e) = path_errors_total stages transitions (starts_of stages) in rw e (_, refl)

singleton_of : (xs : List String) → eqb (length xs) 1 ≡ true → (x : String) × (xs ≡ x ∷ [])
singleton_of [] h = cc
singleton_of (x ∷ []) h = (x, refl)
singleton_of (x ∷ y ∷ xs) h = absurd (omega (arith, eqb→eq (length (x ∷ y ∷ xs)) 1 h))

module _ (py : Python) (checks : Checks) (stages : List Stage) (transitions : List Transition) where
  -- The four lists that the source joins, all empty.
  AllEmpty : Type 0
  AllEmpty =
      (endpoint_errors stages ≡ [])
      × (edge_errors (names_of stages) transitions ≡ [])
      × (stage_errors py checks (outgoing stages transitions) stages ≡ [])
      × (path_errors stages transitions (starts_of stages) ≡ some [])

  requirements-AllEmpty : activation_requirements py checks stages transitions ≡ some [] → AllEmpty
  unfolding activation_requirements AllEmpty
  requirements-AllEmpty h =
      let (paths, e) = path_errors_total stages transitions (starts_of stages) in
      let joined = unique-eq-nil _ (some_eq (rw e at h)) in
      let (abc, d) = append-eq-nil _ paths joined in
      let (ab, c) =
        append-eq-nil _ (stage_errors py checks (outgoing stages transitions) stages) abc in
      let (a, b) =
        append-eq-nil (endpoint_errors stages) (edge_errors (names_of stages) transitions) ab in
      (a, b, c, rw e (ap some d))
    where
      some_eq : {a b : List Requirement} → some a ≡ some b → a ≡ b
      some_eq p = cc

  AllEmpty-requirements : AllEmpty → activation_requirements py checks stages transitions ≡ some []
  unfolding activation_requirements AllEmpty
  AllEmpty-requirements (a, b, c, d) = rw (a, b, c, d) refl

  endpoints :
      endpoint_errors stages ≡ []
      → (eqb (length (starts_of stages)) 1 ≡ true) × (is_empty (ends_of stages) ≡ false)
  endpoints h = ground arith

  AllEmpty-IsReady : AllEmpty → IsReady py checks stages transitions
  unfolding AllEmpty
  AllEmpty-IsReady (a, b, c, d) =
      let (single, ends) = endpoints a in
      let (begin, one) = singleton_of (starts_of stages) single in
      let inside = λ (e : Transition) (m : In e transitions).
        all-In (is_inside (names_of stages)) transitions
          ((edge_errors-eq-nil (names_of stages) transitions).0 b) m in
      let kept = kept_all stages transitions begin one inside in
      let ok = (stage_errors-eq-nil py checks (outgoing stages transitions) stages).0 c in
      let joined = (path_errors_iff stages transitions begin one inside).0 (rw one at d) in
      record {
        begin = begin;
        one_start = one;
        some_end = ends;
        inside = inside;
        complete = λ row m.
            passed row
              (subst
                (λ (es : List Transition).
                  all (passes py checks (λ name. routes_from es name)) stages ≡ true)
                kept ok)
              m;
        reachable = joined.0;
        finishing = joined.1;
      }
    where
      passed :
          (row : Stage)
          → all (passes py checks (λ name. routes_from transitions name)) stages ≡ true
          → In row stages
          → (valid_saved_stage checks row ≡ true)
            × (valid_saved_routes py row.stage_type (routes_from transitions row.name) ≡ true)
            × (is_wait row ≡ false)
      passed row ok m =
          let p = all-In (passes py checks (λ name. routes_from transitions name)) stages ok m in
          (ground arith, ground arith, ground arith)

  IsReady-AllEmpty : IsReady py checks stages transitions → AllEmpty
  unfolding AllEmpty
  IsReady-AllEmpty r =
      let kept = kept_all stages transitions r.begin r.one_start r.inside in
      (
        rw (r.one_start, r.some_end) refl,
        (edge_errors-eq-nil (names_of stages) transitions).1
            (all_intro (is_inside (names_of stages)) transitions r.inside),
        (stage_errors-eq-nil py checks (outgoing stages transitions) stages).1 (
            subst
              (λ (es : List Transition).
                all (passes py checks (λ name. routes_from es name)) stages ≡ true)
              (sym kept)
              (all_intro (passes py checks (λ name. routes_from transitions name)) stages
                (λ row m. let (x, y, z) = r.complete row m in ground arith))),
        rw r.one_start (
            (path_errors_iff stages transitions r.begin r.one_start r.inside).1
              (r.reachable, r.finishing)),
      )

-- Activation finds nothing to object to exactly when the design is ready: one start, some end, no
-- edge to the outside, every stage and its routes valid and none a wait, and every stage on a way
-- from the start to an end.
pub activation_requirements_iff :
    (py : Python) (checks : Checks) (stages : List Stage) (transitions : List Transition)
    → activation_requirements py checks stages transitions ≡ some []
      ↔ IsReady py checks stages transitions
activation_requirements_iff py checks stages transitions = (
  λ h.
      AllEmpty-IsReady py checks stages transitions
        (requirements-AllEmpty py checks stages transitions h),
  λ r.
      AllEmpty-requirements py checks stages transitions
        (IsReady-AllEmpty py checks stages transitions r),
)
