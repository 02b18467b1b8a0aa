-- ===== src/Workflow/Runtime/Progress.antt =====
-- An activated design never leaves the engine without a way on: what activation checks
-- (workflow_contract.py) is what the engine's choice of routes needs (workflow_runtime.py).
use frappe_erp_next.Prelude.{
  String, ◌≡◌, refl, inl, inr, Bool, false, some, List, [], ◌∷◌, ◌==◌, eq_iff, arith, In, here,
  there, Has, select-In, Bool-cases,
}
use frappe_erp_next.Prelude.Result.{ok}
use frappe_erp_next.Python.{Python}
use frappe_erp_next.Workflow.Design.{condition, system_action, Stage, Transition, Checks}
use frappe_erp_next.Workflow.Condition.{select_boolean_transition}
use frappe_erp_next.Workflow.Activation.{activation_requirements, names_of}
use frappe_erp_next.Workflow.Activation.Ready.{IsReady, routes_from, activation_requirements_iff}
use frappe_erp_next.Workflow.Runtime.Route.{next_stage, system_route}
use frappe_erp_next.Workflow.Runtime.Route.Forward.{forward, next_stage-forward}
use frappe_erp_next.Workflow.Runtime.Route.Automatic.{
  select_boolean_transition-forward, system_route-forward,
}
use frappe_erp_next.Workflow.Runtime.State.{get_stage}

-- A stage of the design is found by its name.
pub get_stage-Has :
    (stages : List Stage) (name : String)
    → Has (names_of stages) name
    → (s : Stage) × In s stages × (s.name ≡ name) × (get_stage stages name ≡ ok s)
get_stage-Has [] name h = cc
get_stage-Has (s ∷ rest) name h = elim (Bool-cases (s.name == name)) [
  | inl e ↦ (s, here, (eq_iff s.name name).0 e, rw (get_stage, e) refl)
  | inr n ↦
      let (t, m, p, q) = get_stage-Has rest name (ground arith) in
      (t, there m, p, rw (get_stage, n) q)
]

module _ (py : Python) (checks : Checks) (stages : List Stage) (transitions : List Transition)
    (active : activation_requirements py checks stages transitions ≡ some []) where
  ready : IsReady py checks stages transitions
  ready = (activation_requirements_iff py checks stages transitions).0 active

  target_found :
      (e : Transition)
      → In e transitions
      → (s : Stage) × In s stages × (get_stage stages e.to_stage ≡ ok s)
  target_found e m =
      let (s, n, p, q) = get_stage-Has stages e.to_stage (ground (arith, ready.inside e m)) in
      (s, n, q)

  -- From every user task and every approval of an activated design, the decision that completes the
  -- stage leads to a stage of the design that the engine finds.
  pub activated-next_stage :
      (row : Stage) (action : String)
      → In row stages
      → forward row.stage_type ≡ some action
      → (s : Stage) × (target : String) × In s stages
        × (next_stage py transitions row.name (some action) ≡ ok (some target))
        × (get_stage stages target ≡ ok s)
  activated-next_stage row action m f =
      let (e, n, p, q) =
        next_stage-forward py row.stage_type action transitions row.name f
          (ready.complete row m).1 in
      let (s, k, g) = target_found e n in (s, e.to_stage, k, q, g)

  -- Both results of every Condition stage of an activated design lead to a stage of the design that
  -- the engine finds, if every edge names a target.
  pub activated-condition :
      (row : Stage) (result : Bool)
      → In row stages
      → row.stage_type ≡ condition
      → ((e : Transition) → In e transitions → (e.to_stage == "") ≡ false)
      → (s : Stage) × (target : String) × In s stages
        × (select_boolean_transition (routes_from transitions row.name) result ≡ ok target)
        × (get_stage stages target ≡ ok s)
  activated-condition row result m kind named =
      let valid = (ready.complete row m).1 in
      let (e, c, n, p, q, r) =
        select_boolean_transition-forward py transitions row.name result (rw kind at valid) named in
      let (s, k, g) = target_found e (select-In (λ d. d.from_stage == row.name) transitions n).0 in
      (s, e.to_stage, k, r, g)

  -- The success of every System Action of an activated design leads to a stage of the design that the
  -- engine finds, if case folding empties no text that is not empty.
  pub activated-system_route :
      (row : Stage)
      → In row stages
      → row.stage_type ≡ system_action
      → ((s : String) → py.casefold s ≡ "" → s ≡ "")
      → (s : Stage) × (target : String) × In s stages
        × (system_route py transitions row.name "Success" ≡ ok (some target))
        × (get_stage stages target ≡ ok s)
  activated-system_route row m kind unfolds =
      let valid = (ready.complete row m).1 in
      let (e, n, p, q) = system_route-forward py transitions row.name unfolds (rw kind at valid) in
      let (s, k, g) = target_found e n in (s, e.to_stage, k, q, g)
