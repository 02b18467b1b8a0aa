-- ===== src/Workflow/Activation.antt =====
-- `activation_requirements` of asoud_erp/services/workflow_contract.py: what a saved design still
-- lacks before it may be activated. The fuel of both searches is counted from the design's edges.
pub mod Parts
pub mod Ready
use frappe_erp_next.Prelude.{
  ℕ, zero, suc, String, Bool, true, false, not, ◌&&◌, ◌||◌, Option, none, some, List, [], ◌∷◌, ◌++◌,
  map, ◌==◌, eqb, if◌then◌else◌, contains, is_empty, same_set, length, all, any, select,
}
use frappe_erp_next.Python.{Python}
use frappe_erp_next.Workflow.Design.{
  StageType, Stage, Transition, Checks, start, user_task, approval, condition, system_action, wait,
  end_stage, valid_saved_stage, valid_saved_routes,
}
use frappe_erp_next.Workflow.Graph.Walk.{reached_from}
use frappe_erp_next.Workflow.Graph.Grow.{can_finish}

-- The messages of the list `errors`.
pub data Requirement : Type 0 where
  one_start_and_end outside_route wait_unsupported incomplete_stage disconnected : Requirement

abbrev pub same_requirement : Requirement → Requirement → Bool
same_requirement one_start_and_end one_start_and_end = true
same_requirement outside_route outside_route = true
same_requirement wait_unsupported wait_unsupported = true
same_requirement incomplete_stage incomplete_stage = true
same_requirement disconnected disconnected = true
same_requirement _ _ = false

-- `list(dict.fromkeys(errors))`: the first of each message, in order.
abbrev pub unique : List Requirement → List Requirement → List Requirement
unique seen [] = []
unique seen (x ∷ xs) =
    let rest = unique (x ∷ seen) xs in
    let same = unique seen xs in if any (same_requirement x) seen then same else x ∷ rest

abbrev pub is_start : Stage → Bool
is_start row = elim row.stage_type [ start ↦ true | _ ↦ false ]

abbrev pub is_end : Stage → Bool
is_end row = elim row.stage_type [ end_stage ↦ true | _ ↦ false ]

abbrev pub is_wait : Stage → Bool
is_wait row = elim row.stage_type [ wait ↦ true | _ ↦ false ]

abbrev pub names_of : List Stage → List String
names_of = map (λ row. row.name)

abbrev pub starts_of : List Stage → List String
starts_of stages = names_of (select is_start stages)

abbrev pub ends_of : List Stage → List String
ends_of stages = names_of (select is_end stages)

abbrev pub is_inside : List String → Transition → Bool
is_inside names e = contains names e.from_stage && contains names e.to_stage

-- `outgoing`: the edges between stages of this design, kept under their source.
abbrev pub kept_edges : List Stage → List Transition → List Transition
kept_edges stages transitions = select (is_inside (names_of stages)) transitions

abbrev pub outgoing : List Stage → List Transition → String → List Transition
outgoing stages transitions name =
    select (λ e. e.from_stage == name) (kept_edges stages transitions)

abbrev pub endpoint_errors : List Stage → List Requirement
endpoint_errors stages =
    if eqb (length (starts_of stages)) 1 && not (is_empty (ends_of stages))
    then []
    else one_start_and_end ∷ []

abbrev pub edge_errors : List String → List Transition → List Requirement
edge_errors names [] = []
edge_errors names (e ∷ es) =
    if is_inside names e then edge_errors names es else outside_route ∷ edge_errors names es

module _ (py : Python) (checks : Checks) where
  -- One round of `for row in stages`, its `try` block included.
  abbrev pub stage_error : (String → List Transition) → Stage → List Requirement
  stage_error out row =
      if valid_saved_stage checks row && valid_saved_routes py row.stage_type (out row.name)
      then (if is_wait row then wait_unsupported ∷ [] else [])
      else incomplete_stage ∷ []

  abbrev pub stage_errors : (String → List Transition) → List Stage → List Requirement
  stage_errors out [] = []
  stage_errors out (row ∷ rows) = stage_error out row ++ stage_errors out rows

abbrev pub compare_sets :
    List String → Option (List String) → Option (List String) → Option (List Requirement)
compare_sets names (some reached) (some finish) =
    if same_set reached names && same_set finish names then some [] else some (disconnected ∷ [])
compare_sets names _ _ = none

-- `if len(starts) == 1: ...`
abbrev pub path_errors : List Stage → List Transition → List String → Option (List Requirement)
path_errors stages transitions (begin ∷ []) =
    compare_sets (names_of stages) (reached_from (kept_edges stages transitions) begin)
      (can_finish transitions (ends_of stages))
path_errors stages transitions _ = some []

-- `return list(dict.fromkeys(errors))`, the errors of the paths added last.
abbrev pub report : List Requirement → Option (List Requirement) → Option (List Requirement)
report errors (some paths) = some (unique [] (errors ++ paths))
report errors none = none

-- `activation_requirements(stages, transitions)`; `none` would mean that a search ran out of fuel.
unfoldable pub activation_requirements :
    Python → Checks → List Stage → List Transition → Option (List Requirement)
activation_requirements py checks stages transitions =
    report
      (endpoint_errors stages
        ++ edge_errors (names_of stages) transitions
        ++ stage_errors py checks (outgoing stages transitions) stages)
      (path_errors stages transitions (starts_of stages))
