-- ===== src/Workflow/Runtime/Route.antt =====
-- asoud_erp/api/v1/workflow_runtime.py: the route that leaves a stage after an action
-- (`_next_stage`) or after a system action (`_system_route`). The transitions are those of the
-- instance's definition, in order of `sequence_no`.
pub mod Forward
pub mod Automatic
pub mod Targets
use frappe_erp_next.Prelude.{
  ℕ, String, ◌≡◌, refl, Bool, true, false, not, ◌&&◌, ◌||◌, Option, none, some, List, [], ◌∷◌, ◌==◌,
  eqb, if◌then◌else◌, select, length,
}
use frappe_erp_next.Prelude.Result.{Result, ok, err, ◌>>=◌}
use frappe_erp_next.Python.{Value, Fields, str, dict, get, ◌or◌, str_of, truthy, Python}
use frappe_erp_next.Workflow.Design.{Transition, action_of}
use frappe_erp_next.Workflow.Activation.Ready.{routes_from}

-- A condition that is no JSON object: `json.loads` or `.get` raises.
pub data RouteError : Type 0 where
  bad_condition : RouteError

abbrev pub condition_of : Transition → Result RouteError Fields
condition_of e = elim e.condition_json [ some (dict c) ↦ ok c | _ ↦ err bad_condition ]

abbrev pub target_of : Option Transition → Option String
target_of none = none
target_of (some e) = some e.to_stage

module _ (py : Python) where
  -- `for transition in transitions: ... break`
  abbrev pub labelled : String → List Transition → Result RouteError (Option Transition)
  labelled action [] = ok none
  labelled action (e ∷ es) = do
    c ← condition_of e
    if action_of py c e == py.casefold action then ok (some e) else labelled action es

  -- Only a forward decision falls back to the single default route.
  abbrev pub fallback : Option String → List Transition → Option Transition
  fallback none (e ∷ []) = some e
  fallback (some action) (e ∷ []) =
      if (action == "") || (action == "Complete") || (action == "Approve") then some e else none
  fallback _ _ = none

  abbrev or_fallback : Option String → List Transition → Option Transition → Option Transition
  or_fallback action routes (some e) = some e
  or_fallback action routes none = fallback action routes

  abbrev selected : Option String → List Transition → Result RouteError (Option Transition)
  selected none routes = ok none
  selected (some action) routes = if action == "" then ok none else labelled action routes

  -- `_next_stage(instance, current_stage, action)`: the target of the chosen route.
  unfoldable pub next_stage :
      List Transition → String → Option String → Result RouteError (Option String)
  next_stage transitions current action = do
    let routes = routes_from transitions current
    found ← selected action routes
    ok (target_of (or_fallback action routes found))

  -- `_system_route(instance, stage_name, outcome)`. The action is that of the condition alone, and a
  -- route with none counts as Success.
  abbrev pub route_action : Fields → String
  route_action c = str_of py (get c "action" or str "")

  abbrev pub follows : String → String → Bool
  follows outcome action =
      (py.casefold action == py.casefold outcome) || ((outcome == "Success") && (action == ""))

  abbrev pub outcome_route : String → List Transition → Result RouteError (Option Transition)
  outcome_route outcome [] = ok none
  outcome_route outcome (e ∷ es) = do
    c ← condition_of e
    if follows outcome (route_action c) then ok (some e) else outcome_route outcome es

  unfoldable pub system_route :
      List Transition → String → String → Result RouteError (Option String)
  system_route transitions stage_name outcome = do
    found ← outcome_route outcome (routes_from transitions stage_name)
    ok (target_of found)
