-- ===== src/Workflow/Runtime/Route/Automatic.antt =====
-- Stages without a person: a Condition with valid routes has a target for each result, and a
-- System Action with valid routes has a target for Success.
use frappe_erp_next.Prelude.{
  String, ◌≡◌, refl, sym, ◌∙◌, subst, ◌⊎◌, inl, inr, Bool, true, false, some, List, [], ◌∷◌, ◌==◌,
  eq_iff, arith, In, here, there, select-In, Has, Bool-cases,
}
use mathlib.Core.Bool.{false≢true}
use frappe_erp_next.Prelude.Result.{ok}
use frappe_erp_next.Python.{Value, Fields, bool, dict, get, str_of, truthy, Python}
use frappe_erp_next.Workflow.Design.{
  condition, system_action, Transition, conditions_of, actions_of, action_of, opposite,
  both_results, single_default, valid_saved_routes,
}
use frappe_erp_next.Workflow.Condition.{select_boolean_transition}
use frappe_erp_next.Workflow.Activation.Ready.{routes_from}
use frappe_erp_next.Workflow.Runtime.Route.{system_route, outcome_route, follows, route_action}
use frappe_erp_next.Workflow.Runtime.Route.Forward.{
  conditions_of-cons, condition_of-eq, valid_conditions, main_or_default, single_route,
}

opposite-cases :
    (a b : Value)
    → opposite a b ≡ true
    → ((a ≡ bool true) × (b ≡ bool false)) ⊎ ((a ≡ bool false) × (b ≡ bool true))
opposite-cases (bool true) (bool false) h = inl (refl, refl)
opposite-cases (bool false) (bool true) h = inr (refl, refl)
opposite-cases _ _ h = cc

-- A route of the list whose condition holds the result, and which the engine selects.
abbrev pub Chosen : List Transition → Bool → Type 0
Chosen routes result =
    (e : Transition) × (c : Fields) × In e routes
    × (e.condition_json ≡ some (dict c))
    × (get c "result" ≡ bool result)
    × (select_boolean_transition routes result ≡ ok e.to_stage)

-- Two routes with opposite results: each result selects the one that holds it.
two_routes :
    (e d : Transition) (c b : Fields) (result : Bool)
    → e.condition_json ≡ some (dict c)
    → d.condition_json ≡ some (dict b)
    → opposite (get c "result") (get b "result") ≡ true
    → (e.to_stage == "") ≡ false
    → (d.to_stage == "") ≡ false
    → Chosen (e ∷ d ∷ []) result
unfolding select_boolean_transition
two_routes e d c b true p q h x y = elim (opposite-cases (get c "result") (get b "result") h) [
  | inl (r, s) ↦ (e, c, here, p, r, rw (p, q, r, s, x) refl)
  | inr (r, s) ↦ (d, b, there here, q, s, rw (p, q, r, s, y) refl)
]
two_routes e d c b false p q h x y = elim (opposite-cases (get c "result") (get b "result") h) [
  | inl (r, s) ↦ (d, b, there here, q, s, rw (p, q, r, s, y) refl)
  | inr (r, s) ↦ (e, c, here, p, r, rw (p, q, r, s, x) refl)
]

condition_routes :
    (routes : List Transition) (cs : List Fields) (result : Bool)
    → conditions_of routes ≡ some cs
    → both_results cs ≡ true
    → ((e : Transition) → In e routes → (e.to_stage == "") ≡ false)
    → Chosen routes result
condition_routes [] [] result p h t = cc
condition_routes [] (c ∷ cs) result p h t = cc
condition_routes (e ∷ []) cs result p h t =
    let (c, rest, q, r, s) = conditions_of-cons e [] cs p in
    let k : both_results (c ∷ []) ≡ true = cc in absurd (false≢true k)
condition_routes (e ∷ d ∷ []) cs result p h t =
    let (c, rest, q, r, s) = conditions_of-cons e (d ∷ []) cs p in
    let (b, more, q', r', s') = conditions_of-cons d [] rest r in
    let k : cs ≡ c ∷ b ∷ [] = cc (s, s', r') in
    two_routes e d c b result q q' (subst (λ (z : List Fields). both_results z ≡ true) k h)
      (t e here) (t d (there here))
condition_routes (e ∷ d ∷ f ∷ es) cs result p h t =
    let (c, rest, q, r, s) = conditions_of-cons e (d ∷ f ∷ es) cs p in
    let (b, more, q', r', s') = conditions_of-cons d (f ∷ es) rest r in
    let (a, others, q'', r'', s'') = conditions_of-cons f es more r' in
    let k : cs ≡ c ∷ b ∷ a ∷ others = cc (s, s', s'') in
    absurd (false≢true (subst (λ (z : List Fields). both_results z ≡ true) k h))

module _ (py : Python) where
  -- A Condition stage whose routes passed the saved checks has, for either result, a route that holds
  -- it, and the engine selects that one. Stage names are not empty.
  pub select_boolean_transition-forward :
      (transitions : List Transition) (name : String) (result : Bool)
      → valid_saved_routes py condition (routes_from transitions name) ≡ true
      → ((e : Transition) → In e transitions → (e.to_stage == "") ≡ false)
      → Chosen (routes_from transitions name) result
  select_boolean_transition-forward transitions name result h t =
      let (cs, p, v) = valid_conditions py condition (routes_from transitions name) h in
      condition_routes (routes_from transitions name) cs result p v
        (λ e m. t e (select-In (λ d. d.from_stage == name) transitions m).0)

  -- With no action of its own a route counts as Success.
  silent :
      (c : Fields)
      → truthy (get c "action") ≡ false
      → follows py "Success" (route_action py c) ≡ true
  silent c f = rw f (ground arith)

  outcome_found :
      (routes : List Transition) (cs : List Fields)
      → conditions_of routes ≡ some cs
      → Has (actions_of py cs routes) (py.casefold "Success")
      → (e : Transition) × In e routes × (outcome_route py "Success" routes ≡ ok (some e))
  outcome_found [] [] h k = cc
  outcome_found [] (c ∷ cs) h k = cc
  outcome_found (e ∷ es) cs h k =
      let (c, rest, p, q, r) = conditions_of-cons e es cs h in
      elim (Bool-cases (follows py "Success" (route_action py c))) [
        | inl goes ↦ (e, here, rw (condition_of-eq e p, goes) refl)
        | inr stays ↦
            let (d, m, s) = outcome_found es rest q (later c rest r stays) in
            (d, there m, rw (condition_of-eq e p, stays) s)
      ]
    where
      unmatched :
          (c : Fields)
          → follows py "Success" (route_action py c) ≡ false
          → (action_of py c e == py.casefold "Success") ≡ false
      unmatched c stays = elim (Bool-cases (truthy (get c "action"))) [
        | inl t ↦
            rw (action_of, t)
              (let k : follows py "Success" (str_of py (get c "action")) ≡ false = rw t at stays in
                ground arith)
        | inr f ↦ absurd (false≢true (sym stays ∙ silent c f))
      ]

      later :
          (c : Fields) (rest : List Fields)
          → cs ≡ c ∷ rest
          → follows py "Success" (route_action py c) ≡ false
          → Has (actions_of py rest es) (py.casefold "Success")
      later c rest r stays =
          let k' : Has (actions_of py (c ∷ rest) (e ∷ es)) (py.casefold "Success") =
            subst (λ (z : List Fields). Has (actions_of py z (e ∷ es)) (py.casefold "Success")) r
              k in
          ground (arith, unmatched c stays)

  -- A system action with valid routes can always go on after success: `_system_route` returns the
  -- end of one of the stage's own routes. Case folding empties no text that is not empty.
  pub system_route-forward :
      (transitions : List Transition) (name : String)
      → ((s : String) → py.casefold s ≡ "" → s ≡ "")
      → valid_saved_routes py system_action (routes_from transitions name) ≡ true
      → (e : Transition) × In e transitions
        × (e.from_stage ≡ name)
        × (system_route py transitions name "Success" ≡ ok (some e.to_stage))
  unfolding system_route
  system_route-forward transitions name unfolds h =
      let (cs, p, v) = valid_conditions py system_action (routes_from transitions name) h in
      let (e, m, q) = goes cs p (
        main_or_default py (py.casefold "Success") ("success" ∷ "error" ∷ [])
          (actions_of py cs (routes_from transitions name)) v) in
      let (n, f) = select-In (λ d. d.from_stage == name) transitions m in
      (e, n, (eq_iff e.from_stage name).0 f, rw q refl)
    where
      default_follows :
          (e : Transition) (c : Fields)
          → action_of py c e ≡ ""
          → follows py "Success" (route_action py c) ≡ true
      default_follows e c k = elim (Bool-cases (truthy (get c "action"))) [
        | inl t ↦
            let k' : str_of py (get c "action") ≡ "" =
              unfolds (str_of py (get c "action")) (rw (action_of, t) at k) in
            rw t (rw k' (ground arith))
        | inr f ↦ silent c f
      ]

      goes :
          (cs : List Fields)
          → conditions_of (routes_from transitions name) ≡ some cs
          → Has (actions_of py cs (routes_from transitions name)) (py.casefold "Success")
            ⊎ (single_default (actions_of py cs (routes_from transitions name)) ≡ true)
          → (e : Transition) × In e (routes_from transitions name)
            × (outcome_route py "Success" (routes_from transitions name) ≡ ok (some e))
      goes cs p (inl k) = outcome_found (routes_from transitions name) cs p k
      goes cs p (inr k) =
          let (e, c, one, q, r) = single_route py (routes_from transitions name) cs p k in
          (
            e,
            subst (λ (l : List Transition). In e l) (sym one) here,
            subst (λ (l : List Transition). outcome_route py "Success" l ≡ ok (some e)) (sym one)
                (rw (q, default_follows e c r) refl),
          )
