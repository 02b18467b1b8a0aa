-- ===== src/Workflow/Runtime/Route/Forward.antt =====
-- A stage whose routes passed the saved checks has a way on: the engine finds a route for the
-- decision that carries the process forward.
use frappe_erp_next.Prelude.{
  String, ◌≡◌, refl, ◌∙◌, sym, ap, subst, ◌⊎◌, inl, inr, true, false, ◌||◌, Option, none, some,
  List, [], ◌∷◌, ◌==◌, eqb, eq_iff, arith, In, here, there, Has, select-In, Bool-cases,
}
use mathlib.Core.Bool.{false≢true}
use frappe_erp_next.Prelude.Result.{ok}
use frappe_erp_next.Python.{Value, Fields, null, bool, int, list, str, dict, Python}
use frappe_erp_next.Workflow.Design.{
  StageType, start, user_task, approval, system_action, condition, wait, end_stage, Transition,
  conditions_of, actions_of, action_of, count, single_default, valid_actions, valid_routes_of,
  valid_saved_routes,
}
use frappe_erp_next.Workflow.Activation.Ready.{routes_from}
use frappe_erp_next.Workflow.Runtime.Route.{condition_of, labelled, next_stage}

-- Every condition of the list decodes to an object.
pub conditions_of-cons :
    (e : Transition) (es : List Transition) (cs : List Fields)
    → conditions_of (e ∷ es) ≡ some cs
    → (c : Fields) × (rest : List Fields) × (e.condition_json ≡ some (dict c))
      × (conditions_of es ≡ some rest)
      × (cs ≡ c ∷ rest)
conditions_of-cons e es cs h = go e.condition_json (conditions_of es) refl refl h
  where
    go :
        (o : Option Value) (r : Option (List Fields))
        → e.condition_json ≡ o
        → conditions_of es ≡ r
        → (elim o [ some (dict c) ↦ elim r [ some xs ↦ some (c ∷ xs) | none ↦ none ] | _ ↦ none ])
          ≡ some cs
        → (c : Fields) × (rest : List Fields) × (e.condition_json ≡ some (dict c))
          × (conditions_of es ≡ some rest)
          × (cs ≡ c ∷ rest)
    go (some (dict c)) (some xs) p q k = (c, xs, p, q, cc)
    go (some (dict c)) none p q k = cc
    go none r p q k = cc
    go (some null) r p q k = cc
    go (some (bool b)) r p q k = cc
    go (some (int b)) r p q k = cc
    go (some (str b)) r p q k = cc
    go (some (list b)) r p q k = cc

pub condition_of-eq :
    (e : Transition) {c : Fields} → e.condition_json ≡ some (dict c) → condition_of e ≡ ok c
condition_of-eq e p = rw p refl

count-Has : (a : String) (xs : List String) → eqb (count a xs) 1 ≡ true → Has xs a
count-Has a [] h = cc
count-Has a (x ∷ xs) h = ground (arith, count-Has a xs)

-- The decision that carries a stage of this kind forward.
abbrev pub forward : StageType → Option String
forward user_task = some "Complete"
forward approval = some "Approve"
forward _ = none

module _ (py : Python) where
  labelled_found :
      (action : String) (routes : List Transition) (cs : List Fields)
      → conditions_of routes ≡ some cs
      → Has (actions_of py cs routes) (py.casefold action)
      → (e : Transition) × In e routes × (labelled py action routes ≡ ok (some e))
  labelled_found action [] [] h k = cc
  labelled_found action [] (c ∷ cs) h k = cc
  labelled_found action (e ∷ es) cs h k =
      let (c, rest, p, q, r) = conditions_of-cons e es cs h in
      elim (Bool-cases (action_of py c e == py.casefold action)) [
        | inl match ↦ (e, here, rw (condition_of-eq e p, match) refl)
        | inr differs ↦
            let (d, m, s) = labelled_found action es rest q (later c rest r differs) in
            (d, there m, rw (condition_of-eq e p, differs) s)
      ]
    where
      later :
          (c : Fields) (rest : List Fields)
          → cs ≡ c ∷ rest
          → (action_of py c e == py.casefold action) ≡ false
          → Has (actions_of py rest es) (py.casefold action)
      later c rest r differs =
          let k' : Has (actions_of py (c ∷ rest) (e ∷ es)) (py.casefold action) =
            subst (λ (z : List Fields). Has (actions_of py z (e ∷ es)) (py.casefold action)) r k in
          ground arith

  -- The single route with no action of its own.
  pub single_route :
      (routes : List Transition) (cs : List Fields)
      → conditions_of routes ≡ some cs
      → single_default (actions_of py cs routes) ≡ true
      → (e : Transition) × (c : Fields) × (routes ≡ e ∷ [])
        × (condition_of e ≡ ok c)
        × (action_of py c e ≡ "")
  single_route [] [] h k = cc
  single_route [] (c ∷ cs) h k = cc
  single_route (e ∷ []) cs h k =
      let (c, rest, p, q, r) = conditions_of-cons e [] cs h in
      let k' : single_default (actions_of py (c ∷ rest) (e ∷ [])) ≡ true =
        subst (λ (z : List Fields). single_default (actions_of py z (e ∷ [])) ≡ true) r k in
      (e, c, refl, condition_of-eq e p, (eq_iff (action_of py c e) "").0 (ground arith))
  single_route (e ∷ d ∷ es) cs h k =
      let (c, rest, p, q, r) = conditions_of-cons e (d ∷ es) cs h in
      let (b, more, p', q', r') = conditions_of-cons d es rest q in
      let k' : single_default (actions_of py (c ∷ b ∷ more) (e ∷ d ∷ es)) ≡ true =
        subst (λ (z : List Fields). single_default (actions_of py z (e ∷ d ∷ es)) ≡ true)
          (r ∙ ap (λ (z : List Fields). c ∷ z) r') k in
      absurd (false≢true k')

  -- What the tests on the actions leave: the main action is there, or there is one default route.
  pub main_or_default :
      (main : String) (allowed actions : List String)
      → valid_actions main allowed actions ≡ true
      → Has actions main ⊎ (single_default actions ≡ true)
  main_or_default main allowed actions h = elim (Bool-cases (eqb (count main actions) 1)) [
    | inl one ↦ inl (count-Has main actions one)
    | inr other ↦ inr (ground arith)
  ]

  pub valid_conditions :
      (kind : StageType) (routes : List Transition)
      → valid_saved_routes py kind routes ≡ true
      → (cs : List Fields) × (conditions_of routes ≡ some cs)
        × (valid_routes_of py kind routes cs ≡ true)
  unfolding valid_saved_routes
  valid_conditions kind routes h = go (conditions_of routes) refl h
    where
      go :
          (o : Option (List Fields))
          → conditions_of routes ≡ o
          → (elim o [ some cs ↦ valid_routes_of py kind routes cs | none ↦ false ]) ≡ true
          → (cs : List Fields) × (conditions_of routes ≡ some cs)
            × (valid_routes_of py kind routes cs ≡ true)
      go (some cs) p k = (cs, p, k)
      go none p k = cc

  -- The engine's choice among valid routes, for an action to which the fallback is open.
  module _ (transitions : List Transition) (name action : String) (named : (action == "") ≡ false)
      (open_to : ((action == "Complete") || (action == "Approve")) ≡ true) where
    next_stage_labelled :
        (cs : List Fields)
        → conditions_of (routes_from transitions name) ≡ some cs
        → Has (actions_of py cs (routes_from transitions name)) (py.casefold action)
        → (e : Transition) × In e transitions
          × (e.from_stage ≡ name)
          × (next_stage py transitions name (some action) ≡ ok (some e.to_stage))
    unfolding next_stage
    next_stage_labelled cs h k =
        let (e, m, q) = labelled_found action (routes_from transitions name) cs h k in
        let (n, p) = select-In (λ d. d.from_stage == name) transitions m in
        (e, n, (eq_iff e.from_stage name).0 p, rw (named, q) refl)

    next_stage_single :
        (cs : List Fields)
        → conditions_of (routes_from transitions name) ≡ some cs
        → single_default (actions_of py cs (routes_from transitions name)) ≡ true
        → (e : Transition) × In e transitions
          × (e.from_stage ≡ name)
          × (next_stage py transitions name (some action) ≡ ok (some e.to_stage))
    unfolding next_stage
    next_stage_single cs h k =
        let (e, c, one, p, q) = single_route (routes_from transitions name) cs h k in
        let (n, f) =
          select-In (λ d. d.from_stage == name) transitions
            (subst (λ (l : List Transition). In e l) (sym one) here) in
        (e, n, (eq_iff e.from_stage name).0 f, rw (one, p) (ground arith))

  by_actions :
      (transitions : List Transition) (name action : String)
      → (action == "") ≡ false
      → ((action == "Complete") || (action == "Approve")) ≡ true
      → (cs : List Fields) → conditions_of (routes_from transitions name) ≡ some cs
      → Has (actions_of py cs (routes_from transitions name)) (py.casefold action)
        ⊎ (single_default (actions_of py cs (routes_from transitions name)) ≡ true)
      → (e : Transition) × In e transitions
        × (e.from_stage ≡ name)
        × (next_stage py transitions name (some action) ≡ ok (some e.to_stage))
  by_actions transitions name action named open_to cs p (inl k) =
      next_stage_labelled transitions name action named open_to cs p k
  by_actions transitions name action named open_to cs p (inr k) =
      next_stage_single transitions name action named open_to cs p k

  -- From a user task or an approval with valid routes, the decision that completes the stage has a
  -- target: the engine's `_next_stage` returns the end of one of the stage's own routes.
  pub next_stage-forward :
      (kind : StageType) (action : String) (transitions : List Transition) (name : String)
      → forward kind ≡ some action
      → valid_saved_routes py kind (routes_from transitions name) ≡ true
      → (e : Transition) × In e transitions
        × (e.from_stage ≡ name)
        × (next_stage py transitions name (some action) ≡ ok (some e.to_stage))
  next_stage-forward user_task action transitions name f h =
      let (cs, p, v) = valid_conditions user_task (routes_from transitions name) h in
      let named : action ≡ "Complete" = cc in
      rw named (
        by_actions transitions name "Complete" refl refl cs p (
          main_or_default (py.casefold "Complete") ("complete" ∷ "reject" ∷ "return" ∷ [])
            (actions_of py cs (routes_from transitions name)) v))
  next_stage-forward approval action transitions name f h =
      let (cs, p, v) = valid_conditions approval (routes_from transitions name) h in
      let named : action ≡ "Approve" = cc in
      rw named (
        by_actions transitions name "Approve" refl refl cs p (
          main_or_default (py.casefold "Approve") ("approve" ∷ "reject" ∷ "return" ∷ [])
            (actions_of py cs (routes_from transitions name)) v))
  next_stage-forward start action transitions name f h = cc
  next_stage-forward condition action transitions name f h = cc
  next_stage-forward system_action action transitions name f h = cc
  next_stage-forward wait action transitions name f h = cc
  next_stage-forward end_stage action transitions name f h = cc
