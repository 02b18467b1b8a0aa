-- ===== src/Workflow/Runtime/Route/Targets.antt =====
-- What the engine's choice of a route returns is the end of one of the stage's routes.
use frappe_erp_next.Prelude.{
  String, ◌≡◌, refl, sym, subst, ◌⊎◌, inl, inr, Bool, Option, none, some, List, [], ◌∷◌, ◌==◌,
  eq_iff, if◌then◌else◌, In, In-cons, here, there, select-In, Bool-cases,
}
use frappe_erp_next.Prelude.Result.{Result, ok, err, ◌>>=◌}
use frappe_erp_next.Python.{Value, Fields, Python}
use frappe_erp_next.Workflow.Design.{Transition}
use frappe_erp_next.Workflow.Condition.{
  ConditionError, matching, has_result, only_match, select_boolean_transition, wrong_routes,
}
use frappe_erp_next.Workflow.Activation.Ready.{routes_from}
use frappe_erp_next.Workflow.Runtime.Route.{
  RouteError, condition_of, follows, route_action, outcome_route, target_of, system_route,
}

-- The target of a Condition stage's choice is the end of one of the routes.
matching-cons :
    (result : Bool) (e : Transition) (es : List Transition) (ms : List String)
    → matching result (e ∷ es) ≡ some ms
    → (rest : List String) × (matching result es ≡ some rest)
      × ((ms ≡ e.to_stage ∷ rest) ⊎ (ms ≡ rest))
matching-cons result e es ms h = go e.condition_json (matching result es) refl h
  where
    go :
        (o : Option Value) (r : Option (List String))
        → matching result es ≡ r
        → (elim o [
          | some c ↦ elim r [
            | some xs ↦ some (if has_result result c then e.to_stage ∷ xs else xs)
            | none ↦ none
          ]
          | none ↦ none
        ])
          ≡ some ms
        → (rest : List String) × (matching result es ≡ some rest)
          × ((ms ≡ e.to_stage ∷ rest) ⊎ (ms ≡ rest))
    go (some c) (some xs) p k = elim (Bool-cases (has_result result c)) [
      | inl y ↦ (xs, p, inl (let q : some (e.to_stage ∷ xs) ≡ some ms = rw y at k in cc))
      | inr n ↦ (xs, p, inr (let q : some xs ≡ some ms = rw n at k in cc))
    ]
    go (some c) none p k = cc
    go none r p k = cc

matching-In :
    (result : Bool) (routes : List Transition) (ms : List String) (m : String)
    → matching result routes ≡ some ms
    → In m ms
    → (e : Transition) × In e routes × (e.to_stage ≡ m)
matching-In result [] [] m h k = elim k [ ]
matching-In result [] (x ∷ ms) m h k = cc
matching-In result (e ∷ es) ms m h k =
    let (rest, p, cases) = matching-cons result e es ms h in
    elim cases [
      | inl q ↦ elim (In-cons (subst (λ (z : List String). In m z) q k)) [
        | inl r ↦ (e, here, sym r)
        | inr later ↦ let (d, n, r) = matching-In result es rest m p later in (d, there n, r)
      ]
      | inr q ↦
          let (d, n, r) =
            matching-In result es rest m p (subst (λ (z : List String). In m z) q k) in
          (d, there n, r)
    ]

pub select_In :
    (routes : List Transition) (result : Bool) (d : String)
    → select_boolean_transition routes result ≡ ok d
    → (e : Transition) × In e routes × (e.to_stage ≡ d)
unfolding select_boolean_transition
select_In routes result d h = go (matching result routes) refl h
  where
    only : (ms : List String) → only_match ms ≡ ok d → In d ms
    only [] k = cc
    only (x ∷ []) k = elim (Bool-cases (x == "")) [
      | inl e ↦
          let q : ◌≡◌ {A = Result ConditionError String} (err wrong_routes) (ok d) = rw e at k in cc
      | inr n ↦
          let q : ◌≡◌ {A = Result ConditionError String} (ok x) (ok d) = rw n at k in
          let r : x ≡ d = cc in subst (λ (z : String). In z (x ∷ [])) r here
    ]
    only (x ∷ y ∷ ms) k = cc

    go :
        (o : Option (List String))
        → matching result routes ≡ o
        → (elim o [ some ms ↦ only_match ms | none ↦ err wrong_routes ]) ≡ ok d
        → (e : Transition) × In e routes × (e.to_stage ≡ d)
    go (some ms) p k = matching-In result routes ms d p (only ms k)
    go none p k = cc

outcome_In :
    (py : Python) (outcome : String) (routes : List Transition) {e : Transition}
    → outcome_route py outcome routes ≡ ok (some e)
    → In e routes
outcome_In py outcome [] h = cc
outcome_In py outcome (d ∷ ds) {e} h = go (condition_of d) h (outcome_In py outcome ds)
  where
    go :
        (r : Result RouteError Fields)
        → (r >>= λ c.
            if follows py outcome (route_action py c)
            then ok (some d)
            else outcome_route py outcome ds)
          ≡ ok (some e)
        → (outcome_route py outcome ds ≡ ok (some e) → In e ds)
        → In e (d ∷ ds)
    go (ok c) k later = elim (Bool-cases (follows py outcome (route_action py c))) [
      | inl y ↦
          let q : ◌≡◌ {A = Result RouteError (Option Transition)} (ok (some d)) (ok (some e)) =
            rw y at k in
          let r : d ≡ e = cc in subst (λ (z : Transition). In z (d ∷ ds)) r here
      | inr n ↦ there (later (rw n at k))
    ]
    go (err x) k later = cc

pub system_route-In :
    (py : Python) (transitions : List Transition) (name outcome target : String)
    → system_route py transitions name outcome ≡ ok (some target)
    → (e : Transition) × In e transitions × (e.from_stage ≡ name) × (e.to_stage ≡ target)
unfolding system_route
system_route-In py transitions name outcome target h =
    go (outcome_route py outcome (routes_from transitions name)) refl h
  where
    go :
        (r : Result RouteError (Option Transition))
        → outcome_route py outcome (routes_from transitions name) ≡ r
        → (r >>= λ found. ok (target_of found)) ≡ ok (some target)
        → (e : Transition) × In e transitions × (e.from_stage ≡ name) × (e.to_stage ≡ target)
    go (ok (some e)) p k =
        let (n, q) =
          select-In (λ d. d.from_stage == name) transitions
            (outcome_In py outcome (routes_from transitions name) p) in
        (e, n, (eq_iff e.from_stage name).0 q, cc)
    go (ok none) p k = cc
    go (err x) p k = cc
