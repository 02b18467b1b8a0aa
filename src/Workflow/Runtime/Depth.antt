-- ===== src/Workflow/Runtime/Depth.antt =====
-- The fuel of `_activate_stage` suffices where the automatic stages of the design form no cycle.
use frappe_erp_next.Prelude.{
  ℕ, zero, suc, ◌<◌, String, ◌≡◌, ◌≢◌, refl, sym, ◌∙◌, subst, inl, inr, Bool, true, false, ◌&&◌,
  Option, none, some, List, [], ◌∷◌, ◌==◌, eq_iff, arith, if◌then◌else◌, In, here, there, select-In,
  Bool-cases,
}
use frappe_erp_next.Prelude.Int.{ℤ}
use frappe_erp_next.Prelude.Result.{ok_eq, Result, ok, err, ◌>>=◌}
use frappe_erp_next.Python.{Fields, get, Python}
use frappe_erp_next.Workflow.Design.{
  StageType, start, user_task, approval, condition, system_action, wait, end_stage, Stage,
  Transition,
}
use frappe_erp_next.Workflow.Condition.{ConditionError, select_boolean_transition}
use frappe_erp_next.Workflow.Activation.Ready.{routes_from}
use frappe_erp_next.Workflow.Runtime.Route.{RouteError, system_route}
use frappe_erp_next.Workflow.Runtime.Route.Targets.{select_In, system_route-In}
use frappe_erp_next.Workflow.Runtime.Assign.{AssignError, users_for_stage}
use frappe_erp_next.Workflow.Runtime.Lookup.{
  rows_of, completed_rows, completed_tasks, task_deadlines,
}
use frappe_erp_next.Workflow.Runtime.Activate.{
  Onward, activate, enter_kind, enter_condition, enter_task, run_system_action, after_action,
  stage_users, is_user_task_stage, has_contract, is_two, test_of, actual_value,
}
use frappe_erp_next.Workflow.Runtime.State.{
  Engine, EngineError, Task, Site, out_of_fuel, lift_route, lift_condition, lift_assign, get_stage,
  config_of,
}

-- The call does not run out of fuel.
abbrev pub DeepEnough {ℓ} : {A : Type ℓ} → Result EngineError A → Type ℓ
DeepEnough r = r ≢ err out_of_fuel

bind_ok {ℓ κ} :
    {A : Type ℓ} {B : Type κ} (m : Result EngineError A) (f : A → Result EngineError B)
    → DeepEnough m
    → ((a : A) → m ≡ ok a → DeepEnough (f a))
    → DeepEnough (m >>= f)
bind_ok (ok a) f h k = k a refl
bind_ok (err e) f h k = λ q. h (cc)

lift_route_ok {ℓ} : {A : Type ℓ} (r : Result RouteError A) → DeepEnough (lift_route r)
lift_route_ok (ok a) = λ q. cc
lift_route_ok (err e) = λ q. cc

lift_condition_ok {ℓ} : {A : Type ℓ} (r : Result ConditionError A) → DeepEnough (lift_condition r)
lift_condition_ok (ok a) = λ q. cc
lift_condition_ok (err e) = λ q. cc

lift_assign_ok {ℓ} : {A : Type ℓ} (r : Result AssignError A) → DeepEnough (lift_assign r)
lift_assign_ok (ok a) = λ q. cc
lift_assign_ok (err e) = λ q. cc

get_stage_ok : (stages : List Stage) (name : String) → DeepEnough (get_stage stages name)
get_stage_ok [] name = λ q. cc
get_stage_ok (s ∷ rest) name = elim (Bool-cases (s.name == name)) [
  | inl e ↦ rw (get_stage, e) (λ q. cc)
  | inr n ↦ rw (get_stage, n) (get_stage_ok rest name)
]

-- What is found is a stage of the list, by its name.
get_stage-In :
    (stages : List Stage) (name : String) {s : Stage}
    → get_stage stages name ≡ ok s
    → In s stages × (s.name ≡ name)
get_stage-In [] name h = cc
get_stage-In (t ∷ rest) name {s} h = elim (Bool-cases (t.name == name)) [
  | inl e ↦
      let q : t ≡ s = ok_eq (rw (get_stage, e) at h) in
      (
        subst (λ (z : Stage). In z (t ∷ rest)) q here,
        subst (λ (z : Stage). z.name ≡ name) q ((eq_iff t.name name).0 e),
      )
  | inr n ↦ let (m, p) = get_stage-In rest name (rw (get_stage, n) at h) in (there m, p)
]

config_of_ok : (s : Stage) → DeepEnough (config_of s)
config_of_ok s = λ q. ground arith

rows_ok : (stages : List Stage) (ts : List Task) → DeepEnough (rows_of stages ts)
rows_ok stages [] = λ q. cc
rows_ok stages (t ∷ ts) =
    bind_ok (get_stage stages t.workflow_stage) _ (get_stage_ok stages t.workflow_stage) λ s _.
      bind_ok (config_of s) _ (config_of_ok s)
        λ c _. bind_ok (rows_of stages ts) _ (rows_ok stages ts) λ r _ q. cc

deadlines_ok : (py : Python) (now : ℤ) (config : Fields) → DeepEnough (task_deadlines py now config)
unfolding task_deadlines
deadlines_ok py now config = λ q. ground arith

-- A stage that the engine passes through without a person.
abbrev pub is_automatic : Stage → Bool
is_automatic stage = elim stage.stage_type [ condition ↦ true | system_action ↦ true | _ ↦ false ]

-- The automatic stages form no cycle: every edge out of one lowers the rank. The calls of other
-- modules do not run out of fuel.
pub record IsAcyclic (site : Site) (rank : String → ℕ) : Type 0 where
  pub lowers :
      (s : Stage) (e : Transition)
      → In s site.stages
      → In e site.transitions
      → is_automatic s ≡ true
      → e.from_stage ≡ s.name
      → rank e.to_stage < rank s.name
  pub scheduled : (e : Engine) (s : Stage) (c : Fields) → DeepEnough (site.schedule e s c)
  pub contracted : (e : Engine) (s : Stage) → DeepEnough (site.contract_users e s)

module _ (site : Site) (source : Option Task) (rank : String → ℕ)
    (acyclic : IsAcyclic site rank) where
  enter_task_ok :
      (stage : Stage) (config : Fields) (e : Engine) → DeepEnough (enter_task site stage config e)
  unfolding completed_rows
  enter_task_ok stage config e =
      bind_ok (completed_rows site e) _ (rows_ok site.stages (completed_tasks e)) λ rows _.
        bind_ok (task_deadlines site.py site.now config) _ (deadlines_ok site.py site.now config)
          λ due _.
            bind_ok (stage_users site e stage config) _
              (users_ok (is_user_task_stage stage && has_contract config)) λ users _ q. cc
    where
      users_ok :
          (b : Bool)
          → DeepEnough (
              if b
              then site.contract_users e stage
              else lift_assign (
                  users_for_stage site.py site.directory site.company e.started_by stage.stage_type
                    config))
      users_ok true = acyclic.contracted e stage
      users_ok false =
          lift_assign_ok (
            users_for_stage site.py site.directory site.company e.started_by stage.stage_type
              config)

  -- `onward` is deep enough for every stage below the rank of this one.
  abbrev Lower : Stage → Onward → Type 0
  Lower stage onward =
      (next : Stage) (e : Engine)
      → In next site.stages
      → rank next.name < rank stage.name
      → DeepEnough (onward next e)

  target_ok :
      (stage : Stage) (onward : Onward) (d : Transition) (name : String) (e : Engine)
      → In stage site.stages
      → Lower stage onward
      → is_automatic stage ≡ true
      → In d site.transitions
      → d.from_stage ≡ stage.name
      → d.to_stage ≡ name
      → DeepEnough (get_stage site.stages name >>= λ next. onward next e)
  target_ok stage onward d name e here_in lower auto m p q =
      bind_ok (get_stage site.stages name) _ (get_stage_ok site.stages name) λ next found.
        let (n, r) = get_stage-In site.stages name found in
        lower next e n (rw (r ∙ sym q) (acyclic.lowers stage d here_in m auto p))

  condition_ok :
      (stage : Stage) (onward : Onward) (config : Fields) (e : Engine)
      → In stage site.stages
      → Lower stage onward
      → is_automatic stage ≡ true
      → DeepEnough (enter_condition site source onward stage config e)
  condition_ok stage onward config e m lower auto =
      bind_ok
        (lift_condition (
          test_of site.py (get config "operator") (actual_value e config source)
            (get config "compare_value")))
        _ (lift_condition_ok _)
        λ result _.
          bind_ok
            (lift_condition
              (select_boolean_transition (routes_from site.transitions stage.name) result))
            _ (lift_condition_ok _)
            λ destination chosen.
              let (d, n, q) =
                select_In (routes_from site.transitions stage.name) result destination
                  (lowered _ chosen) in
              let (k, p) = select-In (λ x. x.from_stage == stage.name) site.transitions n in
              target_ok stage onward d destination _ m lower auto k
                ((eq_iff d.from_stage stage.name).0 p) q
    where
      lowered : (r : Result ConditionError String) {d : String} → lift_condition r ≡ ok d → r ≡ ok d
      lowered (ok a) h = cc
      lowered (err x) h = cc

  after_ok :
      (stage : Stage) (onward : Onward) (success : Bool) (target : Option String) (outcome : String)
      (e : Engine)
      → In stage site.stages
      → Lower stage onward
      → is_automatic stage ≡ true
      → system_route site.py site.transitions stage.name outcome ≡ ok target
      → DeepEnough (after_action site source onward success target e)
  after_ok stage onward success (some target) outcome e m lower auto h =
      let (d, k, p, q) = system_route-In site.py site.transitions stage.name outcome target h in
      target_ok stage onward d target e m lower auto k p q
  after_ok stage onward true none outcome e m lower auto h = λ q. cc
  after_ok stage onward false none outcome e m lower auto h = λ q. cc

  system_ok :
      (stage : Stage) (onward : Onward) (config : Fields) (e : Engine)
      → In stage site.stages
      → Lower stage onward
      → is_automatic stage ≡ true
      → DeepEnough (run_system_action site source onward stage config e)
  system_ok stage onward config e m lower auto =
      let outcome = if (site.execute e stage config).success then "Success" else "Error" in
      bind_ok (lift_route (system_route site.py site.transitions stage.name outcome)) _
        (lift_route_ok _)
        λ target chosen.
          after_ok stage onward (site.execute e stage config).success target outcome _ m lower auto
            (lowered _ chosen)
    where
      lowered :
          (r : Result RouteError (Option String)) {d : Option String}
          → lift_route r ≡ ok d
          → r ≡ ok d
      lowered (ok a) h = cc
      lowered (err x) h = cc

  kind_ok :
      (kind : StageType) (stage : Stage) (onward : Onward) (config : Fields) (e : Engine)
      → stage.stage_type ≡ kind
      → In stage site.stages
      → Lower stage onward
      → DeepEnough (enter_kind site source onward kind stage config e)
  kind_ok condition stage onward config e k m lower =
      condition_ok stage onward config e m lower (rw k refl)
  kind_ok system_action stage onward config e k m lower =
      choose (is_two (get config "schema_version"))
    where
      choose :
          (b : Bool)
          → DeepEnough (
              if b
              then site.schedule e stage config
              else run_system_action site source onward stage config e)
      choose true = acyclic.scheduled e stage config
      choose false = system_ok stage onward config e m lower (rw k refl)
  kind_ok user_task stage onward config e k m lower = enter_task_ok stage config e
  kind_ok approval stage onward config e k m lower = enter_task_ok stage config e
  kind_ok end_stage stage onward config e k m lower = λ q. cc
  kind_ok start stage onward config e k m lower = λ q. cc
  kind_ok wait stage onward config e k m lower = λ q. cc

  -- Where every edge out of an automatic stage lowers the rank, and the calls of other modules do not
  -- run out of fuel, entering a stage of the design with fuel above its rank does not either, whatever
  -- the rows, the tests and the actions say.
  pub activate-enough_fuel :
      (fuel : ℕ) (stage : Stage) (e : Engine)
      → In stage site.stages
      → rank stage.name < fuel
      → DeepEnough (activate fuel site source stage e)
  unfolding activate
  activate-enough_fuel zero stage e m h = absurd (omega arith)
  activate-enough_fuel (suc fuel) stage e m h =
      bind_ok (config_of stage) _ (config_of_ok stage) λ config _.
        kind_ok stage.stage_type stage (activate fuel site source) config _ refl m
          (λ next e' n less. activate-enough_fuel fuel next e' n (omega arith))
