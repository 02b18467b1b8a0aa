-- ===== src/Workflow/Runtime/Cycle.antt =====
-- How deep `_activate_stage` calls itself. Without a cycle of automatic stages the fuel suffices; a
-- cycle of Condition stages whose tests keep passing never ends, although activation allows it.
use Prim.Native.String.{◌++◌ as ◌<>◌}
use frappe_erp_next.Prelude.{ℕ, zero, suc, ◌≡◌, refl, Bool, Option, some, if◌then◌else◌}
use frappe_erp_next.Prelude.Result.{ok, err}
use frappe_erp_next.Python.{Fields, dict, get, str_of}
use frappe_erp_next.Workflow.Design.{condition, Stage}
use frappe_erp_next.Workflow.Condition.{select_boolean_transition}
use frappe_erp_next.Workflow.Activation.Ready.{routes_from}
use frappe_erp_next.Workflow.Runtime.Activate.{activate, actual_value, test_of, stage_activity}
use frappe_erp_next.Workflow.Runtime.State.{Engine, Task, Site, out_of_fuel, get_stage}

-- A Condition stage whose test always gives `result`, and whose route for it leads to `next`.
pub record PassesTo (site : Site) (source : Option Task) (stage next : Stage) : Type 0 where
  pub config : Fields
  pub result : Bool
  pub is_condition : stage.stage_type ≡ condition
  pub configured : stage.config ≡ some (dict config)
  pub tests :
      (e : Engine)
      → test_of site.py
          (get config "operator")
          (actual_value e config source)
          (get config "compare_value")
        ≡ ok result
  pub routed :
      select_boolean_transition (routes_from site.transitions stage.name) result ≡ ok next.name
  pub found : get_stage site.stages next.name ≡ ok next

-- What entering the stage writes.
after_test : Site → Option Task → Stage → Fields → Bool → Engine → Engine
after_test site source stage config result e =
    let entered : Engine = record e { current_stage = stage.name } in
    stage_activity site source stage (if result then "Condition True" else "Condition False")
      (str_of site.py (get config "source_field")
        <> " = "
        <> str_of site.py (actual_value entered config source))
      entered

PassesTo-step :
    (site : Site) (source : Option Task) (stage next : Stage) (fuel : ℕ) (e : Engine)
    → (p : PassesTo site source stage next)
    → activate (suc fuel) site source stage e
      ≡ activate fuel site source next (after_test site source stage p.config p.result e)
unfolding activate after_test
PassesTo-step site source stage next fuel e p =
    rw
      (
        p.configured,
        p.is_condition,
        p.tests (record e { current_stage = stage.name }),
        p.routed,
        p.found,
      )
      refl

-- Two Condition stages that each pass to the other for a source task: the engine enters them without
-- end, whatever the bound on the stages entered.
pub activate-cycle :
    (site : Site) (source : Option Task) (a b : Stage)
    → PassesTo site source a b
    → PassesTo site source b a
    → (fuel : ℕ) (e : Engine)
    → (activate fuel site source a e ≡ err out_of_fuel)
      × (activate fuel site source b e ≡ err out_of_fuel)
unfolding activate
activate-cycle site source a b p q zero e = (refl, refl)
activate-cycle site source a b p q (suc fuel) e = (
  rw (PassesTo-step site source a b fuel e p)
      (activate-cycle site source a b p q fuel (after_test site source a p.config p.result e)).1,
  rw (PassesTo-step site source b a fuel e q)
      (activate-cycle site source a b p q fuel (after_test site source b q.config q.result e)).0,
)
