-- ===== src/Workflow/Runtime/Launch/Made.antt =====
-- What `start_workflow_instance` of asoud_erp/api/v1/workflow_runtime.py leaves when it succeeds:
-- the rows as they were, or one instance more.
use frappe_erp_next.Prelude.{
  ℕ, String, ◌≡◌, refl, ap, ◌∙◌, ◌⊎◌, inl, inr, false, Option, none, some, ◌∷◌, arith,
}
use frappe_erp_next.Prelude.Result.{Result, ok, check_all, check_all-AllPass, >>=-eq-ok}
use frappe_erp_next.Python.{Fields}
use frappe_erp_next.Workflow.Design.{Stage}
use frappe_erp_next.Workflow.Start.{StartMode, reuse, new}
use frappe_erp_next.Workflow.Runtime.State.{Site}
use frappe_erp_next.Workflow.Runtime.Launch.{
  Instance, Store, LaunchError, Args, Office, is_given, bad_text, start_row, start_config_of,
  lift_engine, argument_guards, setting_guards,
}
use frappe_erp_next.Workflow.Runtime.Launch.Create.{
  Prepared, prepare, entry_subject, reference_guards, make, finish, run_first, first_rows,
}

-- What a call that makes an instance puts before the others.
pub record Made (a : Args) (st st' : Store) : Type 0 where
  pub added : Instance
  pub rows_are : st'.instances ≡ added ∷ st.instances
  pub definition_is : added.workflow_definition ≡ a.definition
  pub doctype_is : added.reference_doctype ≡ a.reference_doctype
  pub name_is : added.reference_name ≡ a.reference_name

pub store_eq :
    {x y : Store} {m n : ℕ}
    → ◌≡◌ {A = Result LaunchError (Store × ℕ)} (ok (x, m)) (ok (y, n))
    → y ≡ x
store_eq q = cc

module _ (fuel : ℕ) (o : Office) (site : Site) (a : Args) where
  pub make-Made :
      (p : Prepared) (existing : Option Instance) (st : Store) (row : Option Stage) {st' : Store}
      {n : ℕ}
      → make fuel o site a p existing st row ≡ ok (st', n)
      → Made a st st'
  make-Made p existing st none h = cc
  make-Made p existing st (some row) {st'} h =
      let (rows, q, h1) =
        >>=-eq-ok (lift_engine (run_first fuel site row (first_rows o site a p.config row))) _ h in
      record {
        added = _;
        rows_are = ap (λ (x : Store). x.instances) (store_eq h1);
        definition_is = refl;
        doctype_is = refl;
        name_is = refl;
      }

  pub finish_cases :
      (p : Prepared) (st : Store) (decided : StartMode × Option Instance) {st' : Store} {n : ℕ}
      → finish fuel o site a p st decided ≡ ok (st', n)
      → (st' ≡ st) ⊎ Made a st st'
  finish_cases p st (reuse, some i) h = inl (store_eq h)
  finish_cases p st (reuse, none) h = inr (make-Made p none st p.start h)
  finish_cases p st (new, existing) h = inr (make-Made p existing st p.start h)

pub absent : (r : Option String) → is_given r ≡ false → bad_text r ≡ false → r ≡ none
absent none g b = refl
absent (some s) g b = ground arith

-- The settings that the guards read, and that a name of a record is no empty text.
pub prepare_lem :
    (o : Office) (site : Site) (a : Args) (p : Prepared) (config : Fields)
    → prepare o site a ≡ ok p
    → start_config_of (start_row site.stages) ≡ ok config
    → (p.config ≡ config) × (bad_text a.reference_name ≡ false)
prepare_lem o site a p config h set =
    let (u, g, h1) = >>=-eq-ok (check_all (argument_guards o a)) _ h in
    let (_, (_, (b, _))) = check_all-AllPass (argument_guards o a) g in
    let (c, q, h2) = >>=-eq-ok (lift_engine (start_config_of (start_row site.stages))) _ h1 in
    let (v, g', h3) = >>=-eq-ok (check_all (setting_guards site o a c)) _ h2 in
    let (subject, s, h4) = >>=-eq-ok (entry_subject o a) _ h3 in
    let (w, g'', h5) = >>=-eq-ok (check_all (reference_guards o a c subject)) _ h4 in
    (ap (λ (x : Prepared). x.config) (prepared_eq h5) ∙ fields_eq (rw set at q), ground arith)
  where
    prepared_eq : {x y : Prepared} → ◌≡◌ {A = Result LaunchError Prepared} (ok x) (ok y) → y ≡ x
    prepared_eq e = cc

    fields_eq : {x y : Fields} → ◌≡◌ {A = Result LaunchError Fields} (ok x) (ok y) → y ≡ x
    fields_eq e = cc
