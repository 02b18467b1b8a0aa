-- ===== src/Workflow/Runtime/Launch/Retry.antt =====
-- The same start twice: `request_id` in `start_workflow_instance` of
-- asoud_erp/api/v1/workflow_runtime.py.
use frappe_erp_next.Prelude.{
  ℕ, String, ◌≡◌, refl, sym, ◌⊎◌, inl, inr, true, Option, none, some, ◌∷◌, eq_refl, find,
  Option-cases,
}
use frappe_erp_next.Prelude.Int.{ℤ}
use frappe_erp_next.Prelude.Result.{Result, ok, check_all, >>=-eq-ok}
use frappe_erp_next.Python.{Fields, strip}
use frappe_erp_next.Workflow.Design.{Stage}
use frappe_erp_next.Workflow.Start.{StartMode, reuse, new}
use frappe_erp_next.Workflow.Runtime.State.{Engine, Site}
use frappe_erp_next.Workflow.Runtime.Launch.{
  Instance, Store, LaunchError, Args, Office, is_given, start_row, start_config_of, lift_engine,
  is_configured,
}
use frappe_erp_next.Workflow.Runtime.Launch.Existing.{
  same_text, is_repeat, repeated, request_guard, decided_start,
}
use frappe_erp_next.Workflow.Runtime.Launch.Create.{
  Prepared, prepare, started_row, make, finish, continue, run_first, first_rows,
  start_workflow_instance,
}
use frappe_erp_next.Workflow.Runtime.Launch.Made.{store_eq, prepare_lem}

same_text_refl : (a : Option String) → same_text a a ≡ true
same_text_refl none = refl
same_text_refl (some s) = eq_refl s

name_eq :
    {x y : Store} {m n : ℕ}
    → ◌≡◌ {A = Result LaunchError (Store × ℕ)} (ok (x, m)) (ok (y, n))
    → n ≡ m
name_eq q = cc

module _ (fuel : ℕ) (o : Office) (site : Site) (a : Args) (p : Prepared) (st : Store) where
  -- An instance was reused, or the query for `request_id` finds the one that was made.
  abbrev Repeats : StartMode × Option Instance → Store → ℕ → Type 0
  Repeats decided st' n =
      ((i : Instance) × (decided ≡ (reuse, some i)) × (st' ≡ st) × (n ≡ i.name))
      ⊎ ((i : Instance) × (find (is_repeat site.user a) st'.instances ≡ some i) × (i.name ≡ n))

  abbrev made : Option Instance → Engine → Instance
  made existing rows = record {
    name = st.next_name;
    workflow_definition = a.definition;
    subject = strip p.subject;
    reference_doctype = a.reference_doctype;
    reference_name = a.reference_name;
    started = started_row site a p.config existing;
    rows = rows;
  }

  found :
      (existing : Option Instance) (rows : Engine)
      → is_configured p.config ≡ true
      → is_given a.request_id ≡ true
      → find (is_repeat site.user a) (made existing rows ∷ st.instances) ≡ some (made existing rows)
  found existing rows c g = rw (c, g, eq_refl, eq_refl, same_text_refl)

  make-Repeats :
      (existing : Option Instance) (row : Option Stage) {st' : Store} {n : ℕ}
      → is_configured p.config ≡ true
      → is_given a.request_id ≡ true
      → make fuel o site a p existing st row ≡ ok (st', n)
      → (decided : StartMode × Option Instance) → Repeats decided st' n
  make-Repeats existing none c g h decided = cc
  make-Repeats existing (some row) {st'} {n} c g h decided =
      let (rows, q, h1) =
        >>=-eq-ok (lift_engine (run_first fuel site row (first_rows o site a p.config row))) _ h in
      inr (made existing rows, rw (store_eq h1) (found existing rows c g), sym (name_eq h1))

  finish-Repeats :
      (decided : StartMode × Option Instance) {st' : Store} {n : ℕ}
      → is_configured p.config ≡ true
      → is_given a.request_id ≡ true
      → finish fuel o site a p st decided ≡ ok (st', n)
      → Repeats decided st' n
  finish-Repeats (reuse, some i) c g h = inl (i, refl, store_eq h, name_eq h)
  finish-Repeats (reuse, none) c g h = make-Repeats none p.start c g h _
  finish-Repeats (new, existing) c g h = make-Repeats existing p.start c g h _

-- A start with settings and a `request_id` that succeeds can be sent again right after, with nothing
-- but the clock changed since: the second call succeeds, returns the same instance, and changes no
-- row.
pub start_workflow_instance_retry :
    (fuel : ℕ) (o : Office) (site : Site) (st : Store) (a : Args) (config : Fields) {st' : Store}
    {n : ℕ}
    → start_config_of (start_row site.stages) ≡ ok config
    → is_configured config ≡ true
    → is_given a.request_id ≡ true
    → start_workflow_instance fuel o site st a ≡ ok (st', n)
    → (t : ℤ) → start_workflow_instance fuel o (record site { now = t }) st' a ≡ ok (st', n)
unfolding start_workflow_instance
start_workflow_instance_retry fuel o site st a config {st'} {n} set c g h t =
    let (p, q, h1) = >>=-eq-ok (prepare o site a) _ h in
    let (same, named) = prepare_lem o site a p config q set in
    elim (Option-cases (repeated site.user a st)) [
      | inr (i, seen) ↦
          let h2 : continue fuel o site a p st (some i) ≡ ok (st', n) = rw seen at h1 in
          rw (store_eq h2, name_eq h2, q, seen)
      | inl fresh ↦
          let (u, v, h2) = >>=-eq-ok (check_all (request_guard site o a)) _ (rw fresh at h1) in
          let (decided, r, h3) = >>=-eq-ok (decided_start o a p.config st) _ h2 in
          elim (finish-Repeats fuel o site a p st decided (rw same c) g h3) [
            | inl (i, d, e, name) ↦ rw (e, name, q, fresh, v, r, d)
            | inr (i, seen, name) ↦ rw (q, g, seen, name)
          ]
    ]
