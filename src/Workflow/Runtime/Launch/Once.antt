-- ===== src/Workflow/Runtime/Launch/Once.antt =====
-- No record has two running instances of one design: `start_workflow_instance` of
-- asoud_erp/api/v1/workflow_runtime.py finds the one that runs.
use frappe_erp_next.Prelude.{
  ℕ, ◌≤◌, String, ◌≡◌, refl, sym, ap, ◌∙◌, subst, ◌⊎◌, inl, inr, Bool, true, false, not, ◌&&◌, ◌||◌,
  Option, none, some, ◌==◌, eq_iff, arith, find, select, length, Bool-cases, Option-cases, &&-right,
  length-select_absent, find_test, find_weaken,
}
use frappe_erp_next.Prelude.Result.{Result, ok, err, ◌>>=◌, check_all, >>=-eq-ok}
use frappe_erp_next.Python.{Fields}
use frappe_erp_next.Workflow.Start.{
  StartError, StartMode, reuse, new, start_decision, start_decision-new,
}
use frappe_erp_next.Workflow.Runtime.State.{InstanceStatus, Site}
use frappe_erp_next.Workflow.Runtime.Launch.{
  Instance, Store, LaunchError, Args, Office, is_entry, is_request, is_given, start_row,
  start_config_of, lift_start, is_configured, is_restarting, manager_restart,
}
use frappe_erp_next.Workflow.Runtime.Launch.Made.{Made, store_eq, finish_cases, absent, prepare_lem}
use frappe_erp_next.Workflow.Runtime.Launch.Existing.{
  same_text, refers_to, is_running, runs, status_name, of_design, existing_of, status_text,
  decided_start, request_guard, repeated,
}
use frappe_erp_next.Workflow.Runtime.Launch.Create.{
  Prepared, prepare, finish, start_workflow_instance,
}

-- A running instance of the design for the record.
abbrev pub runs_for : String → Option String → Option String → Instance → Bool
runs_for definition doctype name i =
    ((i.workflow_definition == definition) && refers_to doctype name i) && is_running i

abbrev pub running_for : String → String → String → Store → ℕ
running_for definition doctype name st =
    length (select (runs_for definition (some doctype) (some name)) st.instances)

-- At most one instance of a design runs for a record.
abbrev pub OneRunning : Store → Type 0
OneRunning st = (definition doctype name : String) → running_for definition doctype name st ≤ 1

-- A start that looks for an instance of its record, or has no record.
abbrev pub looks_up : Args → Fields → Bool
looks_up a config =
    is_configured config || is_entry a || is_request a || not (is_given a.reference_name)

abbrev Idle : Args → Store → Type 0
Idle a st = find (λ i. of_design a i && is_running i) st.instances ≡ none

impossible : true ≡ false → ⊥
impossible h = cc

running_text : (s : InstanceStatus) → runs s ≡ true → status_name s ≡ "Running"
running_text InstanceStatus.running h = refl
running_text InstanceStatus.completed h = cc
running_text InstanceStatus.rejected h = cc
running_text InstanceStatus.cancelled h = cc
running_text InstanceStatus.failed h = cc

module _ (fuel : ℕ) (o : Office) (site : Site) (a : Args) where
  -- A running instance of the design is reused.
  running_reused :
      (p : Prepared) (st : Store) (j : Instance) {st' : Store} {n : ℕ}
      → is_running j ≡ true
      → (mode : StartMode)
      → start_decision p.config
          (status_text (some j))
          (is_restarting a)
          (manager_restart o)
          a.reason
        ≡ ok mode
      → finish fuel o site a p st (mode, some j) ≡ ok (st', n)
      → st' ≡ st
  running_reused p st j run reuse d h = store_eq h
  running_reused p st j run new d h =
      let text = running_text j.rows.status run in
      absurd (
        impossible
          (start_decision-new p.config "Running" (is_restarting a) (manager_restart o) a.reason refl
            (rw text at d)).0)

  configured_cases :
      (p : Prepared) (st : Store) {st' : Store} {n : ℕ}
      → is_given a.reference_name ≡ true
      → (lift_start (
            start_decision p.config
              (status_text (existing_of a st))
              (is_restarting a)
              (manager_restart o)
              a.reason)
          >>= (λ mode. ok (mode, existing_of a st))
          >>= finish fuel o site a p st)
        ≡ ok (st', n)
      → (st' ≡ st) ⊎ (Idle a st × Made a st st')
  configured_cases p st {st'} {n} given h =
      elim (Option-cases (find (λ i. of_design a i && is_running i) st.instances)) [
        | inl idle ↦
            let (decided, q, h1) =
              >>=-eq-ok
                (lift_start (
                    start_decision p.config (status_text (existing_of a st)) (is_restarting a)
                      (manager_restart o) a.reason)
                  >>= λ mode. ok (mode, existing_of a st))
                _ h in
            elim (finish_cases fuel o site a p st decided h1) [
              | inl e ↦ inl e
              | inr m ↦ inr (idle, m)
            ]
        | inr (j, found) ↦
            let test = find_test (λ i. of_design a i && is_running i) st.instances found in
            let (decided, q0, h1) =
              >>=-eq-ok
                (lift_start (
                    start_decision p.config (status_text (some j)) (is_restarting a)
                      (manager_restart o) a.reason)
                  >>= λ mode. ok (mode, some j))
                _ (rw (given, found) at h) in
            let (mode, q, r) =
              >>=-eq-ok
                (lift_start (
                  start_decision p.config (status_text (some j)) (is_restarting a)
                    (manager_restart o) a.reason))
                _ q0 in
            inl (
              running_reused p st j (&&-right _ _ test) mode (lifted _ q) (
                subst
                  (λ (d : StartMode × Option Instance). finish fuel o site a p st d ≡ ok (st', n))
                  (pair_eq r) h1))
      ]
    where
      pair_eq :
          {x y : StartMode × Option Instance}
          → ◌≡◌ {A = Result LaunchError (StartMode × Option Instance)} (ok x) (ok y)
          → y ≡ x
      pair_eq q = cc

      lifted : (r : Result StartError StartMode) {m : StartMode} → lift_start r ≡ ok m → r ≡ ok m
      lifted (ok m) h = cc
      lifted (err e) h = cc

  -- Where an instance is made, none of the design runs for the record.
  decided-Idle :
      (p : Prepared) (st : Store) {st' : Store} {n : ℕ}
      → looks_up a p.config ≡ true
      → is_given a.reference_name ≡ true
      → (decided_start o a p.config st >>= finish fuel o site a p st) ≡ ok (st', n)
      → (st' ≡ st) ⊎ (Idle a st × Made a st st')
  decided-Idle p st looks given h = elim (Bool-cases (is_configured p.config)) [
    | inl c ↦ configured_cases p st given (rw c at h)
    | inr c ↦
        elim (Option-cases (find (refers_to a.reference_doctype a.reference_name) st.instances)) [
          | inl none_found ↦
              let kinds : (is_entry a || (is_request a && is_given a.reference_name)) ≡ true =
                ground arith in
              elim (finish_cases fuel o site a p st (new, none) (rw (c, kinds, none_found) at h)) [
                | inl e ↦ inl e
                | inr m ↦ inr (
                  find_weaken (refers_to a.reference_doctype a.reference_name)
                      (λ i. of_design a i && is_running i) st.instances (λ i t. ground arith)
                      none_found,
                  m,
                )
              ]
          | inr (i, found) ↦
              let kinds : (is_entry a || (is_request a && is_given a.reference_name)) ≡ true =
                ground arith in
              inl (store_eq (rw (c, kinds, found) at h))
        ]
  ]

-- What the call leaves, where the reference names a record.
same_text_eq : (a b : Option String) → same_text a b ≡ true → a ≡ b
same_text_eq none none h = refl
same_text_eq none (some b) h = cc
same_text_eq (some a) none h = cc
same_text_eq (some a) (some b) h = ap some ((eq_iff a b).0 h)

module _ (a : Args) (st st' : Store) (m : Made a st st') where
  added_name :
      (d t n : String) → runs_for d (some t) (some n) m.added ≡ true → a.reference_name ≡ some n
  added_name d t n h = sym m.name_is ∙ same_text_eq m.added.reference_name (some n) (ground arith)

  -- An added instance of the record's key is the only one that runs.
  Made-running_for :
      (d t n : String) → Idle a st → running_for d t n st ≤ 1 → running_for d t n st' ≤ 1
  Made-running_for d t n idle before = elim (Bool-cases (runs_for d (some t) (some n) m.added)) [
    | inr e ↦ rw (m.rows_are, e) before
    | inl e ↦
        let def : a.definition ≡ d =
          sym m.definition_is ∙ (eq_iff m.added.workflow_definition d).0 (ground arith) in
        let doc : a.reference_doctype ≡ some t =
          sym m.doctype_is ∙ same_text_eq m.added.reference_doctype (some t) (ground arith) in
        let nam : a.reference_name ≡ some n = added_name d t n e in
        let zero_before : running_for d t n st ≡ 0 =
          rw (← def, ← doc, ← nam)
            (length-select_absent (λ i. of_design a i && is_running i) st.instances idle) in
        rw (m.rows_are, e) (omega (arith, zero_before))
  ]

  -- Nor does it matter for the others, if the start has no record.
  Made-unnamed :
      (d t n : String)
      → a.reference_name ≡ none
      → running_for d t n st ≤ 1
      → running_for d t n st' ≤ 1
  Made-unnamed d t n absent before = elim (Bool-cases (runs_for d (some t) (some n) m.added)) [
    | inr e ↦ rw (m.rows_are, e) before
    | inl e ↦ absurd (no (sym absent ∙ added_name d t n e))
  ]
    where
      no : ◌≡◌ {A = Option String} none (some n) → ⊥
      no q = cc

-- A start keeps at most one running instance of a design for a record: one with settings, one by a
-- form entry or a request, and one without a record.
pub start_workflow_instance-OneRunning :
    (fuel : ℕ) (o : Office) (site : Site) (st : Store) (a : Args) (config : Fields) {st' : Store}
    {n : ℕ}
    → start_config_of (start_row site.stages) ≡ ok config
    → looks_up a config ≡ true
    → OneRunning st
    → start_workflow_instance fuel o site st a ≡ ok (st', n)
    → OneRunning st'
unfolding start_workflow_instance
start_workflow_instance-OneRunning fuel o site st a config {st'} {n} set looks one h =
    let (p, q, h1) = >>=-eq-ok (prepare o site a) _ h in
    let (same, named) = prepare_lem o site a p config q set in
    elim (Option-cases (repeated site.user a st)) [
      | inr (i, found) ↦ subst OneRunning (sym (store_eq (rw found at h1))) one
      | inl new_one ↦
          let (u, g, h2) = >>=-eq-ok (check_all (request_guard site o a)) _ (rw new_one at h1) in
          elim (Bool-cases (is_given a.reference_name)) [
            | inl given ↦ elim (decided-Idle fuel o site a p st (rw same looks) given h2) [
              | inl e ↦ subst OneRunning (sym e) one
              | inr (idle, m) ↦ λ d t k. Made-running_for a st st' m d t k idle (one d t k)
            ]
            | inr missing ↦
                let (decided, r, h3) = >>=-eq-ok (decided_start o a p.config st) _ h2 in
                elim (finish_cases fuel o site a p st decided h3) [
                  | inl e ↦ subst OneRunning (sym e) one
                  | inr m ↦ λ d t k.
                      Made-unnamed a st st' m d t k (absent a.reference_name missing named)
                        (one d t k)
                ]
          ]
    ]
