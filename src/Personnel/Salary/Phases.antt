-- ===== src/Personnel/Salary/Phases.antt =====
-- The calls move an order through the phases of its life.
use frappe_erp_next.Prelude.{
  not-false, or_cases, String, Option, true, ◌≡◌, refl, sym, ap, ◌∙◌, ◌==◌, inl, inr, Bool-cases,
  ◌&&◌, &&-left, &&-right, subst,
}
use frappe_erp_next.Prelude.Int.{ℤ, pos}
use frappe_erp_next.Prelude.Result.{
  Result, ok, check_all, check_all-AllPass, >>=-eq-ok, >>-eq-ok, ok_eq, raise_if,
}
use frappe_erp_next.Python.{Fields, str, str_is, get, dict, get_or, int}
use frappe_erp_next.Python.{Value, end, has_key, ◌or◌}
use frappe_erp_next.Python.Lookup.{get-put, get-put_other, str_is_eq}
use frappe_erp_next.Personnel.Lifecycle
use frappe_erp_next.Personnel.Lifecycle.{Phase, label, Reaches, stay, move, join, from_phase}
use frappe_erp_next.Personnel.Order.{
  OrderError, OrderEntry, OrderInstance, OrderSite, member_of, mismatch, next_revision,
}
use frappe_erp_next.Personnel.Salary.{
  finalize, settled_values, settle_order, store_next, awaits, is_found, is_closing,
  on_instance_update,
}
use frappe_erp_next.Personnel.Salary.Review.{
  write_next, approve, approve_guards, reject, reject_guards, rejected_by,
}
use frappe_erp_next.Personnel.Salary.Apply.{
  Payroll, Assignment, apply, apply_now, apply_guards, applied_by, is_applied, effective_date,
  comparison_rows, proposed_pay,
}
use frappe_erp_next.Personnel.Salary.Edit.{
  Edited, caller_guards, edit_guards, status_labels, app_status_labels, label_or_key, save_order,
}
use frappe_erp_next.Personnel.Salary.Written.{
  store_next-kept, write_next-kept, status-finalize, status-rejected_by, status-applied_by,
}

-- The status that is stored is that of the phase.
abbrev pub InPhase : OrderEntry → Phase → Type 0
InPhase e p = get e.values "status" ≡ str (label p)

-- The order has got from a phase to one that its life leads to.
abbrev pub Moved : Phase → OrderEntry → Type 0
Moved p after = (q : Phase) × InPhase after q × Reaches p q

-- What the end of a workflow writes.
pub settle_order-write :
    (s : OrderSite) (i : OrderInstance) (e : OrderEntry) {after : OrderEntry}
    → settle_order s i e ≡ ok after
    → store_next e (settled_values s e i.status e.values) ≡ ok after
settle_order-write s i e h =
    let (_, _, rest) =
      >>=-eq-ok (member_of (get_or e.values "template_snapshot" (dict end)) "workflow") _ h in
    (>>-eq-ok (raise_if _ mismatch) (store_next e (settled_values s e i.status e.values)) rest).1

-- How the end of a workflow leaves the order.
pub settled_phase :
    (s : OrderSite) (e : OrderEntry) (status : String) (d : Fields)
    → (q : Phase) × (get (settled_values s e status d) "status" ≡ str (label q))
      × Lifecycle.Move Phase.pending q
settled_phase s e status d = elim (Bool-cases (status == "Completed")) [
  | inl c ↦ (Phase.final, rw c (status-finalize s e d), Lifecycle.issue)
  | inr n ↦ elim (Bool-cases (status == "Rejected")) [
    | inl r ↦ (Phase.rejected, rw (n, r) (simp (get-put, get-put_other)), Lifecycle.refuse)
    | inr m ↦ elim (Bool-cases (status == "Cancelled")) [
      | inl c ↦ (Phase.cancelled, rw (n, m, c) (simp (get-put, get-put_other)), Lifecycle.cancel)
      | inr k ↦ (Phase.failed, rw (n, m, k) (simp (get-put, get-put_other)), Lifecycle.fail)
    ]
  ]
]

-- What an application writes.
pub apply_now-write :
    (s : OrderSite) (y : Payroll) (op : String) (e : OrderEntry) {after : OrderEntry}
    {made : Option Assignment}
    → apply_now s y op e ≡ ok (after, made)
    → write_next e (applied_by s op e.values) ≡ ok after
apply_now-write s y op e h =
    let (date, _, h1) =
      >>=-eq-ok (effective_date (y.to_date (get e.values "effective_date" or str s.today))) _ h in
    let (rows, _, h2) =
      >>=-eq-ok (comparison_rows (get e.values "comparison_table" or dict end)) _ h1 in
    let (pay, _, h3) =
      >>=-eq-ok (proposed_pay rows (record { base = int (pos 0); variable = int (pos 0) })) _ h2 in
    let (next, w, h4) = >>=-eq-ok (write_next e (applied_by s op e.values)) _ h3 in
    w ∙ ap (λ x. ok x) (ap (λ x. x.0) (ok_eq h4))

get_or-get : (k : String) (v : Value) (m : Fields) → get m k ≡ v → get_or m k v ≡ v
get_or-get k v m h = elim (Bool-cases (has_key m k)) [ inl t ↦ rw t h | inr f ↦ rw f refl ]

module _ (e : OrderEntry) (p : Phase) (at : InPhase e p) where
  pub unmoved : Moved p e
  unmoved = (p, at, stay)

  -- What a test of the status says of the phase.
  pub leaves :
      (q : Phase) {r : Phase}
      → str_is (label q) (get e.values "status") ≡ true
      → Lifecycle.Move q r
      → Reaches p r
  leaves q h m = from_phase p q (ap (str_is (label q)) (sym at) ∙ h) (move m stay)

  module _ (s : OrderSite) where
    pub approve-Moved : (n : ℤ) {after : OrderEntry} → approve s n e ≡ ok after → Moved p after
    unfolding approve
    approve-Moved n h =
        let d = finalize s e e.values in
        let (passed, written) = >>-eq-ok (check_all (approve_guards s n e)) (write_next e d) h in
        let (_, (_, (_, (pending, _)))) = check_all-AllPass (approve_guards s n e) passed in
        (
          Phase.final,
          write_next-kept e d "status" refl written ∙ status-finalize s e e.values,
          leaves Phase.pending (not-false _ pending) Lifecycle.issue,
        )

    pub reject-Moved :
        (n : ℤ) (why : String) {after : OrderEntry} → reject s n why e ≡ ok after → Moved p after
    unfolding reject
    reject-Moved n why h =
        let d = rejected_by s why e.values in
        let (passed, written) = >>-eq-ok (check_all (reject_guards s n e)) (write_next e d) h in
        let (_, (_, (_, (open_now, _)))) = check_all-AllPass (reject_guards s n e) passed in
        (
          Phase.rejected,
          write_next-kept e d "status" refl written ∙ status-rejected_by s why e.values,
          elim (or_cases (str_is "draft" (get e.values "status")) _ (not-false _ open_now)) [
            | inl d ↦ leaves Phase.draft d Lifecycle.refuse_draft
            | inr w ↦ leaves Phase.pending w Lifecycle.refuse
          ],
        )

    pub store_next-Moved :
        (d : Fields) (q : Phase) {after : OrderEntry}
        → get d "status" ≡ str (label q)
        → Reaches p q
        → store_next e d ≡ ok after
        → Moved p after
    store_next-Moved d q is r h = (q, store_next-kept e d "status" refl h ∙ is, r)

    settle_order-Moved :
        (i : OrderInstance) {after : OrderEntry}
        → str_is "pending" (get e.values "status") ≡ true
        → settle_order s i e ≡ ok after
        → Moved p after
    settle_order-Moved i w h =
        let (q, is, m) = settled_phase s e i.status e.values in
        store_next-Moved (settled_values s e i.status e.values) q is (leaves Phase.pending w m)
          (settle_order-write s i e h)

    pub on_instance_update-Moved :
        (i : OrderInstance) {after : OrderEntry}
        → on_instance_update s i e ≡ ok after
        → Moved p after
    unfolding on_instance_update
    on_instance_update-Moved i {after} h =
        elim (Bool-cases (is_found i e && is_closing i.status && awaits i e.values)) [
          | inl t ↦
              settle_order-Moved i
                (&&-left _ _ (&&-right (is_found i e && is_closing i.status) _ t)) (rw t at h)
          | inr f ↦ subst (Moved p) (ok_eq (rw f at h)) unmoved
        ]

    pub apply-Moved :
        (y : Payroll) (op : String) {after : OrderEntry} {made : Option Assignment}
        → apply s y op e ≡ ok (after, made)
        → Moved p after
    unfolding apply
    apply-Moved y op h =
        let (_, rest) = >>-eq-ok (check_all (apply_guards s e)) _ h in
        elim (Bool-cases (is_applied op e.values)) [
          | inl t ↦ subst (Moved p) (ap (λ x. x.0) (ok_eq (rw t at rest))) unmoved
          | inr f ↦
              let written = apply_now-write s y op e (rw f at rest) in
              (
                p,
                write_next-kept e (applied_by s op e.values) "status" refl written
                    ∙ status-applied_by s op e.values
                    ∙ at,
                stay,
              )
        ]

    pub save_order-draft :
        (company : String) (edited : Result OrderError Edited) (n : ℤ) {after : OrderEntry}
        → save_order s company edited n e ≡ ok after
        → (str_is "draft" (get e.values "status") ≡ true)
          × (get after.values "status" ≡ get_or e.values "status" (str "draft"))
    unfolding save_order
    save_order-draft company edited n h =
        let (_, _, h1) = >>=-eq-ok (check_all (caller_guards s company)) _ h in
        let (d, _, h2) = >>=-eq-ok edited _ h1 in
        let (_, passed, h3) = >>=-eq-ok (check_all (edit_guards company n e)) _ h2 in
        let (r, _, h4) =
          >>=-eq-ok (next_revision (get_or e.values "revision" (int (pos 1)))) _ h3 in
        let (l, _, h5) =
          >>=-eq-ok (label_or_key s status_labels (get_or e.values "status" (str "draft"))) _ h4 in
        let (a, _, h6) =
          >>=-eq-ok
            (label_or_key s app_status_labels
              (get_or e.values "application_status" (str "not_applied")))
            _ h5 in
        let (_, (_, (_, (draft, _)))) = check_all-AllPass (edit_guards company n e) passed in
        (not-false _ draft, ap (λ (x : OrderEntry). get x.values "status") (sym (ok_eq h6)))

    pub save_order-Moved :
        (company : String) (edited : Result OrderError Edited) (n : ℤ) {after : OrderEntry}
        → save_order s company edited n e ≡ ok after
        → Moved p after
    save_order-Moved company edited n h =
        let (draft, same) = save_order-draft company edited n h in
        (
          Phase.draft,
          same ∙ get_or-get "status" (str "draft") e.values (str_is_eq "draft" _ draft),
          from_phase p Phase.draft (ap (str_is "draft") (sym at) ∙ draft) stay,
        )
