-- ===== src/Personnel/Salary/Repeat.antt =====
-- Calls that come again: a saved instance, a submission, a decision on an old revision.
use frappe_erp_next.Prelude.{
  and_absorbs, String, false, ◌≡◌, refl, ap, ◌∙◌, inl, inr, Bool-cases, ◌&&◌, subst,
}
use frappe_erp_next.Prelude.Int.{ℤ}
use frappe_erp_next.Prelude.Result.{Result, ok, err, check_all, ok_eq}
use frappe_erp_next.Python.{Value, Fields, str, str_is}
use frappe_erp_next.Personnel.Lifecycle
use frappe_erp_next.Personnel.Lifecycle.{Phase, label, Move}
use frappe_erp_next.Personnel.Order.{
  OrderError, OrderEntry, OrderInstance, OrderSite, to_savepoint, is_locked,
}
use frappe_erp_next.Personnel.Salary
use frappe_erp_next.Personnel.Salary.{
  on_instance_update, submit, submit_checked, send_ready, ready_to_send, draft_guards, is_replay,
  submit_guards, is_found, is_closing, awaits, settle_order, settled_values, store_next, finalize,
}
use frappe_erp_next.Personnel.Salary.Review.{send_for_review, send_if, hr_guards}
use frappe_erp_next.Personnel.Salary.Written.{store_next-kept}
use frappe_erp_next.Personnel.Salary.Phases.{settled_phase, settle_order-write}

err_eq : {A : Type 0} {a b : OrderError} → ◌≡◌ {A = Result OrderError A} (err a) (err b) → a ≡ b
err_eq h = cc

-- The end of a workflow is no test for a pending order.
not_pending : {q : Phase} → Move Phase.pending q → str_is "pending" (str (label q)) ≡ false
not_pending Lifecycle.issue = refl
not_pending Lifecycle.refuse = refl
not_pending Lifecycle.cancel = refl
not_pending Lifecycle.fail = refl

settle_order-awaits :
    (s : OrderSite) (i : OrderInstance) (e : OrderEntry) {after : OrderEntry}
    → settle_order s i e ≡ ok after
    → awaits i after.values ≡ false
settle_order-awaits s i e {after} h =
    let (q, is, m) = settled_phase s e i.status e.values in
    let stored =
      store_next-kept e (settled_values s e i.status e.values) "status" refl
        (settle_order-write s i e h)
      ∙ is in
    rw (stored, not_pending m) refl

-- An instance that is saved again changes the order no more.
pub on_instance_update-again :
    (s s' : OrderSite) (i : OrderInstance) (e : OrderEntry) {after : OrderEntry}
    → on_instance_update s i e ≡ ok after
    → on_instance_update s' i after ≡ ok after
unfolding on_instance_update
on_instance_update-again s s' i e {after} h =
    elim (Bool-cases (is_found i e && is_closing i.status && awaits i e.values)) [
      | inl t ↦
          rw
            (
              settle_order-awaits s i e (rw t at h),
              and_absorbs (is_found i after && is_closing i.status),
            )
            refl
      | inr f ↦ subst (λ x. on_instance_update s' i x ≡ ok x) (ok_eq (rw f at h)) (rw f refl)
    ]

-- What fails is rolled back, but for a deadlock or a timeout.
to_savepoint-failed :
    (saved : OrderEntry) (out : OrderEntry × Result OrderError Fields) (x : OrderError)
    → (to_savepoint saved out).1 ≡ err x
    → is_locked x ≡ false
    → (to_savepoint saved out).0 ≡ saved
to_savepoint-failed saved (now, ok d) x h n = cc
to_savepoint-failed saved (now, err y) x h n = rw (ap is_locked (err_eq h) ∙ n) refl

module _ (s : OrderSite) (n : ℤ) (id : String) (e : OrderEntry) (x : OrderError)
    (l : is_locked x ≡ false) where
  send_ready-failed :
      (ready : Result OrderError (Value × Value))
      → (send_ready s id e ready).1 ≡ err x
      → (send_ready s id e ready).0 ≡ e
  send_ready-failed (err _) h = refl
  send_ready-failed (ok (workflow, r)) h =
      to_savepoint-failed e (Salary.send s id workflow r e) x h l

  submit_checked-failed :
      (r : Result OrderError (Unit {0}))
      → (submit_checked s n id e r).1 ≡ err x
      → (submit_checked s n id e r).0 ≡ e
  submit_checked-failed (err _) h = refl
  submit_checked-failed (ok u) h = elim (Bool-cases (is_replay id e.values)) [
    | inl t ↦ rw t refl
    | inr f ↦ rw f (send_ready-failed (ready_to_send s n e) (rw f at h))
  ]

  send_if-failed :
      (r : Result OrderError (Unit {0}))
      → (send_if s n id e r).1 ≡ err x
      → (send_if s n id e r).0 ≡ e
  unfolding submit
  send_if-failed (err _) h = refl
  send_if-failed (ok u) h = submit_checked-failed (check_all (submit_guards e id)) h

-- A sending that is refused or that fails leaves the stored order as it was, but for a deadlock or
-- a timeout of the database.
pub send_for_review-failed :
    (s : OrderSite) (n : ℤ) (id : String) (e : OrderEntry) (x : OrderError)
    → (send_for_review s n id e).1 ≡ err x
    → is_locked x ≡ false
    → (send_for_review s n id e).0 ≡ e
send_for_review-failed s n id e x h l = send_if-failed s n id e x l (check_all (hr_guards s e)) h
