-- ===== src/Personnel/Salary/Sending.antt =====
-- Sending an order moves it to `pending`, and further where its workflow ends at once.
use frappe_erp_next.Prelude.{not-false, String, ◌≡◌, refl, ◌∙◌, inl, inr, Bool-cases}
use frappe_erp_next.Prelude.Int.{ℤ}
use frappe_erp_next.Prelude.Result.{Result, ok, err, check_all, check_all-AllPass, >>-eq-ok}
use frappe_erp_next.Python.{Value, Fields, str, truthy}
use frappe_erp_next.Personnel.Lifecycle
use frappe_erp_next.Personnel.Lifecycle.{Phase, label, Reaches, stay, join}
use frappe_erp_next.Personnel.Order.{
  OrderError, OrderEntry, OrderSite, Created, to_savepoint, is_locked,
}
use frappe_erp_next.Personnel.Salary.{
  on_instance_update, submit, submit_checked, send_ready, ready_to_send, send, sent, store, linked,
  start_request, outcome, draft_guards, is_replay, submit_guards,
}
use frappe_erp_next.Personnel.Salary.Review.{send_for_review, send_if, hr_guards}
use frappe_erp_next.Personnel.Salary.Written.{status-sent, status-linked}
use frappe_erp_next.Personnel.Salary.Phases.{
  InPhase, Moved, unmoved, leaves, on_instance_update-Moved,
}

-- A rollback leaves the order where it was.
to_savepoint-Moved :
    (p : Phase) (saved : OrderEntry) (out : OrderEntry × Result OrderError Fields)
    → Moved p saved
    → Moved p out.0
    → Moved p (to_savepoint saved out).0
to_savepoint-Moved p saved (now, ok d) a b = b
to_savepoint-Moved p saved (now, err e) a b = elim (Bool-cases (is_locked e)) [
  | inl l ↦ rw l b
  | inr n ↦ rw n a
]

outcome-Moved :
    (p : Phase) (before : OrderEntry) (r : Result OrderError OrderEntry)
    → Moved p before
    → ((after : OrderEntry) → r ≡ ok after → Moved p after)
    → Moved p (outcome before r).0
outcome-Moved p before (ok after) a b = b after refl
outcome-Moved p before (err e) a b = a

module _ (s : OrderSite) where
  start_request-Moved :
      (e : OrderEntry) (made : Result OrderError Created)
      → InPhase e Phase.pending
      → Moved Phase.pending (start_request s e made).0
  start_request-Moved e (err _) at = unmoved e Phase.pending at
  start_request-Moved e (ok c) at =
      let after = record e { reference_name = str c.request; values = linked c e.values } in
      let at' : InPhase after Phase.pending = status-linked c e.values ∙ at in
      outcome-Moved Phase.pending after (on_instance_update s c.instance after)
        (unmoved after Phase.pending at')
        (λ done h. on_instance_update-Moved after Phase.pending at' s c.instance h)

  send-Moved :
      (id : String) (workflow r : Value) (e : OrderEntry)
      → Moved Phase.pending (send s id workflow r e).0
  send-Moved id workflow r e =
      let pending = store e (sent s id r e.values) in
      let at : InPhase pending Phase.pending = status-sent s id r e.values in
      elim (Bool-cases (truthy workflow)) [
        | inl t ↦ rw t (start_request-Moved pending _ at)
        | inr f ↦ rw f (unmoved pending Phase.pending at)
      ]

  module _ (e : OrderEntry) (p : Phase) (at : InPhase e p) where
    send_ready-Moved :
        (n : ℤ) (id : String) (ready : Result OrderError (Value × Value))
        → ready_to_send s n e ≡ ready
        → Moved p (send_ready s id e ready).0
    send_ready-Moved n id (err _) h = unmoved e p at
    send_ready-Moved n id (ok (workflow, r)) h =
        let (passed, _) = >>-eq-ok (check_all (draft_guards e.values n)) _ h in
        let (_, (draft, _)) = check_all-AllPass (draft_guards e.values n) passed in
        let (q, is, rest) = send-Moved id workflow r e in
        to_savepoint-Moved p e (send s id workflow r e) (unmoved e p at)
          (q, is, join (leaves e p at Phase.draft (not-false _ draft) Lifecycle.send) rest)

    submit_checked-Moved :
        (n : ℤ) (id : String) (r : Result OrderError (Unit {0}))
        → Moved p (submit_checked s n id e r).0
    submit_checked-Moved n id (err _) = unmoved e p at
    submit_checked-Moved n id (ok u) = elim (Bool-cases (is_replay id e.values)) [
      | inl t ↦ rw t (unmoved e p at)
      | inr f ↦ rw f (send_ready-Moved n id (ready_to_send s n e) refl)
    ]

    send_if-Moved :
        (n : ℤ) (id : String) (r : Result OrderError (Unit {0})) → Moved p (send_if s n id e r).0
    unfolding submit
    send_if-Moved n id (err _) = unmoved e p at
    send_if-Moved n id (ok u) = submit_checked-Moved n id (check_all (submit_guards e id))

    pub send_for_review-Moved : (n : ℤ) (id : String) → Moved p (send_for_review s n id e).0
    send_for_review-Moved n id = send_if-Moved n id (check_all (hr_guards s e))
