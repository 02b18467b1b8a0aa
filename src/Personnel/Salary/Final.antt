-- ===== src/Personnel/Salary/Final.antt =====
-- A final order keeps its number: the calls that a final order accepts write other keys.
use frappe_erp_next.Prelude.{
  not-false, or_cases, String, Option, true, ◌≡◌, refl, sym, ap, ◌∙◌, inl, inr, Bool-cases, List,
  [], ◌∷◌, ◌&&◌, &&-left, &&-right,
}
use frappe_erp_next.Prelude.Int.{ℤ}
use frappe_erp_next.Prelude.Result.{Result, ok, err, check_all, check_all-AllPass, >>-eq-ok, ok_eq}
use frappe_erp_next.Python.{Value, str, str_is, get}
use frappe_erp_next.Personnel.Lifecycle.{Phase, label, final_stays}
use frappe_erp_next.Personnel.Order.{OrderError, OrderEntry, OrderInstance, OrderSite}
use frappe_erp_next.Personnel.Salary.{
  on_instance_update, submit, submit_checked, send_ready, ready_to_send, draft_guards, is_replay,
  submit_guards, is_found, is_closing, awaits, finalize,
}
use frappe_erp_next.Personnel.Salary.Review.{
  send_if, hr_guards, approve, approve_guards, reject, reject_guards, write_next, rejected_by,
}
use frappe_erp_next.Personnel.Salary.Edit.{save_order}
use frappe_erp_next.Personnel.Salary.Apply.{
  Assignment, Payroll, apply, apply_guards, is_applied, applied_by,
}
use frappe_erp_next.Personnel.Salary.Written.{write_next-kept, number-applied_by}
use frappe_erp_next.Personnel.Salary.Events.{
  Event, saved, send, instance_saved, approved, rejected, applied, step, run, kept, entry_of,
}
use frappe_erp_next.Personnel.Salary.Phases.{InPhase, apply_now-write, save_order-draft}
use frappe_erp_next.Personnel.Salary.Life.{run-Moved}

abbrev pub number_of : OrderEntry → Value
number_of e = get e.values "number"

module _ (e : OrderEntry) (at : InPhase e Phase.final) where
  -- The status of a final order passes no test for another phase.
  is_not : (t : String) → str_is t (get e.values "status") ≡ true → str_is t (str "final") ≡ true
  is_not t h = ap (str_is t) (sym at) ∙ h

  module _ (s : OrderSite) where
    send_ready-final :
        (n : ℤ) (id : String) (ready : Result OrderError (Value × Value))
        → ready_to_send s n e ≡ ready
        → (send_ready s id e ready).0 ≡ e
    send_ready-final n id (err _) h = refl
    send_ready-final n id (ok r) h =
        let (passed, _) = >>-eq-ok (check_all (draft_guards e.values n)) _ h in
        let (_, (draft, _)) = check_all-AllPass (draft_guards e.values n) passed in
        cc (is_not "draft" (not-false _ draft))

    submit_checked-final :
        (n : ℤ) (id : String) (r : Result OrderError (Unit {0})) → (submit_checked s n id e r).0 ≡ e
    submit_checked-final n id (err _) = refl
    submit_checked-final n id (ok u) = elim (Bool-cases (is_replay id e.values)) [
      | inl t ↦ rw t refl
      | inr f ↦ rw f (send_ready-final n id (ready_to_send s n e) refl)
    ]

    send_if-final :
        (n : ℤ) (id : String) (r : Result OrderError (Unit {0})) → (send_if s n id e r).0 ≡ e
    unfolding submit
    send_if-final n id (err _) = refl
    send_if-final n id (ok u) = submit_checked-final n id (check_all (submit_guards e id))

    kept-final :
        (r : Result OrderError OrderEntry)
        → ((after : OrderEntry) → r ≡ ok after → number_of after ≡ number_of e)
        → number_of (kept e r) ≡ number_of e
    kept-final (ok after) h = h after refl
    kept-final (err _) h = refl

    approve-final :
        (n : ℤ) (after : OrderEntry) → approve s n e ≡ ok after → number_of after ≡ number_of e
    unfolding approve
    approve-final n after h =
        let (passed, _) =
          >>-eq-ok (check_all (approve_guards s n e)) (write_next e (finalize s e e.values)) h in
        let (_, (_, (_, (pending, _)))) = check_all-AllPass (approve_guards s n e) passed in
        cc (is_not "pending" (not-false _ pending))

    reject-final :
        (n : ℤ) (why : String) (after : OrderEntry)
        → reject s n why e ≡ ok after
        → number_of after ≡ number_of e
    unfolding reject
    reject-final n why after h =
        let (passed, _) =
          >>-eq-ok (check_all (reject_guards s n e)) (write_next e (rejected_by s why e.values))
            h in
        let (_, (_, (_, (open_now, _)))) = check_all-AllPass (reject_guards s n e) passed in
        elim (or_cases (str_is "draft" (get e.values "status")) _ (not-false _ open_now)) [
          | inl d ↦ cc (is_not "draft" d)
          | inr w ↦ cc (is_not "pending" w)
        ]

    update-final :
        (i : OrderInstance) (after : OrderEntry)
        → on_instance_update s i e ≡ ok after
        → number_of after ≡ number_of e
    unfolding on_instance_update
    update-final i after h =
        elim (Bool-cases (is_found i e && is_closing i.status && awaits i e.values)) [
          | inl t ↦
              cc (
                is_not "pending" (&&-left _ _ (&&-right (is_found i e && is_closing i.status) _ t)))
          | inr f ↦ ap number_of (sym (ok_eq (rw f at h)))
        ]

    apply-final :
        (y : Payroll) (op : String) {after : OrderEntry} {made : Option Assignment}
        → apply s y op e ≡ ok (after, made)
        → number_of after ≡ number_of e
    unfolding apply
    apply-final y op h =
        let (_, rest) = >>-eq-ok (check_all (apply_guards s e)) _ h in
        elim (Bool-cases (is_applied op e.values)) [
          | inl t ↦ ap (λ x. number_of x.0) (sym (ok_eq (rw t at rest)))
          | inr f ↦
              write_next-kept e (applied_by s op e.values) "number" refl
                (apply_now-write s y op e (rw f at rest))
              ∙ number-applied_by s op e.values
        ]

    entry_of-final :
        (r : Result OrderError (OrderEntry × Option Assignment))
        → ((after : OrderEntry) (made : Option Assignment)
            → r ≡ ok (after, made)
            → number_of after ≡ number_of e)
        → number_of (entry_of e r) ≡ number_of e
    entry_of-final (ok (after, made)) h = h after made refl
    entry_of-final (err _) h = refl

    step-final : (ev : Event) → number_of (step s ev e) ≡ number_of e
    unfolding step
    step-final (saved c d n) =
        kept-final (save_order s c d n e)
          (λ a h. cc (is_not "draft" (save_order-draft e Phase.final at s c d n h).0))
    step-final (send n id) = ap number_of (send_if-final n id (check_all (hr_guards s e)))
    step-final (instance_saved i) = kept-final (on_instance_update s i e) (update-final i)
    step-final (approved n) = kept-final (approve s n e) (approve-final n)
    step-final (rejected n why) = kept-final (reject s n why e) (reject-final n why)
    step-final (applied y op) = entry_of-final (apply s y op e) (λ a m h. apply-final y op h)

-- A final order stays final under one more call.
step-InPhase :
    (s : OrderSite) (ev : Event) (e : OrderEntry)
    → InPhase e Phase.final
    → InPhase (step s ev e) Phase.final
unfolding run
step-InPhase s ev e at =
    let (q, at', reached) = run-Moved ((s, ev) ∷ []) e Phase.final at in
    at' ∙ ap (λ p. str (label p)) (final_stays reached)

-- Whatever edits, sendings, approvals, rejections, applications and saved instances follow, a final
-- order stays final and keeps its number.
pub run-final :
    (events : List (OrderSite × Event)) (e : OrderEntry)
    → InPhase e Phase.final
    → InPhase (run events e) Phase.final × (number_of (run events e) ≡ number_of e)
unfolding run
run-final [] e at = (at, refl)
run-final ((s, ev) ∷ rest) e at =
    let (at', same) = run-final rest (step s ev e) (step-InPhase s ev e at) in
    (at', same ∙ step-final e at s ev)
