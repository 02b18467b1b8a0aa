-- ===== src/Personnel/Salary/Life.antt =====
-- Any sequence of calls takes an order through its life.
use frappe_erp_next.Prelude.{List, [], ◌∷◌, ◌≡◌, refl}
use frappe_erp_next.Prelude.Result.{Result, ok, err}
use frappe_erp_next.Prelude.{Option}
use frappe_erp_next.Personnel.Lifecycle.{Phase, join}
use frappe_erp_next.Personnel.Order.{OrderError, OrderEntry, OrderSite}
use frappe_erp_next.Personnel.Salary.{on_instance_update}
use frappe_erp_next.Personnel.Salary.Review.{approve, reject}
use frappe_erp_next.Personnel.Salary.Edit.{save_order}
use frappe_erp_next.Personnel.Salary.Apply.{apply, Assignment}
use frappe_erp_next.Personnel.Salary.Events.{
  Event, saved, send, instance_saved, approved, rejected, applied, step, run, kept, entry_of,
}
use frappe_erp_next.Personnel.Salary.Phases.{
  InPhase, Moved, unmoved, approve-Moved, reject-Moved, on_instance_update-Moved, apply-Moved,
  save_order-Moved,
}
use frappe_erp_next.Personnel.Salary.Sending.{send_for_review-Moved}

module _ (e : OrderEntry) (p : Phase) (at : InPhase e p) where
  kept-Moved :
      (r : Result OrderError OrderEntry)
      → ((after : OrderEntry) → r ≡ ok after → Moved p after)
      → Moved p (kept e r)
  kept-Moved (ok after) h = h after refl
  kept-Moved (err _) h = unmoved e p at

  entry_of-Moved :
      (r : Result OrderError (OrderEntry × Option Assignment))
      → ((after : OrderEntry) (made : Option Assignment) → r ≡ ok (after, made) → Moved p after)
      → Moved p (entry_of e r)
  entry_of-Moved (ok (after, made)) h = h after made refl
  entry_of-Moved (err _) h = unmoved e p at

  step-Moved : (s : OrderSite) (ev : Event) → Moved p (step s ev e)
  unfolding step
  step-Moved s (saved c d n) =
      kept-Moved (save_order s c d n e) (λ a h. save_order-Moved e p at s c d n h)
  step-Moved s (send n id) = send_for_review-Moved s e p at n id
  step-Moved s (instance_saved i) =
      kept-Moved (on_instance_update s i e) (λ a h. on_instance_update-Moved e p at s i h)
  step-Moved s (approved n) = kept-Moved (approve s n e) (λ a h. approve-Moved e p at s n h)
  step-Moved s (rejected n why) =
      kept-Moved (reject s n why e) (λ a h. reject-Moved e p at s n why h)
  step-Moved s (applied y op) =
      entry_of-Moved (apply s y op e) (λ a m h. apply-Moved e p at s y op h)

-- Whatever edits, sendings, approvals, rejections, applications and saved instances reach an order
-- that is stored in a phase of its life, in whatever sequence, accepted, refused or failing, it ends
-- in a phase that the moves of the life lead to from there.
pub run-Moved :
    (events : List (OrderSite × Event)) (e : OrderEntry) (p : Phase)
    → InPhase e p
    → Moved p (run events e)
unfolding run
run-Moved [] e p at = unmoved e p at
run-Moved ((s, ev) ∷ rest) e p at =
    let (q, at', first) = step-Moved e p at s ev in
    let (r, at'', more) = run-Moved rest (step s ev e) q at' in (r, at'', join first more)
