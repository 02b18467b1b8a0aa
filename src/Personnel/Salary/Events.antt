-- ===== src/Personnel/Salary/Events.antt =====
-- The calls that reach a stored order, in any sequence: a call that is refused leaves what
-- asoud_erp/services/salary_change_order_workflow.py and asoud_erp/api/v1/salary_change_orders.py
-- leave in the row then.
use frappe_erp_next.Prelude.{String, Option, List, [], ◌∷◌}
use frappe_erp_next.Prelude.Int.{ℤ}
use frappe_erp_next.Prelude.Result.{Result, ok, err}
use frappe_erp_next.Personnel.Order.{OrderError, OrderEntry, OrderInstance, OrderSite}
use frappe_erp_next.Personnel.Salary.{on_instance_update}
use frappe_erp_next.Personnel.Salary.Review.{send_for_review, approve, reject}
use frappe_erp_next.Personnel.Salary.Edit.{Edited, save_order}
use frappe_erp_next.Personnel.Salary.Apply.{Payroll, Assignment, apply}

pub data Event : Type 0 where
  saved : String → Result OrderError Edited → ℤ → Event
  send : ℤ → String → Event
  instance_saved : OrderInstance → Event
  approved : ℤ → Event
  rejected : ℤ → String → Event
  applied : Payroll → String → Event

abbrev pub kept : OrderEntry → Result OrderError OrderEntry → OrderEntry
kept before (ok after) = after
kept before (err e) = before

abbrev pub entry_of : OrderEntry → Result OrderError (OrderEntry × Option Assignment) → OrderEntry
entry_of before (ok (after, made)) = after
entry_of before (err e) = before

unfoldable pub step : OrderSite → Event → OrderEntry → OrderEntry
step site (saved company edited revision) entry =
    kept entry (save_order site company edited revision entry)
step site (send revision id) entry = (send_for_review site revision id entry).0
step site (instance_saved i) entry = kept entry (on_instance_update site i entry)
step site (approved revision) entry = kept entry (approve site revision entry)
step site (rejected revision reason) entry = kept entry (reject site revision reason entry)
step site (applied payroll operation) entry = entry_of entry (apply site payroll operation entry)

unfoldable pub run : List (OrderSite × Event) → OrderEntry → OrderEntry
run [] entry = entry
run ((site, e) ∷ rest) entry = run rest (step site e entry)
