-- ===== src/Personnel/Salary/Review.antt =====
-- asoud_erp/api/v1/salary_change_orders.py: sending, approving and rejecting an order.
use frappe_erp_next.Prelude.{String, Bool, not, ◌||◌, List, [], ◌∷◌}
use frappe_erp_next.Prelude.Int.{ℤ, pos}
use frappe_erp_next.Prelude.Result.{Result, ok, err, ◌>>=◌, ◌>>◌, check_all}
use frappe_erp_next.Python.{Fields, int, str, get, get_or, put, truthy, str_is}
use frappe_erp_next.Personnel.Order.{
  OrderError, stale, wrong_state, has_workflow, forbidden, OrderEntry, OrderSite, next_revision,
}
use frappe_erp_next.Personnel.Salary.{store, finalize, is_revision, submit}

abbrev pub hr_guards : OrderSite → OrderEntry → List (Bool × OrderError)
hr_guards site entry =
    (not (site.in_company entry.company), forbidden)
    ∷ (not (site.is_hr entry.company), forbidden)
    ∷ []

-- `send_salary_change_order_for_review(name, revision, request_id)`
abbrev pub send_if :
    OrderSite
    → ℤ
    → String
    → OrderEntry
    → Result OrderError (Unit {0})
    → OrderEntry × Result OrderError Fields
send_if site revision id entry (err e) = (entry, err e)
send_if site revision id entry (ok u) = submit site revision id entry

abbrev pub send_for_review :
    OrderSite → ℤ → String → OrderEntry → OrderEntry × Result OrderError Fields
send_for_review site revision id entry =
    send_if site revision id entry (check_all (hr_guards site entry))

-- `data["revision"] = data.get("revision", 1) + 1`, and the row is written.
abbrev pub write_next : OrderEntry → Fields → Result OrderError OrderEntry
write_next entry d = do
  r ← next_revision (get_or d "revision" (int (pos 1)))
  ok (store entry (put "revision" r d))

abbrev pub approve_guards : OrderSite → ℤ → OrderEntry → List (Bool × OrderError)
approve_guards site revision entry =
    (not (site.in_company entry.company), forbidden)
    ∷ (not (site.is_hr entry.company), forbidden)
    ∷ (not (is_revision entry.values revision), stale)
    ∷ (not (str_is "pending" (get entry.values "status")), wrong_state)
    ∷ (truthy (get entry.values "workflow_instance"), has_workflow)
    ∷ []

-- `approve_salary_change_order(name, revision, request_id)`
unfoldable pub approve : OrderSite → ℤ → OrderEntry → Result OrderError OrderEntry
approve site revision entry =
    check_all (approve_guards site revision entry)
    >> write_next entry (finalize site entry entry.values)

abbrev pub is_undecided : Fields → Bool
is_undecided d = str_is "draft" (get d "status") || str_is "pending" (get d "status")

abbrev pub reject_guards : OrderSite → ℤ → OrderEntry → List (Bool × OrderError)
reject_guards site revision entry =
    (not (site.in_company entry.company), forbidden)
    ∷ (not (site.is_hr entry.company), forbidden)
    ∷ (not (is_revision entry.values revision), stale)
    ∷ (not (is_undecided entry.values), wrong_state)
    ∷ []

abbrev pub rejected_by : OrderSite → String → Fields → Fields
rejected_by site reason d = put "rejected_on" (str site.now) (
    put "rejected_by" (str site.user) (
      put "rejection_reason" (str reason)
        (put "status_label" (site.label "refused") (put "status" (str "rejected") d))))

-- `reject_salary_change_order(name, revision, reason)`
unfoldable pub reject : OrderSite → ℤ → String → OrderEntry → Result OrderError OrderEntry
reject site revision reason entry =
    check_all (reject_guards site revision entry)
    >> write_next entry (rejected_by site reason entry.values)
