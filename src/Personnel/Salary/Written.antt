-- ===== src/Personnel/Salary/Written.antt =====
-- What the writes of an order leave under the keys that its life depends on.
use frappe_erp_next.Prelude.{String, false, ◌≡◌, ◌==◌, subst}
use frappe_erp_next.Prelude.Result.{Result, ok, >>=-eq-ok, ok_eq}
use frappe_erp_next.Python.{Value, Fields, int, str, get, get_or, put}
use frappe_erp_next.Prelude.Int.{pos}
use frappe_erp_next.Python.Lookup.{get-put, get-put_other}
use frappe_erp_next.Personnel.Order.{OrderError, OrderSite, OrderEntry, Created, next_revision}
use frappe_erp_next.Personnel.Salary.{finalize, sent, linked, store_next, store}
use frappe_erp_next.Personnel.Salary.Review.{rejected_by, write_next}
use frappe_erp_next.Personnel.Salary.Apply.{applied_by}

module _ (s : OrderSite) where
  pub status-finalize : (e : OrderEntry) (d : Fields) → get (finalize s e d) "status" ≡ str "final"
  status-finalize e d = simp (get-put, get-put_other)

  pub number-finalize : (e : OrderEntry) (d : Fields) → get (finalize s e d) "number" ≡ str s.number
  number-finalize e d = simp (get-put, get-put_other)

  pub status-sent :
      (id : String) (r : Value) (d : Fields) → get (sent s id r d) "status" ≡ str "pending"
  status-sent id r d = simp (get-put, get-put_other)

  pub status-rejected_by :
      (why : String) (d : Fields) → get (rejected_by s why d) "status" ≡ str "rejected"
  status-rejected_by why d = simp (get-put, get-put_other)

  pub status-applied_by :
      (op : String) (d : Fields) → get (applied_by s op d) "status" ≡ get d "status"
  status-applied_by op d = simp (get-put, get-put_other)

  pub number-applied_by :
      (op : String) (d : Fields) → get (applied_by s op d) "number" ≡ get d "number"
  number-applied_by op d = simp (get-put, get-put_other)

pub status-linked : (c : Created) (d : Fields) → get (linked c d) "status" ≡ get d "status"
status-linked c d = simp (get-put, get-put_other)

-- Both ways to write the next revision keep every other key.
module _ (e : OrderEntry) (d : Fields) {after : OrderEntry} (k : String)
    (h : ("revision" == k) ≡ false) where
  stored :
      (r : Value)
      → ◌≡◌ {A = Result OrderError OrderEntry} (ok (store e (put "revision" r d))) (ok after)
      → get after.values k ≡ get d k
  stored r p = subst (λ x. get x.values k ≡ get d k) (ok_eq p) (get-put_other k "revision" r d h)

  pub store_next-kept : store_next e d ≡ ok after → get after.values k ≡ get d k
  store_next-kept p =
      let (r, _, q) =
        >>=-eq-ok (next_revision (get d "revision")) (λ r. ok (store e (put "revision" r d))) p in
      stored r q

  pub write_next-kept : write_next e d ≡ ok after → get after.values k ≡ get d k
  write_next-kept p =
      let (r, _, q) =
        >>=-eq-ok (next_revision (get_or d "revision" (int (pos 1))))
          (λ r. ok (store e (put "revision" r d))) p in
      stored r q
