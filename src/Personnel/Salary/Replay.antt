-- ===== src/Personnel/Salary/Replay.antt =====
-- A submission that comes again with its identifier returns the stored order.
use frappe_erp_next.Prelude.{
  String, Bool, true, not, ◌≡◌, refl, sym, ap, ◌∙◌, inl, inr, Bool-cases, List, [], ◌∷◌, ◌&&◌, ◌==◌,
  subst, eq_refl,
}
use frappe_erp_next.Prelude.Int.{ℤ}
use frappe_erp_next.Prelude.Result.{Result, ok, err, check_all, >>=-eq-ok, ok_eq}
use frappe_erp_next.Python.{Value, Fields, str, str_is, get, truthy, put}
use frappe_erp_next.Python.Lookup.{str_is_eq, get-put, get-put_other}
use frappe_erp_next.Personnel.Order.{
  OrderError, OrderEntry, OrderInstance, OrderSite, Created, to_savepoint, next_revision, not_found,
  bad_request_id,
}
use frappe_erp_next.Personnel.Salary
use frappe_erp_next.Personnel.Salary.{
  on_instance_update, submit, submit_checked, send_ready, ready_to_send, is_replay, submit_guards,
  order_kind, is_send_id, is_found, is_closing, awaits, settle_order, settled_values, store_next,
  finalize, sent, linked, store, start_request, outcome,
}
use frappe_erp_next.Personnel.Salary.Written.{store_next-kept}
use frappe_erp_next.Personnel.Salary.Phases.{settle_order-write}

-- The order carries the identifier of its submission, and is still of its kind.
abbrev Sent : String → OrderEntry → OrderEntry → Type 0
Sent id before e =
    (get e.values "send_request_id" ≡ str id) × (e.reference_doctype ≡ before.reference_doctype)

store_next-kind :
    (e : OrderEntry) (d : Fields) {after : OrderEntry}
    → store_next e d ≡ ok after
    → after.reference_doctype ≡ e.reference_doctype
store_next-kind e d h =
    let (r, _, q) =
      >>=-eq-ok (next_revision (get d "revision")) (λ r. ok (store e (put "revision" r d))) h in
    ap (λ x. x.reference_doctype) (sym (ok_eq q))

settled_values-id :
    (s : OrderSite) (e : OrderEntry) (status : String) (d : Fields)
    → get (settled_values s e status d) "send_request_id" ≡ get d "send_request_id"
settled_values-id s e status d = elim (Bool-cases (status == "Completed")) [
  | inl c ↦ rw c (simp get-put_other)
  | inr n ↦ elim (Bool-cases (status == "Rejected")) [
    | inl c ↦ rw (n, c) (simp get-put_other)
    | inr m ↦ elim (Bool-cases (status == "Cancelled")) [
      | inl c ↦ rw (n, m, c) (simp get-put_other)
      | inr k ↦ rw (n, m, k) (simp get-put_other)
    ]
  ]
]

update-Sent :
    (s : OrderSite) (i : OrderInstance) (id : String) (b e : OrderEntry) {after : OrderEntry}
    → Sent id b e
    → on_instance_update s i e ≡ ok after
    → Sent id b after
unfolding on_instance_update
update-Sent s i id b e (key, kind) h =
    elim (Bool-cases (is_found i e && is_closing i.status && awaits i e.values)) [
      | inl t ↦
          let written = settle_order-write s i e (rw t at h) in
          let d = settled_values s e i.status e.values in
          (
            store_next-kept e d "send_request_id" refl written
                ∙ settled_values-id s e i.status e.values
                ∙ key,
            store_next-kind e d written ∙ kind,
          )
      | inr f ↦ subst (Sent id b) (ok_eq (rw f at h)) (key, kind)
    ]

-- A call that succeeds returns what is stored, sent with the identifier.
abbrev Done : String → OrderEntry → OrderEntry × Result OrderError Fields → Type 0
Done id before out = (d : Fields) → out.1 ≡ ok d → Sent id before out.0 × (d ≡ out.0.values)

outcome-Done :
    (id : String) (b before : OrderEntry) (r : Result OrderError OrderEntry)
    → ((after : OrderEntry) → r ≡ ok after → Sent id b after)
    → Done id b (outcome before r)
outcome-Done id b before (ok after) h d q = (h after refl, sym (ok_eq q))
outcome-Done id b before (err _) h d q = cc

start_request-Done :
    (s : OrderSite) (id : String) (b e : OrderEntry) (made : Result OrderError Created)
    → Sent id b e
    → Done id b (start_request s e made)
start_request-Done s id b e (err _) sent = λ d q. cc
start_request-Done s id b e (ok c) (key, kind) =
    let after = record e { reference_name = str c.request; values = linked c e.values } in
    outcome-Done id b after (on_instance_update s c.instance after)
      (λ x h. update-Sent s c.instance id b after ((simp get-put_other) ∙ key, kind) h)

send-Done :
    (s : OrderSite) (id : String) (workflow r : Value) (e : OrderEntry)
    → Done id e (Salary.send s id workflow r e)
send-Done s id workflow r e =
    let pending = store e (sent s id r e.values) in
    let is : Sent id e pending = (simp (get-put, get-put_other), refl) in
    elim (Bool-cases (truthy workflow)) [
      | inl t ↦ rw t (start_request-Done s id e pending _ is)
      | inr f ↦ rw f (λ d q. (is, sym (ok_eq q)))
    ]

to_savepoint-Done :
    (id : String) (saved : OrderEntry) (out : OrderEntry × Result OrderError Fields)
    → Done id saved out
    → Done id saved (to_savepoint saved out)
to_savepoint-Done id saved (now, ok d) h = h
to_savepoint-Done id saved (now, err e) h = λ d q. cc

send_ready-Done :
    (s : OrderSite) (id : String) (e : OrderEntry) (ready : Result OrderError (Value × Value))
    → Done id e (send_ready s id e ready)
send_ready-Done s id e (err _) = λ d q. cc
send_ready-Done s id e (ok (workflow, r)) =
    to_savepoint-Done id e (Salary.send s id workflow r e) (send-Done s id workflow r e)

submit_checked-Done :
    (s : OrderSite) (n : ℤ) (id : String) (e : OrderEntry) (r : Result OrderError (Unit {0}))
    → Done id e (submit_checked s n id e r)
submit_checked-Done s n id e (err _) = λ d q. cc
submit_checked-Done s n id e (ok u) = elim (Bool-cases (is_replay id e.values)) [
  | inl t ↦ rw t (λ d q. ((str_is_eq id (get e.values "send_request_id") t, refl), sym (ok_eq q)))
  | inr f ↦ rw f (send_ready-Done s id e (ready_to_send s n e))
]

-- A submission that succeeds has passed the check of the identifier and of the kind.
passes :
    (s : OrderSite) (n : ℤ) (id : String) (e : OrderEntry) (r : Result OrderError (Unit {0}))
    {d : Fields}
    → (submit_checked s n id e r).1 ≡ ok d
    → r ≡ ok tt
passes s n id e (err x) q = cc
passes s n id e (ok u) q = refl

guards_of_kind : String → String → List (Bool × OrderError)
guards_of_kind kind id =
    (not (kind == order_kind), not_found) ∷ (not (is_send_id id), bad_request_id) ∷ []

-- A submission that succeeded and comes again, with any revision, changes nothing and returns the
-- order as it is stored.
pub submit-replay :
    (s s' : OrderSite) (n m : ℤ) (id : String) (e : OrderEntry) {after : OrderEntry} {d : Fields}
    → submit s n id e ≡ (after, ok d)
    → submit s' m id after ≡ (after, ok d)
unfolding submit guards_of_kind
submit-replay s s' n m id e {after} {d} h =
    let guards = check_all (submit_guards e id) in
    let q = ap (λ o. o.1) h in
    let (sent, same) = submit_checked-Done s n id e guards d q in
    let (key, kind) = subst (Sent id e) (ap (λ o. o.0) h) sent in
    let again = ap (λ k. check_all (guards_of_kind k id)) kind ∙ passes s n id e guards q in
    let replayed : is_replay id after.values ≡ true = ap (str_is id) key ∙ eq_refl id in
    rw (again, replayed) (ap (λ v. (after, ok v)) (sym (same ∙ ap (λ o. o.0.values) h)))
