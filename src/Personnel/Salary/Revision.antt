-- ===== src/Personnel/Salary/Revision.antt =====
-- A decision raises the revision, so that a second decision on the old one is refused.
use frappe_erp_next.Prelude.{
  not-false, and_absorbs, ℕ, zero, suc, String, true, false, ◌≡◌, ◌⊎◌, refl, sym, ap, ◌∙◌, inl, inr,
  Bool-cases, &&-right, ◌==◌, arith,
}
use frappe_erp_next.Prelude.Int.{ℤ, pos, negsuc}
use frappe_erp_next.Prelude.Result.{ok, check_all, check_all-AllPass, >>-eq-ok, >>=-eq-ok, ok_eq}
use frappe_erp_next.Python.{
  Value, Fields, null, bool, int, str, list, dict, end, field, get, get_or, has_key, put,
}
use frappe_erp_next.Python.Equality.{eq_value}
use frappe_erp_next.Python.Lookup.{get-put, get-put_other}
use frappe_erp_next.Personnel.Order.{OrderEntry, OrderSite, next_revision, is_positive}
use frappe_erp_next.Personnel.Salary.{finalize, store, is_revision}
use frappe_erp_next.Personnel.Salary.Review.{
  approve, approve_guards, reject, reject_guards, rejected_by, write_next,
}

-- The next revision is no longer the one that was asked for.
next_revision-other :
    (v : Value) (n : ℕ) {r : Value}
    → next_revision v ≡ ok r
    → eq_value v (int (pos n)) ≡ true
    → eq_value r (int (pos n)) ≡ false
unfolding eq_value
next_revision-other (int (pos k)) n h e = rw (← ok_eq h) (ground arith)
next_revision-other (int (negsuc zero)) n h e = cc
next_revision-other (int (negsuc (suc k))) n h e = cc
next_revision-other (bool true) n h e = rw (← ok_eq h) (ground arith)
next_revision-other (bool false) n h e = rw (← ok_eq h) (ground arith)
next_revision-other null n h e = cc
next_revision-other (str s) n h e = cc
next_revision-other (list s) n h e = cc
next_revision-other (dict s) n h e = cc

no_key : (m : Fields) (k : String) → has_key m k ≡ false → get m k ≡ null
no_key end k h = refl
no_key (field j v r) k h = elim (Bool-cases (j == k)) [
  | inl e ↦ cc (rw e at h)
  | inr n ↦ rw n (no_key r k (rw n at h))
]

-- What asks for the stored revision finds the key.
get_or-get :
    (m : Fields) (k : String) (d : Value) (n : ℤ)
    → eq_value (get m k) (int n) ≡ true
    → get_or m k d ≡ get m k
unfolding eq_value
get_or-get m k d n h = elim (Bool-cases (has_key m k)) [
  | inl e ↦ rw e refl
  | inr e ↦ cc (ap (λ v. eq_value v (int n)) (sym (no_key m k e)) ∙ h)
]

module _ (e : OrderEntry) (d : Fields) (keeps : get d "revision" ≡ get e.values "revision") where
  -- A write raises the revision.
  write_next-revision :
      (n : ℤ) {after : OrderEntry}
      → is_revision e.values n ≡ true
      → write_next e d ≡ ok after
      → is_revision after.values n ≡ false
  write_next-revision (pos n) h w =
      let at = &&-right (is_positive (pos n)) _ h in
      let at' = ap (λ v. eq_value v (int (pos n))) keeps ∙ at in
      let (r, next, stored) =
        >>=-eq-ok (next_revision (get_or d "revision" (int (pos 1))))
          (λ r. ok (store e (put "revision" r d))) w in
      let next' =
        ap next_revision (sym (get_or-get d "revision" (int (pos 1)) (pos n) at')) ∙ next in
      let here = ap (λ x. get x.values "revision") (sym (ok_eq stored)) ∙ get-put "revision" r d in
      rw (here, next_revision-other (get d "revision") n next' at')
        (and_absorbs (is_positive (pos n)))
  write_next-revision (negsuc n) h w = refl

-- An approval or a rejection that names a revision is accepted.
abbrev pub Decides : OrderSite → ℤ → OrderEntry → OrderEntry → Type 0
Decides s n e after = (approve s n e ≡ ok after) ⊎ ((why : String) × (reject s n why e ≡ ok after))

-- What is decided asked for the stored revision.
Decides-is_revision :
    (s : OrderSite) (n : ℤ) (e : OrderEntry) {after : OrderEntry}
    → Decides s n e after
    → is_revision e.values n ≡ true
unfolding approve reject
Decides-is_revision s n e (inl h) =
    let (passed, _) = >>-eq-ok (check_all (approve_guards s n e)) _ h in
    let (_, (_, (now, _))) = check_all-AllPass (approve_guards s n e) passed in not-false _ now
Decides-is_revision s n e (inr (why, h)) =
    let (passed, _) = >>-eq-ok (check_all (reject_guards s n e)) _ h in
    let (_, (_, (now, _))) = check_all-AllPass (reject_guards s n e) passed in not-false _ now

Decides-raises :
    (s : OrderSite) (n : ℤ) (e : OrderEntry) {after : OrderEntry}
    → Decides s n e after
    → is_revision after.values n ≡ false
unfolding approve reject
Decides-raises s n e (inl h) =
    let (_, w) = >>-eq-ok (check_all (approve_guards s n e)) _ h in
    write_next-revision e (finalize s e e.values) (simp get-put_other) n
      (Decides-is_revision s n e (inl h)) w
Decides-raises s n e (inr (why, h)) =
    let (_, w) = >>-eq-ok (check_all (reject_guards s n e)) _ h in
    write_next-revision e (rejected_by s why e.values) (simp get-put_other) n
      (Decides-is_revision s n e (inr (why, h))) w

-- Of two decisions that name the same revision, the second is refused.
pub Decides-once :
    (s s' : OrderSite) (n : ℤ) (e : OrderEntry) {after last : OrderEntry}
    → Decides s n e after
    → ¬ Decides s' n after last
Decides-once s s' n e {after} first second =
    cc (sym (Decides-raises s n e first) ∙ Decides-is_revision s' n after second)
