-- ===== src/Python/Lookup.antt =====
-- Reading a dictionary back after a write.
use frappe_erp_next.Prelude.{
  String, true, false, ◌≡◌, refl, ◌==◌, eq_refl, eq_iff, Bool-cases, if◌then◌else◌, ap, inl, inr,
  ◌∙◌,
}
use frappe_erp_next.Python.{
  Value, Fields, null, bool, int, str, list, dict, end, field, get, put, str_is,
}

pub get-put : (k : String) (v : Value) (m : Fields) → get (put k v m) k ≡ v
get-put k v end = rw (eq_refl k) refl
get-put k v (field j w r) = elim (Bool-cases (j == k)) [
  | inl e ↦ rw (e, e) refl
  | inr e ↦ rw (e, e) (get-put k v r)
]

same_key : (i j k : String) → (i == k) ≡ true → (i == j) ≡ (k == j)
same_key i j k e = ap (λ s. s == j) ((eq_iff i k).0 e)

-- Another key reads as before.
pub get-put_other :
    (j k : String) (v : Value) (m : Fields) → (k == j) ≡ false → get (put k v m) j ≡ get m j
get-put_other j k v end h = rw h refl
get-put_other j k v (field i w r) h = elim (Bool-cases (i == k)) [
  | inl e ↦ rw (e, same_key i j k e ∙ h) refl
  | inr e ↦ rw e (ap (λ u. if i == j then w else u) (get-put_other j k v r h))
]

-- What equals a text is that text.
pub str_is_eq : (k : String) (v : Value) → str_is k v ≡ true → v ≡ str k
str_is_eq k (str s) h = ap (λ t. str t) ((eq_iff s k).0 h)
str_is_eq k null h = cc
str_is_eq k (bool b) h = cc
str_is_eq k (int z) h = cc
str_is_eq k (list xs) h = cc
str_is_eq k (dict m) h = cc
