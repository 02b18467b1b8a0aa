-- ===== src/Python/Equality.antt =====
-- Python's `==` of decoded values: True is 1 and False is 0, and a dictionary has no order.
use frappe_erp_next.Prelude.{ℕ, suc, Bool, true, false, ◌&&◌, ◌==◌, eqb}
use frappe_erp_next.Prelude.Int.{ℤ, pos, negsuc}
use frappe_erp_next.Python.{
  Value, Items, Fields, null, bool, int, str, list, dict, nil, cons, end, field, get, has_key,
}

abbrev pub eq_int : ℤ → ℤ → Bool
eq_int (pos m) (pos n) = eqb m n
eq_int (negsuc m) (negsuc n) = eqb m n
eq_int _ _ = false

abbrev pub number_of_bool : Bool → ℤ
number_of_bool true = pos 1
number_of_bool false = pos 0

abbrev pub count_fields : Fields → ℕ
count_fields end = 0
count_fields (field j v r) = suc (count_fields r)

unfoldable mutual
  pub eq_value : Value → Value → Bool
  eq_value null null = true
  eq_value (bool a) (bool b) = eq_int (number_of_bool a) (number_of_bool b)
  eq_value (bool a) (int b) = eq_int (number_of_bool a) b
  eq_value (int a) (bool b) = eq_int a (number_of_bool b)
  eq_value (int a) (int b) = eq_int a b
  eq_value (str s) (str t) = s == t
  eq_value (list xs) (list ys) = eq_items xs ys
  eq_value (dict m) (dict n) = eqb (count_fields m) (count_fields n) && within m n
  eq_value _ _ = false

  pub eq_items : Items → Items → Bool
  eq_items nil nil = true
  eq_items (cons x xs) (cons y ys) = eq_value x y && eq_items xs ys
  eq_items _ _ = false

  -- Every key of the first has an equal value in the second.
  pub within : Fields → Fields → Bool
  within end n = true
  within (field j v r) n = has_key n j && eq_value v (get n j) && within r n
