-- ===== src/Python/Members.antt =====
-- Membership in the list of a decoded value.
use frappe_erp_next.Python.{Value, Items, cons}

-- An element of a list of values.
pub data Among (a : Value) : Items → Type 0 where
  here : {xs : Items} → Among a (cons a xs)
  there : {x : Value} {xs : Items} → Among a xs → Among a (cons x xs)
