-- ===== src/Workflow/Automatic/Formula.antt =====
-- `validate_formula` of asoud_erp/services/automatic_action_policy.py, of the tree that Python's `ast`
-- gives.
use frappe_erp_next.Prelude.{
  ℕ, suc, ◌+◌, String, Bool, false, not, ◌&&◌, Option, none, some, List, ltb, leb, contains,
}
use frappe_erp_next.Prelude.Result.{Result, ok, err, ◌>>=◌, ◌>>◌, raise_if}
use frappe_erp_next.Python.{Value, str, len}
use frappe_erp_next.Workflow.Automatic.{PolicyError, invalid}

-- An expression; `other` is a node of any other kind, with the nodes below it.
pub data Formula : Type 0 where
  constant : Value → Formula
  name : String → Formula
  -- `-e`, `+e`
  unary : Formula → Formula
  -- `a + b`, `a - b`, `a * b`, `a / b`
  binary : Formula → Formula → Formula
  other : ℕ → Formula

-- The nodes that `ast.walk` yields: a name has its context, and an operation its operator.
abbrev pub nodes : Formula → ℕ
nodes (constant _) = 1
nodes (name _) = 2
nodes (unary e) = suc (suc (nodes e))
nodes (binary a b) = suc (suc (nodes a + nodes b))
nodes (other n) = suc n

-- The part of Python that the policy calls: `ast.parse`, `none` where it raises, and whether
-- `number(value)` accepts.
pub record Parser : Type 0 where
  pub parse : String → Option Formula
  pub is_number : Value → Bool

abbrev pub is_plain : Parser → List String → Formula → Bool
is_plain py variables (constant v) = py.is_number v
is_plain py variables (name x) = contains variables x
is_plain py variables (unary e) = is_plain py variables e
is_plain py variables (binary a b) = is_plain py variables a && is_plain py variables b
is_plain py variables (other n) = false

abbrev pub parsed : Option Formula → Result PolicyError Formula
parsed none = err invalid
parsed (some e) = ok e

-- `validate_formula(expression, variables)`; the whole expression is a node too
unfoldable pub validate_formula : Parser → Value → List String → Result PolicyError Formula
validate_formula py (str s) variables = do
  raise_if (not (leb 1 (len s) && leb (len s) 300)) invalid
  e ← parsed (py.parse s)
  raise_if (ltb 80 (suc (nodes e))) invalid
  raise_if (not (is_plain py variables e)) invalid
  ok e
validate_formula py _ variables = err invalid
