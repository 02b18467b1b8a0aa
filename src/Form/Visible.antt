-- ===== src/Form/Visible.antt =====
-- `_is_visible` and `_visibility` of asoud_erp/services/workflow_response.py, over the definitions of
-- a form in order, each key once.
use frappe_erp_next.Prelude.{
  ℕ, zero, suc, String, Bool, true, false, not, ◌&&◌, ◌||◌, ◌==◌, List, [], ◌∷◌, if◌then◌else◌,
}
use frappe_erp_next.Prelude.Result.{Result, ok, ◌>>=◌, ◌>>◌, raise_if}
use frappe_erp_next.Python.{
  Value, Items, Fields, null, str, list, dict, nil, cons, get, has_key, str_of, ◌or◌,
}
use frappe_erp_next.Python.Equality.{eq_value}
use frappe_erp_next.Form.Values.{Outside, ResponseError, raised, is_in, can_hash}

abbrev pub Definitions : Type 0
Definitions = List (String × Fields)

-- A key that is there keeps its place and takes the later field.
abbrev pub declare : String → Fields → Definitions → Definitions
declare k f [] = (k, f) ∷ []
declare k f ((j, g) ∷ rest) = if j == k then (j, f) ∷ rest else (j, g) ∷ declare k f rest

-- `{str(field.get("key")): field for field in fields if isinstance(field, dict)}`
abbrev pub definitions_from : Outside → Items → Definitions → Definitions
definitions_from out nil found = found
definitions_from out (cons (dict f) rest) found =
    definitions_from out rest (declare (str_of out.python (get f "key")) f found)
definitions_from out (cons _ rest) found = definitions_from out rest found

abbrev pub is_defined : String → Definitions → Bool
is_defined k [] = false
is_defined k ((j, g) ∷ rest) = (j == k) || is_defined k rest

abbrev pub Flags : Type 0
Flags = List (String × Bool)

-- `visible.get(key, True)`
abbrev pub shown : Flags → String → Bool
shown [] k = true
shown ((j, b) ∷ rest) k = if j == k then b else shown rest k

-- `view.get(key)`
abbrev pub viewed : Definitions → Fields → Flags → Value → Value
viewed ds raw flags (str k) = if is_defined k ds && shown flags k then get raw k else null
viewed ds raw flags _ = null

abbrev pub matches_rule : Fields → Value → Result ResponseError Bool
matches_rule r actual =
    if has_key r "in"
    then is_in actual (get r "in" or list nil)
    else ok (eq_value actual (get r "equals"))

abbrev pub rule_holds : Definitions → Fields → Flags → Value → Result ResponseError Bool
rule_holds ds raw flags (dict r) = do
  raise_if (not (can_hash (get r "field"))) raised
  matches_rule r (viewed ds raw flags (get r "field"))
rule_holds ds raw flags _ = ok true

-- `_is_visible(field, view)`
abbrev pub is_visible : Definitions → Fields → Flags → Fields → Result ResponseError Bool
is_visible ds raw flags f = rule_holds ds raw flags (get f "visible_when")

abbrev pub current_flags : Definitions → Fields → Flags → Definitions → Result ResponseError Flags
current_flags ds raw flags [] = ok []
current_flags ds raw flags ((k, f) ∷ rest) = do
  b ← is_visible ds raw flags f
  others ← current_flags ds raw flags rest
  ok ((k, b) ∷ others)

abbrev same_flag : Bool → Bool → Bool
same_flag true b = b
same_flag false b = not b

-- `current == visible`: both have the keys of the definitions, in order, or none.
abbrev pub same_flags : Flags → Flags → Bool
same_flags [] [] = true
same_flags ((k, a) ∷ rest) ((j, b) ∷ others) = same_flag a b && same_flags rest others
same_flags _ _ = false

abbrev pub rounds : ℕ → Definitions → Fields → Flags → Result ResponseError Flags
rounds zero ds raw flags = ok flags
rounds (suc n) ds raw flags = do
  current ← current_flags ds raw flags ds
  let rest = rounds n ds raw current in if same_flags current flags then ok flags else rest

abbrev count_definitions : Definitions → ℕ
count_definitions [] = 0
count_definitions (_ ∷ rest) = suc (count_definitions rest)

-- `_visibility(definitions, raw)`
abbrev pub visibility : Definitions → Fields → Result ResponseError Flags
visibility ds raw = rounds (suc (count_definitions ds)) ds raw []
