-- ===== src/Workflow/Design.antt =====
-- asoud_erp/services/workflow_contract.py: the rows of a saved workflow design, the check of one
-- saved stage, and the check of one stage's outgoing routes. Both checks raise in the source, and
-- every caller treats every raise alike: here they are tests, false where the source raises.
use frappe_erp_next.Prelude.{
  ℕ, suc, String, Bool, true, false, not, ◌&&◌, ◌||◌, Option, none, some, List, [], ◌∷◌, ◌==◌, eqb,
  if◌then◌else◌, contains, length, all,
}
use frappe_erp_next.Prelude.Int.{pos}
use frappe_erp_next.Python.{Value, Fields, bool, int, str, dict, get, ◌or◌, str_of, truthy, Python}

pub data StageType : Type 0 where
  start user_task approval condition system_action wait end_stage : StageType

-- A row of ASOUD Workflow Stage. `config` is what `json.loads` makes of `config_json`, `none` where
-- it raises; an empty column is the empty object.
pub record Stage : Type 0 where
  pub name : String
  pub stage_type : StageType
  pub stage_title : String
  pub configuration_status : String
  pub config : Option Value

-- A row of ASOUD Workflow Transition, its condition decoded likewise. An empty column is "".
pub record Transition : Type 0 where
  pub from_stage : String
  pub to_stage : String
  pub transition_label : String
  pub condition_json : Option Value

-- What the stage check calls: `normalize_settings` of workflow_start_policy and
-- `normalize_stage_config` of workflow_stage_policy, true where they raise nothing, false
-- where they raise one of the three errors that activation catches; another error, which leaves
-- activation, is not modelled.
pub record Checks : Type 0 where
  pub settings : Fields → Bool
  pub stage_config : StageType → String → Fields → Bool

-- `value == 1`
abbrev pub is_one : Value → Bool
is_one (int (pos n)) = eqb n 1
is_one (bool b) = b
is_one _ = false

-- `value in names`; an unhashable value raises, and then the caller's check fails too.
abbrev pub is_among : List String → Value → Bool
is_among names (str s) = contains names s
is_among names _ = false

abbrev pub trigger_types : List String
trigger_types = "Manual" ∷ "Document Event" ∷ "System" ∷ "API" ∷ []

abbrev pub valid_start_config : Checks → Fields → Bool
valid_start_config checks config =
    is_among trigger_types (get config "trigger_type")
    && (not (is_among ("Manual" ∷ []) (get config "trigger_type"))
        || truthy (get config "initiator_roles"))
    && (not (is_one (get config "start_settings_version")) || checks.settings config)

abbrev valid_config : Checks → StageType → String → Fields → Bool
valid_config checks start title config = valid_start_config checks config
valid_config checks kind title config = checks.stage_config kind title config

-- `_validate_saved_stage(row)`
unfoldable pub valid_saved_stage : Checks → Stage → Bool
valid_saved_stage checks row = elim row.config [
  | some (dict config) ↦
      (row.configuration_status == "Complete")
      && valid_config checks row.stage_type row.stage_title config
  | _ ↦ false
]

-- The decoded conditions; `none` where one of them raises or is no object.
abbrev pub conditions_of : List Transition → Option (List Fields)
conditions_of [] = some []
conditions_of (e ∷ es) = elim e.condition_json [
  | some (dict c) ↦ elim (conditions_of es) [ some cs ↦ some (c ∷ cs) | none ↦ none ]
  | _ ↦ none
]

abbrev pub opposite : Value → Value → Bool
opposite (bool true) (bool false) = true
opposite (bool false) (bool true) = true
opposite _ _ = false

-- `{c['result'] for c in conditions} == {True, False}`, each result a bool, of exactly two
abbrev pub both_results : List Fields → Bool
both_results (c ∷ d ∷ []) = opposite (get c "result") (get d "result")
both_results _ = false

module _ (py : Python) where
  -- `str(c.get('action') or e.get('transition_label') or '').casefold()`
  abbrev pub action_of : Fields → Transition → String
  action_of c e = py.casefold (str_of py (get c "action" or str e.transition_label or str ""))

  -- `[... for c, e in zip(conditions, routes)]`
  abbrev pub actions_of : List Fields → List Transition → List String
  actions_of (c ∷ cs) (e ∷ es) = action_of c e ∷ actions_of cs es
  actions_of _ _ = []

-- `actions.count(action)`
abbrev pub count : String → List String → ℕ
count a [] = 0
count a (x ∷ xs) = if x == a then suc (count a xs) else count a xs

-- `len(actions) == len(set(actions))`
abbrev pub distinct : List String → Bool
distinct [] = true
distinct (x ∷ xs) = not (contains xs x) && distinct xs

-- `len(routes) == 1 and actions == ['']`
abbrev pub single_default : List String → Bool
single_default (a ∷ []) = a == ""
single_default _ = false

-- The three tests on the actions of a stage that ends by an action.
abbrev pub valid_actions : String → List String → List String → Bool
valid_actions main allowed actions =
    (eqb (count main actions) 1 || single_default actions)
    && distinct actions
    && (all (contains allowed) actions || single_default actions)

module _ (py : Python) where
  -- The branch of `_validate_saved_routes` for a kind of stage.
  abbrev pub valid_routes_of : StageType → List Transition → List Fields → Bool
  valid_routes_of end_stage routes conditions = elim routes [ [] ↦ true | _ ∷ _ ↦ false ]
  valid_routes_of condition routes conditions = both_results conditions
  valid_routes_of start routes conditions = eqb (length routes) 1
  valid_routes_of user_task routes conditions =
      valid_actions (py.casefold "Complete") ("complete" ∷ "reject" ∷ "return" ∷ [])
        (actions_of py conditions routes)
  valid_routes_of approval routes conditions =
      valid_actions (py.casefold "Approve") ("approve" ∷ "reject" ∷ "return" ∷ [])
        (actions_of py conditions routes)
  valid_routes_of system_action routes conditions =
      valid_actions (py.casefold "Success") ("success" ∷ "error" ∷ [])
        (actions_of py conditions routes)
  valid_routes_of wait routes conditions = true

  -- `_validate_saved_routes(kind, routes)`
  unfoldable pub valid_saved_routes : StageType → List Transition → Bool
  valid_saved_routes kind routes = elim (conditions_of routes) [
    | some conditions ↦ valid_routes_of kind routes conditions
    | none ↦ false
  ]
