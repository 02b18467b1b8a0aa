-- ===== src/Workflow/Policy/Deadline.antt =====
-- A deadline that the designer saves is one that the engine can set.
use frappe_erp_next.Prelude.{
  ℕ, ◌*◌, ◌≤◌, String, true, false, ◌≡◌, ◌⊎◌, subst, Option, none, some, List, contains,
}
use frappe_erp_next.Prelude.Int.{ℤ, pos, ◌+ℤ◌}
use frappe_erp_next.Prelude.Result.{ok, test_lets}
use frappe_erp_next.Python.{
  Value, Fields, Python, null, bool, int, str, list, dict, get, int_of, truthy, ◌or◌,
}
use frappe_erp_next.Workflow.Runtime.Lookup.{unit_minutes, reminder}
use frappe_erp_next.Workflow.Policy.{StageError, is_no_deadline, one_text}

pub one_text_lem :
    (e : StageError) (texts : List String) (v : Value) {s : String}
    → one_text e texts v ≡ ok s
    → contains texts s ≡ true
one_text_lem e texts (str t) h =
    let (is, same) = test_lets (contains texts t) t e h in
    subst (λ s. contains texts s ≡ true) same is
one_text_lem e texts null h = cc
one_text_lem e texts (bool b) h = cc
one_text_lem e texts (int z) h = cc
one_text_lem e texts (list xs) h = cc
one_text_lem e texts (dict m) h = cc

-- A unit of time has its minutes.
abbrev IsUnit : String → Type 0
IsUnit u = (m : ℕ) × (unit_minutes u ≡ some m) × (truthy (str u) ≡ true) × (1 ≤ m) × (m ≤ 1440)

-- What the settings of a deadline say: a number of units, and the minutes of the reminder.
pub record Meant (py : Python) (raw : Fields) : Type 0 where
  pub value : ℕ
  pub unit : String
  pub minutes : ℕ
  pub before : ℕ
  pub value_is : int_of py (get raw "deadline_value") ≡ some (pos value)
  pub unit_is : (get raw "deadline_unit" or str "Hour") ≡ str unit
  pub minutes_are : unit_minutes unit ≡ some minutes
  pub before_is : int_of py (get raw "reminder_before_minutes" or int (pos 0)) ≡ some (pos before)
  pub at_least : 1 ≤ value
  pub at_most : value ≤ 3650
  pub minutes_at_least : 1 ≤ minutes
  pub minutes_at_most : minutes ≤ 1440
  pub before_at_most : before ≤ 525600

-- The times for settings without a deadline, and for those with one.
abbrev pub Times : Python → ℤ → Fields → Option ℤ × Option ℤ → Type 0
Times py now raw times =
    ((is_no_deadline (get raw "deadline_value") ≡ true) × (times ≡ (none, none)))
    ⊎ ((is_no_deadline (get raw "deadline_value") ≡ false)
        × (m : Meant py raw) × (times ≡ (
          some (now +ℤ pos (m.value * m.minutes)),
          reminder (now +ℤ pos (m.value * m.minutes)) (pos m.before),
        )))
