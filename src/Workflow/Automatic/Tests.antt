-- ===== src/Workflow/Automatic/Tests.antt =====
-- A notification, its retries, and a field that is copied.
use frappe_erp_next.Prelude.{
  ◌≤◌, String, ◌≡◌, ◌⊎◌, refl, Bool, true, false, Option, none, some, [], ◌∷◌, ◌==◌, if◌then◌else◌,
}
use frappe_erp_next.Prelude.Int.{pos}
use frappe_erp_next.Prelude.Result.{ok}
use frappe_erp_next.Python.{Value, str, int, list, dict, nil, cons, end, field, strip}
use frappe_erp_next.Workflow.Automatic.{Entry, SourceKind, Transform, EmptyPolicy}
use frappe_erp_next.Workflow.Automatic.Formula.{Formula, validate_formula}
use frappe_erp_next.Workflow.Automatic.Action.{
  Library, Action, send_notification, execution_of, normalize_action,
}
use frappe_erp_next.Workflow.Automatic.Retry.{retry_delay, retry_delay-normalize_action}
use frappe_erp_next.Workflow.Automatic.Receipt.{
  Receipt, Outcome, scheduled, claim, conclude, recover, Step, Reach, InBudget, is_over,
}
use frappe_erp_next.Workflow.Automatic.Receipt.Attempts.{Reach-attempts}
use frappe_erp_next.Workflow.Automatic.Resolve.{Context, is_missing, resolve}

-- Messages with no variables; of formulas, "a".
abbrev library : Library
library = record {
  parser = record {
    parse = λ s.
        if s == "a + b" then some (Formula.binary (Formula.name "a") (Formula.name "b")) else none;
    is_number = λ v. false;
  };
  without_variables = λ s. s;
}

abbrev raw : Value
raw = dict (
    field "schema_version" (int (pos 2)) (
      field "action_type" (str "Send Notification") (
        field "operation"
          (dict (
            field "recipients" (list (cons (str "ann") (cons (str " ann ") nil))) (
              field "channels" (list (cons (str "email") nil)) (field "message" (str "done") end))))
          (field "execution" (dict (field "extra_attempts" (int (pos 3)) end)) end))))

abbrev action : Action
action = record {
  operation = send_notification ("ann" ∷ []) ("email" ∷ []) "done";
  execution = record { extra_attempts = 3; retry_seconds = 60; timeout_seconds = 120 };
}

accepted : normalize_action library raw ≡ ok action
unfolding normalize_action execution_of strip
accepted = refl

third_retry : retry_delay action.execution 2 true ≡ some 240
unfolding retry_delay
third_retry = refl

no_fourth : retry_delay action.execution 3 true ≡ none
unfolding retry_delay
no_fourth = refl

formula_ok :
    validate_formula library.parser (str "a + b") ("a" ∷ "b" ∷ [])
    ≡ ok (Formula.binary (Formula.name "a") (Formula.name "b"))
unfolding validate_formula
formula_ok = refl

retry_delay-normalize_action_example :
    (◌≡◌ {A = Bool} true true) × (3 ≤ 5) × (30 ≤ 240) × (240 ≤ 3600)
retry_delay-normalize_action_example =
    retry_delay-normalize_action library raw 2 true accepted third_retry

-- The title of the current record.
abbrev title : EmptyPolicy → Entry
title empty = record {
  kind = SourceKind.current;
  value = str "title";
  transform = Transform.trim;
  empty = empty;
  stage_name = "";
}

abbrev context : String → Context
context s = record { current_values = field "title" (str s) end; stages = []; system_values = end }

no_rounding : Value → Option Value
no_rounding v = none

title_read :
    resolve no_rounding (title EmptyPolicy.stop) (context " Pens ") ≡ ok (some (str "Pens"))
unfolding resolve strip
title_read = refl

-- A blank text that may be skipped is not skipped once it is trimmed.
blank_kept : resolve no_rounding (title EmptyPolicy.skip) (context " ") ≡ ok (some (str ""))
unfolding resolve strip
blank_kept = refl

no_rounding-is_missing : (v n : Value) → no_rounding v ≡ some n → is_missing n ≡ false
unfolding no_rounding
no_rounding-is_missing v n h = cc

-- The first worker is killed, the dispatcher finds that, and the second attempt ends.
abbrev first_try : Receipt
unfolding claim
first_try = claim 0 (scheduled 0 true)

abbrev found_dead : Receipt
unfolding recover retry_delay
found_dead = recover action.execution 200 first_try

abbrev second_try : Receipt
unfolding claim
second_try = claim 300 found_dead

second_attempt : second_try.attempts ≡ 2
unfolding claim recover retry_delay
second_attempt = refl

tried_twice : Reach action.execution (scheduled 0 true) second_try
unfolding claim recover retry_delay
tried_twice =
    Reach.next (Reach.next (Reach.next Reach.here (Step.claims 0)) (Step.recovers 200))
      (Step.claims 300)

Reach-attempts_example :
    (second_try.attempts ≤ 6)
    × InBudget action.execution second_try.status second_try.attempts
    × ((is_over second_try.status ≡ false)
        ⊎ (conclude action.execution 310 (Outcome.ended false) second_try ≡ second_try))
Reach-attempts_example =
    Reach-attempts library raw 0 true accepted tried_twice
      (Step.concludes 310 (Outcome.ended false))
