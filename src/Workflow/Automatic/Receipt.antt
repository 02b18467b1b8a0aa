-- ===== src/Workflow/Automatic/Receipt.antt =====
-- asoud_erp/services/automatic_action_runtime.py: the receipt of an automatic action, as `run` and
-- `dispatch` move it on. Times are whole seconds. A worker that is killed leaves the receipt as its
-- last commit wrote it, which is no step.
pub mod Attempts
use frappe_erp_next.Prelude.{
  ℕ, zero, suc, ◌+◌, ◌-◌, ◌≤◌, String, ◌≡◌, refl, sym, subst, Bool, true, false, not, ◌&&◌, ◌||◌,
  Option, none, some, List, [], ◌∷◌, ltb, leb, arith, if◌then◌else◌, Bool-cases, inl, inr,
}
use frappe_erp_next.Prelude.Result.{ok}
use frappe_erp_next.Python.{Value}
use frappe_erp_next.Workflow.Automatic.Action.{Action, ExecutionPolicy, Library, normalize_action}
use frappe_erp_next.Workflow.Automatic.Retry.{retry_delay, normalize_action-few}

pub data ReceiptStatus : Type 0 where
  pending running retry_pending succeeded with_errors failed cancelled : ReceiptStatus

-- A row of ASOUD Action Execution.
pub record Receipt : Type 0 where
  pub status : ReceiptStatus
  pub attempts : ℕ
  pub next_attempt : Option ℕ
  pub started_on : ℕ
  pub completed_on : Option ℕ
  pub error_code : String

-- `schedule`: the row that is inserted, and at once failed where the company has no service user.
abbrev pub scheduled : ℕ → Bool → Receipt
scheduled now true = record {
  status = pending;
  attempts = 0;
  next_attempt = some now;
  started_on = 0;
  completed_on = none;
  error_code = "";
}
scheduled now false = record {
  status = failed;
  attempts = 0;
  next_attempt = some now;
  started_on = 0;
  completed_on = some now;
  error_code = "ServiceIdentityMissing";
}

abbrev pub is_waiting : ReceiptStatus → Bool
is_waiting pending = true
is_waiting retry_pending = true
is_waiting _ = false

abbrev pub is_at_work : ReceiptStatus → Bool
is_at_work running = true
is_at_work _ = false

abbrev pub is_due : ℕ → Option ℕ → Bool
is_due now none = true
is_due now (some t) = leb t now

-- `run` up to its commit; it returns at once where the receipt does not wait, or not yet.
unfoldable pub claim : ℕ → Receipt → Receipt
claim now r =
    if is_waiting r.status && is_due now r.next_attempt
    then record r { attempts = r.attempts + 1; started_on = now; status = running }
    else r

-- What became of the attempt: the instance had moved on, the action ended, with a channel that
-- failed or not, or it raised, an error that may pass or not.
pub data Outcome : Type 0 where
  moved_on : Outcome
  ended : Bool → Outcome
  raised : Bool → String → Outcome

-- The receipt of an attempt that failed.
abbrev pub settle : ℕ → String → Option ℕ → Receipt → Receipt
settle now code none r = record r {
  status = failed;
  next_attempt = none;
  completed_on = some now;
  error_code = code;
}
settle now code (some delay) r = record r {
  status = retry_pending;
  next_attempt = some (now + delay);
  completed_on = none;
  error_code = code;
}

abbrev pub outcome_of : ExecutionPolicy → ℕ → Outcome → Receipt → Receipt
outcome_of policy now moved_on r = record r { status = cancelled }
outcome_of policy now (ended errors) r = record r {
  status = if errors then with_errors else succeeded;
  completed_on = some now;
  error_code = "";
}
outcome_of policy now (raised transient code) r =
    settle now code (retry_delay policy (r.attempts - 1) transient) r

-- `run` after its commit.
unfoldable pub conclude : ExecutionPolicy → ℕ → Outcome → Receipt → Receipt
conclude policy now outcome r = if is_at_work r.status then outcome_of policy now outcome r else r

-- `dispatch`, for a receipt of a worker that stopped.
unfoldable pub recover : ExecutionPolicy → ℕ → Receipt → Receipt
recover policy now r =
    if is_at_work r.status && ltb (policy.timeout_seconds + 60) (now - r.started_on)
    then settle now "WorkerInterrupted" (retry_delay policy (r.attempts - 1) true) r
    else r

-- Workers and the dispatcher take turns in any order.
pub data Step (policy : ExecutionPolicy) : Receipt → Receipt → Type 0 where
  claims : (now : ℕ) {r : Receipt} → Step policy r (claim now r)
  concludes :
      (now : ℕ) (outcome : Outcome) {r : Receipt} → Step policy r (conclude policy now outcome r)
  recovers : (now : ℕ) {r : Receipt} → Step policy r (recover policy now r)

pub data Reach (policy : ExecutionPolicy) (first : Receipt) : Receipt → Type 0 where
  here : Reach policy first first
  next : {r r' : Receipt} → Reach policy first r → Step policy r r' → Reach policy first r'

-- How many attempts a receipt of this status can have had.
abbrev pub InBudget : ExecutionPolicy → ReceiptStatus → ℕ → Type 0
InBudget policy pending n = n ≡ 0
InBudget policy retry_pending n = n ≤ policy.extra_attempts
InBudget policy _ n = n ≤ suc policy.extra_attempts

abbrev pub IsBounded : ExecutionPolicy → Receipt → Type 0
IsBounded policy r = InBudget policy r.status r.attempts

-- No worker or dispatcher has anything left to do.
abbrev pub is_over : ReceiptStatus → Bool
is_over s = not (is_waiting s) && not (is_at_work s)
