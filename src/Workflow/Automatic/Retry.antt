-- ===== src/Workflow/Automatic/Retry.antt =====
-- The retries of an automatic action: `retry_delay` of asoud_erp/services/automatic_action_policy.py.
use frappe_erp_next.Prelude.{
  ℕ, zero, suc, ◌*◌, ◌^◌, ◌≤◌, ◌≡◌, sym, subst, Bool, true, not, ◌||◌, Option, none, some, ◌∷◌, [],
  ltb, arith, if◌then◌else◌,
}
use frappe_erp_next.Prelude.Int.{pos}
use frappe_erp_next.Prelude.Result.{Result, ok, raise_if, >>=-eq-ok}
use frappe_erp_next.Python.{Value, int, dict, end, get, get_or}
use frappe_erp_next.Workflow.Automatic.{PolicyError, invalid, bounded_int, dict_of, only_keys}
use frappe_erp_next.Workflow.Automatic.Action.{
  Action, ExecutionPolicy, Library, normalize_action, execution_of, operation_of, one_of, actions,
  allowed_keys, is_version_two,
}

abbrev pub min : ℕ → ℕ → ℕ
min a b = if ltb a b then a else b

-- `retry_delay(policy, failed_attempt, transient=transient)`, where attempts count from one:
-- `failed_attempt` is one more than `before`.
unfoldable pub retry_delay : ExecutionPolicy → ℕ → Bool → Option ℕ
retry_delay policy before transient =
    if not transient || ltb policy.extra_attempts (suc before)
    then none
    else some (min 3600 (policy.retry_seconds * 2 ^ before))

bounded_int_bounds :
    (v : Value) (low high : ℕ) {n : ℕ} → bounded_int v low high ≡ ok n → (low ≤ n) × (n ≤ high)
bounded_int_bounds (int (pos m)) low high h = ground arith
bounded_int_bounds v low high h = cc

execution_of_bounds :
    (raw : Value) {policy : ExecutionPolicy}
    → execution_of raw ≡ ok policy
    → (policy.extra_attempts ≤ 5) × (30 ≤ policy.retry_seconds)
unfolding execution_of
execution_of_bounds raw {policy} h =
    let (m, p1, h1) = >>=-eq-ok (dict_of raw) _ h in
    let (u, p2, h2) =
      >>=-eq-ok
        (raise_if (not (only_keys ("extra_attempts" ∷ "retry_seconds" ∷ "timeout_seconds" ∷ []) m))
          invalid)
        _ h1 in
    let (extra, p3, h3) =
      >>=-eq-ok (bounded_int (get_or m "extra_attempts" (int (pos 0))) 0 5) _ h2 in
    let (retry, p4, h4) =
      >>=-eq-ok (bounded_int (get_or m "retry_seconds" (int (pos 60))) 30 3600) _ h3 in
    let (timeout, p5, h5) =
      >>=-eq-ok (bounded_int (get_or m "timeout_seconds" (int (pos 120))) 10 300) _ h4 in
    let few = bounded_int_bounds (get_or m "extra_attempts" (int (pos 0))) 0 5 p3 in
    let long = bounded_int_bounds (get_or m "retry_seconds" (int (pos 60))) 30 3600 p4 in
    let e : policy
        ≡ record { extra_attempts = extra; retry_seconds = retry; timeout_seconds = timeout } =
      policy_eq h5 in
    (
      subst (λ (x : ExecutionPolicy). x.extra_attempts ≤ 5) (sym e) few.1,
      subst (λ (x : ExecutionPolicy). 30 ≤ x.retry_seconds) (sym e) long.0,
    )
  where
    policy_eq :
        {x y : ExecutionPolicy} → ◌≡◌ {A = Result PolicyError ExecutionPolicy} (ok x) (ok y) → y ≡ x
    policy_eq q = cc

normalize_action-execution :
    (lib : Library) (raw : Value) {action : Action}
    → normalize_action lib raw ≡ ok action
    → (v : Value) × (execution_of v ≡ ok action.execution)
unfolding normalize_action
normalize_action-execution lib raw {action} h =
    let (m, p1, h1) = >>=-eq-ok (dict_of raw) _ h in
    let (u2, p2, h2) =
      >>=-eq-ok
        (raise_if
          (not (
            only_keys
              ("title" ∷ "description" ∷ "schema_version" ∷ "action_type" ∷ "operation"
                ∷ "execution" ∷ [])
              m))
          invalid)
        _ h1 in
    let (u3, p3, h3) =
      >>=-eq-ok (raise_if (not (is_version_two (get m "schema_version"))) invalid) _ h2 in
    let (kind, p4, h4) = >>=-eq-ok (one_of actions (get m "action_type")) _ h3 in
    let (payload, p5, h5) = >>=-eq-ok (dict_of (get m "operation")) _ h4 in
    let (u6, p6, h6) =
      >>=-eq-ok (raise_if (not (only_keys (allowed_keys kind) payload)) invalid) _ h5 in
    let (operation, p7, h7) = >>=-eq-ok (operation_of lib kind payload) _ h6 in
    let (execution, p8, h8) = >>=-eq-ok (execution_of (get_or m "execution" (dict end))) _ h7 in
    (
      get_or m "execution" (dict end),
      subst (λ (x : Action). execution_of (get_or m "execution" (dict end)) ≡ ok x.execution)
          (action_eq h8) p8,
    )
  where
    action_eq : {x y : Action} → ◌≡◌ {A = Result PolicyError Action} (ok x) (ok y) → x ≡ y
    action_eq q = cc

power_pos : (n : ℕ) → 1 ≤ 2 ^ n
power_pos zero = omega arith
power_pos (suc n) = omega (arith, power_pos n)

le-mul : (a b : ℕ) → 1 ≤ b → a ≤ a * b
le-mul a b h = grind arith

retry_delay_bounds :
    (policy : ExecutionPolicy) (before : ℕ) (transient : Bool) {delay : ℕ}
    → policy.extra_attempts ≤ 5
    → 30 ≤ policy.retry_seconds
    → retry_delay policy before transient ≡ some delay
    → (transient ≡ true) × (suc before ≤ 5) × (30 ≤ delay) × (delay ≤ 3600)
unfolding retry_delay
retry_delay_bounds policy before transient few long d =
    let grows = le-mul policy.retry_seconds (2 ^ before) (power_pos before) in ground arith

-- An accepted action is retried after transient failures only, and after at most five of them; a
-- retry waits at least 30 seconds and at most an hour.
pub retry_delay-normalize_action :
    (lib : Library) (raw : Value) {action : Action} (before : ℕ) (transient : Bool) {delay : ℕ}
    → normalize_action lib raw ≡ ok action
    → retry_delay action.execution before transient ≡ some delay
    → (transient ≡ true) × (suc before ≤ 5) × (30 ≤ delay) × (delay ≤ 3600)
retry_delay-normalize_action lib raw {action} before transient h d =
    let (v, e) = normalize_action-execution lib raw h in
    let (few, long) = execution_of_bounds v e in
    retry_delay_bounds action.execution before transient few long d

pub normalize_action-few :
    (lib : Library) (raw : Value) {action : Action}
    → normalize_action lib raw ≡ ok action
    → action.execution.extra_attempts ≤ 5
normalize_action-few lib raw h =
    let (v, e) = normalize_action-execution lib raw h in (execution_of_bounds v e).0

-- A delay is given only below the limit of attempts.
pub retry_delay-lt :
    (policy : ExecutionPolicy) (before : ℕ) (transient : Bool) {delay : ℕ}
    → retry_delay policy before transient ≡ some delay
    → suc before ≤ policy.extra_attempts
unfolding retry_delay
retry_delay-lt policy before transient h = ground arith
