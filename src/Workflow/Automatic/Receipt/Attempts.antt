-- ===== src/Workflow/Automatic/Receipt/Attempts.antt =====
-- How often an automatic action is tried: the receipts of
-- asoud_erp/services/automatic_action_runtime.py.
use frappe_erp_next.Prelude.{
  ℕ, suc, ◌+◌, ◌-◌, ◌≤◌, String, ◌≡◌, ◌⊎◌, refl, Bool, true, false, ◌&&◌, Option, none, some, ltb,
  arith, Bool-cases, inl, inr,
}
use frappe_erp_next.Prelude.Result.{ok}
use frappe_erp_next.Python.{Value}
use frappe_erp_next.Workflow.Automatic.Action.{Action, ExecutionPolicy, Library, normalize_action}
use frappe_erp_next.Workflow.Automatic.Retry.{retry_delay, retry_delay-lt, normalize_action-few}
use frappe_erp_next.Workflow.Automatic.Receipt.{
  ReceiptStatus, pending, running, retry_pending, Receipt, scheduled, is_waiting, is_at_work,
  is_due, claim, Outcome, moved_on, ended, raised, settle, outcome_of, conclude, recover, Step,
  claims, concludes, recovers, Reach, here, next, InBudget, IsBounded, is_over,
}

module _ (policy : ExecutionPolicy) where
  InBudget-waiting :
      (s : ReceiptStatus) (n : ℕ)
      → is_waiting s ≡ true
      → InBudget policy s n
      → n + 1 ≤ suc policy.extra_attempts
  InBudget-waiting pending n w h = omega arith
  InBudget-waiting retry_pending n w h = omega arith
  InBudget-waiting s n w h = cc

  InBudget-running :
      (s : ReceiptStatus) (n : ℕ)
      → is_at_work s ≡ true
      → InBudget policy s n
      → n ≤ suc policy.extra_attempts
  InBudget-running running n w h = h
  InBudget-running s n w h = cc

  settle-IsBounded :
      (now : ℕ) (code : String) (delay : Option ℕ) (r : Receipt)
      → r.attempts ≤ suc policy.extra_attempts
      → ((d : ℕ) → delay ≡ some d → r.attempts ≤ policy.extra_attempts)
      → IsBounded policy (settle now code delay r)
  settle-IsBounded now code none r h few = h
  settle-IsBounded now code (some d) r h few = few d refl

  retried :
      (now : ℕ) (code : String) (transient : Bool) (r : Receipt)
      → r.attempts ≤ suc policy.extra_attempts
      → IsBounded policy (settle now code (retry_delay policy (r.attempts - 1) transient) r)
  retried now code transient r h =
      settle-IsBounded now code (retry_delay policy (r.attempts - 1) transient) r h
        (λ d e. omega (arith, retry_delay-lt policy (r.attempts - 1) transient e))

  outcome_of-IsBounded :
      (now : ℕ) (outcome : Outcome) (r : Receipt)
      → r.attempts ≤ suc policy.extra_attempts
      → IsBounded policy (outcome_of policy now outcome r)
  outcome_of-IsBounded now moved_on r h = h
  outcome_of-IsBounded now (ended true) r h = h
  outcome_of-IsBounded now (ended false) r h = h
  outcome_of-IsBounded now (raised transient code) r h = retried now code transient r h

  Step-IsBounded : {r r' : Receipt} → Step policy r r' → IsBounded policy r → IsBounded policy r'
  unfolding claim conclude recover
  Step-IsBounded (claims now {r}) h =
      elim (Bool-cases (is_waiting r.status && is_due now r.next_attempt)) [
        | inl e ↦ rw e (InBudget-waiting r.status r.attempts (ground arith) h)
        | inr e ↦ rw e h
      ]
  Step-IsBounded (concludes now outcome {r}) h = elim (Bool-cases (is_at_work r.status)) [
    | inl e ↦ rw e (outcome_of-IsBounded now outcome r (InBudget-running r.status r.attempts e h))
    | inr e ↦ rw e h
  ]
  Step-IsBounded (recovers now {r}) h =
      elim (Bool-cases
        (is_at_work r.status && ltb (policy.timeout_seconds + 60) (now - r.started_on))) [
          | inl e ↦ rw e (
              retried now "WorkerInterrupted" true r
                (InBudget-running r.status r.attempts (ground arith) h))
          | inr e ↦ rw e h
        ]

  scheduled-IsBounded : (now : ℕ) (known : Bool) → IsBounded policy (scheduled now known)
  scheduled-IsBounded now true = refl
  scheduled-IsBounded now false = omega arith

  Reach-IsBounded :
      (now : ℕ) (known : Bool) {r : Receipt}
      → Reach policy (scheduled now known) r
      → IsBounded policy r
  Reach-IsBounded now known here = scheduled-IsBounded now known
  Reach-IsBounded now known (next p s) = Step-IsBounded s (Reach-IsBounded now known p)

  InBudget-le : (s : ReceiptStatus) (n : ℕ) → InBudget policy s n → n ≤ suc policy.extra_attempts
  InBudget-le pending n h = omega arith
  InBudget-le retry_pending n h = omega arith
  InBudget-le s n h = h

  -- A receipt that is over stays as it is.
  Step-is_over : {r r' : Receipt} → Step policy r r' → is_over r.status ≡ true → r' ≡ r
  unfolding claim conclude recover
  Step-is_over (claims now {r}) h = ground arith
  Step-is_over (concludes now outcome {r}) h = ground arith
  Step-is_over (recovers now {r}) h = ground arith

-- Whatever the workers and the dispatcher do, and in whatever order, an accepted action is tried at
-- most six times; a receipt that waits for a retry has had at most five attempts; and one that is
-- over is not changed any more.
pub Reach-attempts :
    (lib : Library) (raw : Value) {action : Action} (now : ℕ) (known : Bool) {r r' : Receipt}
    → normalize_action lib raw ≡ ok action
    → Reach action.execution (scheduled now known) r
    → Step action.execution r r'
    → (r.attempts ≤ 6)
      × InBudget action.execution r.status r.attempts
      × ((is_over r.status ≡ false) ⊎ (r' ≡ r))
Reach-attempts lib raw {action} now known {r} {r'} h p s =
    let few = normalize_action-few lib raw h in
    let bounded = Reach-IsBounded action.execution now known p in
    let total = InBudget-le action.execution r.status r.attempts bounded in
    (
      omega arith,
      bounded,
      elim (Bool-cases (is_over r.status)) [
        | inl o ↦ inr (Step-is_over action.execution s o)
        | inr o ↦ inl o
      ],
    )
