-- ===== src/Request/Execution.antt =====
-- asoud_erp/services/request_execution.py: the execution lane of a request, kept apart from its
-- approval. An absent status is "".
use frappe_erp_next.Prelude.{
  String, ◌≡◌, ◌↔◌, refl, Bool, true, false, not, ◌&&◌, ◌||◌, Option, none, some, ◌==◌, eq_iff,
  arith, if◌then◌else◌,
}

pub data Lane : Type 0 where
  not_applicable not_started awaiting_approval pending succeeded failed needs_review not_connected
        voided :
      Lane

-- `_NATIVE_STATES`
abbrev pub native_state : String → Option Lane
native_state s =
    if s == "Pending"
    then some pending
    else if s == "Created"
    then some succeeded
    else if s == "Failed"
    then some failed
    else if s == "Skipped"
    then some not_connected
    else if s == "Needs Review"
    then some needs_review
    else if s == "Voided"
    then some voided
    else none

abbrev unexecuted : String → Bool → Lane × Lane
unexecuted instance_status has_execution =
    if not has_execution
    then (not_applicable, not_applicable)
    else if instance_status == "Completed"
    then (not_started, not_started)
    else (not_started, awaiting_approval)

abbrev executed : Option Lane → Lane × Lane → Lane × Lane
executed (some lane) otherwise = (lane, lane)
executed none otherwise = otherwise

-- The branches of `_state` before the native status is read.
abbrev branch : Bool → Bool → Bool → Lane × Lane → Lane × Lane → Lane × Lane
branch closed broken completed done otherwise =
    if closed
    then (not_applicable, not_applicable)
    else if broken
    then (needs_review, needs_review)
    else if completed
    then done
    else otherwise

-- `_state(instance_status, native_status, has_execution)`: the state and the key of its label
unfoldable pub state_of : String → String → Bool → Lane × Lane
state_of instance_status native_status has_execution =
    branch
      ((instance_status == "")
        || (instance_status == "Rejected")
        || (instance_status == "Cancelled"))
      (instance_status == "Failed") (instance_status == "Completed")
      (executed (native_state native_status) (unexecuted instance_status has_execution))
      (unexecuted instance_status has_execution)

pub record Execution : Type 0 where
  pub state : Lane
  pub label : Lane
  pub error : String
  pub executed_on : String
  pub executed_by_name : String
  pub reference : String

abbrev pub is_succeeded : Lane → Bool
is_succeeded succeeded = true
is_succeeded _ = false

abbrev pub shows_error : Lane → Bool
shows_error failed = true
shows_error needs_review = true
shows_error _ = false

-- `build_execution(...)`
unfoldable pub build_execution :
    String → String → Bool → String → Bool → String → String → String → Execution
build_execution instance_status native_status has_execution error privileged reference executed_on
      executed_by_name =
    let (state, label) = state_of instance_status native_status has_execution in
    record {
      state = state;
      label = label;
      error = if shows_error state && privileged then error else "";
      executed_on = if is_succeeded state then executed_on else "";
      executed_by_name = if is_succeeded state then executed_by_name else "";
      reference = if is_succeeded state then reference else "";
    }

native_created : (s : String) → native_state s ≡ some succeeded → s ≡ "Created"
native_created s h = (eq_iff s "Created").0 (ground arith)

unexecuted_open : (i : String) (b : Bool) → (unexecuted i b).0 ≡ succeeded → ⊥
unexecuted_open i b h = ground arith

executed_done :
    (o : Option Lane) (i : String) (b : Bool)
    → (executed o (unexecuted i b)).0 ≡ succeeded
    → o ≡ some succeeded
executed_done (some lane) i b h = cc
executed_done none i b h = absurd (unexecuted_open i b h)

branch_succeeded :
    (closed broken completed : Bool) (done otherwise : Lane × Lane)
    → (otherwise.0 ≡ succeeded → ⊥)
    → (branch closed broken completed done otherwise).0 ≡ succeeded
    → (completed ≡ true) × (done.0 ≡ succeeded)
branch_succeeded false false true done otherwise no_way h = (refl, h)
branch_succeeded false false false done otherwise no_way h = absurd (no_way h)
branch_succeeded true broken completed done otherwise no_way h = cc
branch_succeeded false true completed done otherwise no_way h = cc

-- An approval alone is never reported as done: the lane says `succeeded` exactly for a completed
-- instance whose native document was created.
pub state_of-succeeded :
    (instance_status native_status : String) (has_execution : Bool)
    → ((state_of instance_status native_status has_execution).0 ≡ succeeded)
      ↔ ((instance_status ≡ "Completed") × (native_status ≡ "Created"))
unfolding state_of
state_of-succeeded i n b = (
  λ h.
      let (c, o) = both h in
      ((eq_iff i "Completed").0 c, native_created n (executed_done (native_state n) i b o)),
  λ (p, q). rw (p, q) refl,
)
  where
    both :
        (state_of i n b).0 ≡ succeeded
        → ((i == "Completed") ≡ true) × ((executed (native_state n) (unexecuted i b)).0 ≡ succeeded)
    both h =
        branch_succeeded ((i == "") || (i == "Rejected") || (i == "Cancelled")) (i == "Failed")
          (i == "Completed") (executed (native_state n) (unexecuted i b)) (unexecuted i b)
          (unexecuted_open i b) h

-- What was created is named only after a success: for a completed instance whose native document
-- was created.
pub build_execution-reference :
    (instance_status native_status : String) (has_execution : Bool) (error : String)
    (privileged : Bool) (reference executed_on executed_by_name : String)
    → ((build_execution instance_status native_status has_execution error privileged reference
          executed_on executed_by_name).reference
        == "")
      ≡ false
    → (instance_status ≡ "Completed") × (native_status ≡ "Created")
unfolding build_execution
build_execution-reference i n b error privileged reference on by h =
    (state_of-succeeded i n b).0 (shown (state_of i n b).0 h)
  where
    shown :
        (lane : Lane)
        → ((if is_succeeded lane then reference else "") == "") ≡ false
        → lane ≡ succeeded
    shown succeeded h = refl
    shown not_applicable h = cc
    shown not_started h = cc
    shown awaiting_approval h = cc
    shown pending h = cc
    shown failed h = cc
    shown needs_review h = cc
    shown not_connected h = cc
    shown voided h = cc

-- The error of an execution is shown to privileged users only, and never beside a reference to what
-- was created.
pub build_execution-error :
    (instance_status native_status : String) (has_execution : Bool) (error : String)
    (privileged : Bool) (reference executed_on executed_by_name : String)
    → ((build_execution instance_status native_status has_execution error privileged reference
          executed_on executed_by_name).error
        == "")
      ≡ false
    → (privileged ≡ true)
      × ((build_execution instance_status native_status has_execution error privileged reference
            executed_on executed_by_name).reference
          ≡ "")
unfolding build_execution
build_execution-error i n b error privileged reference on by h =
    hidden (state_of i n b).0 privileged h
  where
    hidden :
        (lane : Lane) (p : Bool)
        → ((if shows_error lane && p then error else "") == "") ≡ false
        → (p ≡ true) × ((if is_succeeded lane then reference else "") ≡ "")
    hidden failed true h = (refl, refl)
    hidden needs_review true h = (refl, refl)
    hidden failed false h = cc
    hidden needs_review false h = cc
    hidden succeeded p h = cc
    hidden not_applicable p h = cc
    hidden not_started p h = cc
    hidden awaiting_approval p h = cc
    hidden pending p h = cc
    hidden not_connected p h = cc
    hidden voided p h = cc
