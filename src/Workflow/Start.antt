-- ===== src/Workflow/Start.antt =====
-- asoud_erp/services/workflow_start_policy.py: the identifier of a start request and the decision
-- whether an instance is started. An absent status is "".
use Prim.Native.Char.{code}
use frappe_erp_next.Prelude.{
  ℕ, suc, ◌+◌, ◌≤◌, String, ◌≡◌, refl, Bool, true, false, not, ◌&&◌, ◌||◌, Option, none, some, [],
  ◌∷◌, ◌==◌, eqb, leb, leb→le, arith, if◌then◌else◌,
}
use frappe_erp_next.Prelude.Result.{Result, ok, err, ◌>>◌, check_all}
use frappe_erp_next.Python.{Value, Fields, str, get, str_is, truthy, is_blank, len}

pub data StartError : Type 0 where
  bad_request_id bad_reason still_running no_restart restart_reason manual_reason : StartError

pub data StartMode : Type 0 where
  reuse new : StartMode

-- `[A-Za-z0-9_-]`
abbrev pub is_id_char : ℕ → Bool
is_id_char c =
    (leb 65 c && leb c 90)
    || (leb 97 c && leb c 122)
    || (leb 48 c && leb c 57)
    || eqb c 95
    || eqb c 45

-- How many such characters the text begins with, and the rest.
abbrev pub id_run : String → ℕ × String
id_run String.[] = (0, "")
id_run (String.◌∷◌ c s) =
    let (n, rest) = id_run s in if is_id_char (code c) then (suc n, rest) else (0, String.◌∷◌ c s)

-- `$` of a Python pattern: the end, or before a newline at the end.
abbrev pub at_end : String → Bool
at_end String.[] = true
at_end (String.◌∷◌ c String.[]) = eqb (code c) 10
at_end (String.◌∷◌ c (String.◌∷◌ d s)) = false

abbrev pub is_request_id : String → Bool
is_request_id s = let (n, rest) = id_run s in leb 8 n && leb n 64 && at_end rest

-- `validate_request_id(request_id)`: whether it does not raise, for a text or none
unfoldable pub validate_request_id : Option String → Bool
validate_request_id none = true
validate_request_id (some s) = (s == "") || is_request_id s

abbrev pub is_reason : Value → Bool
is_reason (str s) = leb (len s) 1000
is_reason _ = false

abbrev pub is_blank_reason : Value → Bool
is_blank_reason (str s) = is_blank s
is_blank_reason _ = false

-- The two guards of a restart.
abbrev pub restart_guards : Fields → String → Bool → Value → Result StartError (Unit {0})
restart_guards config existing_status manager reason = check_all (
    ((existing_status == "") || (existing_status == "Running"), still_running)
    ∷ (not (truthy (get config "allow_manager_restart")) || not manager, no_restart)
    ∷ (is_blank_reason reason, restart_reason)
    ∷ [])

abbrev pub start_guards : Fields → String → Bool → Bool → Value → Result StartError (Unit {0})
start_guards config existing_status true manager reason =
    restart_guards config existing_status manager reason
start_guards config existing_status false manager reason = ok tt

abbrev pub manual_guard : Fields → Value → Result StartError StartMode
manual_guard config reason =
    if str_is "Manual" (get config "trigger_type") && is_blank_reason reason
    then err manual_reason
    else ok new

-- `start_decision(config, existing_status, restart, manager, reason)`
unfoldable pub start_decision : Fields → String → Bool → Bool → Value → Result StartError StartMode
start_decision config existing_status restart manager reason =
    if not (is_reason reason)
    then err bad_reason
    else if not (existing_status == "") && not restart
    then ok reuse
    else start_guards config existing_status restart manager reason >> manual_guard config reason

-- A second instance is started only by a restart, and never beside one that is running: a start of
-- a record with an instance gives a new one only if it is no longer running, the restart is asked
-- for by a manager, the settings allow it, and a reason is given.
pub start_decision-new :
    (config : Fields) (existing_status : String) (restart manager : Bool) (reason : Value)
    → (existing_status == "") ≡ false
    → start_decision config existing_status restart manager reason ≡ ok new
    → ((existing_status == "Running") ≡ false)
      × (restart ≡ true)
      × (manager ≡ true)
      × (truthy (get config "allow_manager_restart") ≡ true)
      × (is_blank_reason reason ≡ false)
unfolding start_decision
start_decision-new config existing true manager reason p h = ground arith
start_decision-new config existing false manager reason p h = ground arith

id_run-len : (s : String) → len s ≡ (id_run s).0 + len (id_run s).1
id_run-len String.[] = refl
id_run-len (String.◌∷◌ c s) = ground (arith, id_run-len s)

at_end-len : (s : String) → at_end s ≡ true → len s ≤ 1
at_end-len String.[] h = omega arith
at_end-len (String.◌∷◌ c String.[]) h = omega arith
at_end-len (String.◌∷◌ c (String.◌∷◌ d s)) h = cc

-- An identifier that is accepted and not empty has 8 to 65 characters: 64 and a newline at the end,
-- which the pattern lets through.
pub validate_request_id-len :
    (s : String)
    → (s == "") ≡ false
    → validate_request_id (some s) ≡ true
    → (8 ≤ len s) × (len s ≤ 65)
unfolding validate_request_id
validate_request_id-len s p h =
    let total = id_run-len s in
    let low = leb→le 8 (id_run s).0 (ground arith) in
    let high = leb→le (id_run s).0 64 (ground arith) in
    let rest = at_end-len (id_run s).1 (ground arith) in (omega arith, omega arith)
