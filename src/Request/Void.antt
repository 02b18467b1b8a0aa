-- ===== src/Request/Void.antt =====
-- asoud_erp/services/request_void.py: the pure rules of voiding and reissuing the document that an
-- approved request created. An absent text is "", an absent `docstatus` is `none`.
use frappe_erp_next.Prelude.{
  ℕ, String, ◌≡◌, ◌↔◌, refl, Bool, true, false, not, ◌&&◌, ◌||◌, Option, none, some, List, [], ◌∷◌,
  ◌==◌, eqb, ltb, eq_iff, arith, if◌then◌else◌, contains, Has,
}
use frappe_erp_next.Prelude.Result.{Result, ok, err}
use frappe_erp_next.Python.{Value, str, strip, len}

pub data VoidError : Type 0 where
  reason reason_long bad_doctype : VoidError

abbrev trimmed : Value → String
trimmed (str s) = strip s
trimmed _ = ""

-- `clean_reason(reason)`, with `REASON_MAX`
unfoldable pub clean_reason : Value → Result VoidError String
clean_reason value =
    let text = trimmed value in
    if text == "" then err reason else if ltb 500 (len text) then err reason_long else ok text

abbrev pub cancel_doctypes : List String
cancel_doctypes =
    "Employee Advance" ∷ "Asset Movement" ∷ "Shift Request" ∷ "Exit Interview" ∷ "Leave Application"
    ∷ "Material Request" ∷ "Full and Final Statement" ∷ []

abbrev pub mark_only_doctypes : List String
mark_only_doctypes = "Employee Checkin" ∷ "Training Event" ∷ []

pub data Plan : Type 0 where
  cancel mark already : Plan

abbrev pub is_docstatus : ℕ → Option ℕ → Bool
is_docstatus n none = false
is_docstatus n (some m) = eqb m n

abbrev is_gone : Option ℕ → Bool
is_gone none = true
is_gone (some m) = eqb m 2

-- `void_plan(native_doctype, docstatus)`
unfoldable pub void_plan : String → Option ℕ → Result VoidError Plan
void_plan native_doctype docstatus =
    let cancels = contains cancel_doctypes native_doctype in
    if not (cancels || contains mark_only_doctypes native_doctype)
    then err bad_doctype
    else if is_gone docstatus
    then ok already
    else if cancels && is_docstatus 1 docstatus
    then ok cancel
    else ok mark

-- `can_void(instance_status, native_status, native_name)`
unfoldable pub can_void : String → String → String → Bool
can_void instance_status native_status native_name =
    (instance_status == "Completed") && (native_status == "Created") && not (native_name == "")

-- `can_reissue(native_status, template_key)`
unfoldable pub can_reissue : String → String → Bool
can_reissue native_status template_key = (native_status == "Voided") && (template_key == "")

abbrev last_is : String → List String → Bool
last_is a [] = false
last_is a (x ∷ []) = x == a
last_is a (x ∷ y ∷ xs) = last_is a (y ∷ xs)

-- `already_reissued(actions)`, oldest first
unfoldable pub already_reissued : List String → Bool
already_reissued actions = last_is "Reissued" actions

pub data Blocker : Type 0 where
  checkin shift training no_effects exit_interview : Blocker

abbrev is_mark : Plan → Bool
is_mark mark = true
is_mark _ = false

-- `reissue_blocker(doctype, plan, event_docstatus, effects_missing)`; `none` is the empty text
unfoldable pub reissue_blocker : String → Plan → Option ℕ → Bool → Option Blocker
reissue_blocker doctype plan event_docstatus effects_missing =
    if doctype == "Employee Checkin"
    then some checkin
    else if (doctype == "Shift Request") && is_mark plan
    then some shift
    else if (doctype == "Training Event") && is_docstatus 1 event_docstatus
    then some training
    else if doctype == "Exit Interview"
    then (if effects_missing
        then some no_effects
        else if is_mark plan
        then some exit_interview
        else none)
    else none

abbrev is_free : Option Blocker → Bool
is_free none = true
is_free (some b) = false

-- `can_reissue_now(native_status, template_key, blocker)`
unfoldable pub can_reissue_now : String → String → Option Blocker → Bool
unfolding can_reissue
can_reissue_now native_status template_key blocker =
    can_reissue native_status template_key && is_free blocker

-- The plan is to cancel exactly for a document that is submitted and of a kind that may be cancelled.
pub void_plan-cancel :
    (native_doctype : String) (docstatus : Option ℕ)
    → (void_plan native_doctype docstatus ≡ ok cancel)
      ↔ (Has cancel_doctypes native_doctype × (docstatus ≡ some 1))
unfolding void_plan
void_plan-cancel d none = (λ h. ground arith, λ h. ground arith)
void_plan-cancel d (some n) = (λ h. ground arith, λ h. ground arith)

-- Voiding and reissuing exclude each other: what can be voided cannot be reissued.
pub can_void-can_reissue :
    (instance_status native_status native_name template_key : String) (blocker : Option Blocker)
    → can_void instance_status native_status native_name ≡ true
    → can_reissue_now native_status template_key blocker ≡ false
unfolding can_void can_reissue_now
can_void-can_reissue i n name key blocker h = rw ((eq_iff n "Created").0 (ground arith)) refl
